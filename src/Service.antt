-- ===== src/Service.antt =====
-- session/in_memory_service.go: the in-memory session service. Each method holds the mutex for its
-- whole body, so a call is one step. The clock and the generated UUID are arguments.
pub mod Store
pub mod Shared
pub mod Commit
pub mod Filed
pub mod Returned
pub mod Visible
use adk_go.Base.{
  ℕ, Option, none, some, List, [], ◌∷◌, ◌++◌, Text, text_comparable, text_eq, has_prefix,
  trim_prefix, if◌then◌else◌, ltb, Outcome, ok, fail, panic, ◌>>=◌, app_not_found, user_not_found,
  session_not_found, list_events_not_implemented,
}
use adk_go.GoMap
use adk_go.GoMap.{GoMap}
use adk_go.State.{or_empty, app_prefix, user_prefix}
use adk_go.Event.{Event, EventActions}
use adk_go.Session.{Session, new_session, add_event, set_last_update_time, get_recent_events}

abbrev pub Sessions : Type 0 → Type 0
Sessions V = GoMap Text (GoMap Text (GoMap Text (Session V)))

pub record Service (V : Type 0) : Type 0 where
  pub sessions : Sessions V
  pub user_state : GoMap Text (GoMap Text (GoMap Text V))
  pub app_state : GoMap Text (GoMap Text V)

-- A value of the interface `types.Session`: a plain session, or a service by its embedded session.
pub data SessionValue (V : Type 0) : Type 0 where
  of_session : Session V → SessionValue V
  of_service : Session V → SessionValue V

-- `GetSessionConfig`; the service reads no other field.
pub record GetSessionConfig : Type 0 where
  pub num_recent_events : ℕ

-- `m[k]` on a map of maps: a missing key reads as the nil map, which has no entries.
abbrev pub inner {ℓ} : {W : Type ℓ} → Text → GoMap Text (GoMap Text W) → GoMap Text W
inner k m = or_empty (GoMap.get k m)

module _ {V : Type 0} where
  -- `NewInMemoryService()`
  abbrev pub new_service : Service V
  new_service = record { sessions = []; user_state = []; app_state = [] }

  -- `s.sessions[appName][userID][sessionID]`
  unfoldable pub stored : Service V → Text → Text → Text → Option (Session V)
  stored s app user id = GoMap.get id (inner user (inner app s.sessions))

  -- `s.appState[appName][key]` and `s.userState[appName][userID][key]`
  unfoldable pub app_value : Service V → Text → Text → Option V
  app_value s app key = GoMap.get key (inner app s.app_state)

  unfoldable pub user_value : Service V → Text → Text → Text → Option V
  user_value s app user key = GoMap.get key (inner user (inner app s.user_state))

  -- The write `s.sessions[app][user][id] = ses`, behind the two guards that make missing maps.
  unfoldable pub store : Sessions V → Text → Text → Text → Session V → Sessions V
  store m app user id ses =
      GoMap.set app (GoMap.set user (GoMap.set id ses (inner user (inner app m))) (inner app m)) m

  -- `copySession`: its value is a plain session.
  unfoldable copy_session : Session V → Session V
  unfolding new_session add_event
  copy_session ses =
      let copied =
        add_event (new_session ses.app_name ses.user_id ses.id (some []) ses.last_update_time)
          ses.events in
      record copied { state = GoMap.copy copied.state ses.state }

  -- The loops of `mergeState`: each key is written behind the prefix.
  unfoldable pub merge_entries : Text → GoMap Text V → GoMap Text V → GoMap Text V
  merge_entries prefix target [] = target
  merge_entries prefix target ((key, value) ∷ rest) =
      merge_entries prefix (GoMap.set (prefix ++ key) value target) rest

  -- `mergeState`; the guards skip the loops where there is no map, which is empty here.
  unfoldable merge_state : Service V → Text → Text → Session V → Session V
  unfolding merge_entries
  merge_state s app user ses = record ses {
    state =
        merge_entries user_prefix (merge_entries app_prefix ses.state (inner app s.app_state))
          (inner user (inner app s.user_state));
  }

  -- `CreateSession`: the new service, and the session returned.
  unfoldable pub create_session :
      Service V
      → (now : ℕ) (uuid : Text) (app user id : Text) → Option (GoMap Text V)
      → Service V × Session V
  unfolding store copy_session merge_state new_session
  create_session s now uuid app user id state =
      let id' = if text_eq id [] then uuid else id in
      let ses = new_session app user id' (some (or_empty state)) now in
      let s' = record s { sessions = store s.sessions app user id' ses } in
      (s', merge_state s' app user (copy_session ses))

  -- The type assertion `x.(*InMemoryService)`.
  unfoldable assert_service : SessionValue V → Outcome (Session V)
  assert_service (of_service ses) = ok ses
  assert_service (of_session ses) = panic

  -- The part of `GetSession` behind `if config != nil`.
  unfoldable apply_config : Option GetSessionConfig → Session V → Session V
  unfolding add_event get_recent_events
  apply_config none ses = ses
  apply_config (some config) ses =
      if ltb 0 config.num_recent_events
      then add_event ses (get_recent_events ses config.num_recent_events)
      else ses

  -- `GetSession` behind its three guards.
  unfoldable get_stored :
      Service V → Text → Text → Option GetSessionConfig → Session V → Outcome (Session V)
  unfolding assert_service copy_session apply_config merge_state
  get_stored s app user config ses = do
    copied ← assert_service (of_session (copy_session ses))
    ok (merge_state s app user (apply_config config copied))

  -- `GetSession`
  unfoldable pub get_session :
      Service V → Text → Text → Text → Option GetSessionConfig → Outcome (Session V)
  unfolding get_stored
  get_session s app user id config = elim (GoMap.get app s.sessions) [
    | none ↦ fail (app_not_found app)
    | some users ↦ elim (GoMap.get user users) [
      | none ↦ fail (user_not_found user app)
      | some ids ↦ elim (GoMap.get id ids) [
        | none ↦ fail (session_not_found id user)
        | some ses ↦ get_stored s app user config ses
      ]
    ]
  ]

  -- The loop of `ListSessions`.
  unfoldable pub list_from : GoMap Text (Session V) → List (Session V)
  unfolding new_session
  list_from [] = []
  list_from ((id, ses) ∷ rest) =
      new_session ses.app_name ses.user_id ses.id (some []) ses.last_update_time ∷ list_from rest

  -- `ListSessions`
  unfoldable pub list_sessions : Service V → Text → Text → List (Session V)
  unfolding list_from
  list_sessions s app user = elim (GoMap.get app s.sessions) [
    | none ↦ []
    | some users ↦ elim (GoMap.get user users) [ none ↦ [] | some ids ↦ list_from ids ]
  ]

  -- `DeleteSession`
  unfoldable pub delete_session : Service V → Text → Text → Text → Service V
  delete_session s app user id = elim (GoMap.get app s.sessions) [
    | none ↦ s
    | some users ↦ elim (GoMap.get user users) [
      | none ↦ s
      | some ids ↦ elim (GoMap.get id ids) [
        | none ↦ s
        | some ses ↦ record s {
          sessions = GoMap.set app (GoMap.set user (GoMap.delete id ids) users) s.sessions;
        }
      ]
    ]
  ]

  -- One round of the loop of `AppendEvent` over the state delta.
  unfoldable pub apply_entry : Service V → Text → Text → Text → V → Service V
  apply_entry s app user key value =
      if has_prefix key app_prefix
      then record s {
        app_state =
            GoMap.set app (GoMap.set (trim_prefix key app_prefix) value (inner app s.app_state))
              s.app_state;
      }
      else if has_prefix key user_prefix
      then record s {
        user_state =
            GoMap.set app
              (GoMap.set user
                (GoMap.set (trim_prefix key user_prefix) value
                  (inner user (inner app s.user_state)))
                (inner app s.user_state))
              s.user_state;
      }
      else s

  unfoldable pub apply_state_delta : Service V → Text → Text → GoMap Text V → Service V
  unfolding apply_entry
  apply_state_delta s app user [] = s
  apply_state_delta s app user ((key, value) ∷ rest) =
      apply_state_delta (apply_entry s app user key value) app user rest

  -- The state delta of the event; nil actions and a nil delta have no entries.
  abbrev pub delta_of : Option (EventActions V) → GoMap Text V
  delta_of none = []
  delta_of (some a) = a.state_delta

  -- `ses.AddEvent(event)` and `ses.SetLastUpdateTime(event.Timestamp)`
  unfoldable pub record_event : Session V → Event V → Session V
  unfolding add_event set_last_update_time
  record_event ses event = set_last_update_time (add_event ses (event ∷ [])) event.timestamp

  -- `AppendEvent`: the new service, and the caller's session, which is another object than the
  -- stored one.
  unfoldable pub append_event : Service V → Session V → Event V → Service V × Session V
  unfolding record_event apply_state_delta store stored
  append_event s ses event =
      let app = ses.app_name in
      let user = ses.user_id in
      (
        elim (stored s app user ses.id) [
          | none ↦ s
          | some old ↦
              apply_state_delta
                (record s { sessions = store s.sessions app user ses.id (record_event old event) })
                app user (delta_of event.actions)
        ],
        record_event ses event,
      )

  -- `ListEvents`
  unfoldable pub list_events : Service V → Outcome (List (Event V))
  list_events s = fail list_events_not_implemented

-- ===== src/Service/Returned.antt =====
-- What the calls that read sessions return.
use adk_go.GoMap
use adk_go.Service.Shared.{get-merge_entries, under}
use adk_go.Service.{
  Service, GetSessionConfig, stored, get_session, create_session, list_from, list_sessions, inner,
  merge_entries,
}
use adk_go.Base.{
  Text, Option, ◌≡◌, some, panic, none, Error, fail, [], app_not_found, arith, map, user_not_found,
  ℕ, session_not_found, text_comparable, ◌∷◌, Option-cases, ap, inl, or_else, inr, refl,
}
use adk_go.Session.{Session, new_session}
use adk_go.GoMap.{GoMap, Distinct}
use adk_go.GoMap.Laws.{get-nil, get-copy}
use adk_go.State.{or_empty, user_prefix, app_prefix}

module _ {V : Type 0} where
  -- The first of the app, the user and the session that the service does not know.
  abbrev missing_error : Service V → Text → Text → Text → Error
  missing_error s app user id = elim (GoMap.get app s.sessions) [
    | none ↦ app_not_found app
    | some users ↦ elim (GoMap.get user users) [
      | none ↦ user_not_found user app
      | some ids ↦ session_not_found id user
    ]
  ]

  get_session-stored :
      (s : Service V) (app user id : Text) (config : Option GetSessionConfig) (ses : Session V)
      → stored s app user id ≡ some ses
      → get_session s app user id config ≡ panic
  unfolding stored get_session
  get_session-stored s app user id config ses e =
      ground (arith, get-nil {V = Session V} id, get-nil {V = GoMap Text (Session V)} user)

  get_session-missing :
      (s : Service V) (app user id : Text) (config : Option GetSessionConfig)
      → stored s app user id ≡ none
      → get_session s app user id config ≡ fail (missing_error s app user id)
  unfolding stored get_session
  get_session-missing s app user id config e = ground arith

  -- `GetSession` never returns a session. Where the session is stored it panics, because the copy is
  -- a plain session and the type assertion is to the service; where it is not, the error names the
  -- first of the app, the user and the session that is missing.
  pub get_session_lem :
      (s : Service V) (app user id : Text) (config : Option GetSessionConfig)
      → get_session s app user id config ≡ elim (stored s app user id) [
        | some ses ↦ panic
        | none ↦ fail (missing_error s app user id)
      ]
  get_session_lem s app user id config = elim (Option-cases (stored s app user id)) [
    | inl missing ↦ rw missing (get_session-missing s app user id config missing)
    | inr (ses, there) ↦ rw there (get_session-stored s app user id config ses there)
  ]

  -- The state of the session that `CreateSession` returns, where the app state, the user state and
  -- the initial state have distinct keys: a key behind `user:` reads the user state if that has it,
  -- a key behind `app:` the app state if that has it, and every other read is that of the initial
  -- state.
  pub state-create_session :
      (s : Service V) (now : ℕ) (uuid app user id : Text) (state : Option (GoMap Text V))
      (key : Text)
      → Distinct (inner app s.app_state)
      → Distinct (inner user (inner app s.user_state))
      → Distinct (or_empty state)
      → GoMap.get key (create_session s now uuid app user id state).1.state
        ≡ or_else (under user_prefix key (inner user (inner app s.user_state))) (
            or_else (under app_prefix key (inner app s.app_state)) (GoMap.get key (or_empty state)))
  unfolding create_session
  state-create_session s now uuid app user id state key da du ds =
      let target = GoMap.copy [] (or_empty state) in
      ground (
        arith,
        get-merge_entries user_prefix (merge_entries app_prefix target (inner app s.app_state))
            (inner user (inner app s.user_state)) key du,
        get-merge_entries app_prefix target (inner app s.app_state) key da,
        get-copy key [] (or_empty state) ds,
        get-nil {V = V} key,
      )

  -- The sessions that `ListSessions` returns, with no events and no state.
  abbrev pub summary : Text × Session V → Session V
  summary e = record {
    id = e.1.id;
    app_name = e.1.app_name;
    user_id = e.1.user_id;
    events = [];
    state = [];
    last_update_time = e.1.last_update_time;
  }

  list_from-map : (m : GoMap Text (Session V)) → list_from m ≡ map summary m
  unfolding list_from
  list_from-map [] = refl
  list_from-map ((id, ses) ∷ m) =
      unfold new_session in ap (◌∷◌ (summary (id, ses))) (list_from-map m)

  -- `ListSessions` returns one summary for each session stored for the app and the user, in the
  -- order of the map, and the empty list for an unknown app or user.
  pub list_sessions_lem :
      (s : Service V) (app user : Text)
      → list_sessions s app user ≡ map summary (inner user (inner app s.sessions))
  unfolding list_sessions
  list_sessions_lem s app user = elim (Option-cases (GoMap.get app s.sessions)) [
    | inl e ↦ rw (e, list_sessions) (rw (get-nil {V = GoMap Text (Session V)} user))
    | inr (users, e) ↦
        rw (e, list_sessions)
          (elim (Option-cases (GoMap.get user users)) [
            | inl e' ↦ rw (e', list_sessions)
            | inr (ids, e') ↦ rw (e', list_sessions) (list_from-map ids)
          ])
  ]

-- ===== src/Service/Visible.antt =====
-- What one session sees of the shared state that another one changes
-- (session/in_memory_service.go).
use adk_go.GoMap
use adk_go.GoMap.{GoMap, Distinct}
use adk_go.GoMap.Laws.{set-Distinct, get-nil}
use adk_go.Service.{
  Service, apply_entry, apply_state_delta, append_event, create_session, inner, stored, store,
  delta_of, record_event, app_value, user_value,
}
use adk_go.Service.Store.{inner-set}
use adk_go.Base.{
  text_comparable, Text, ◌≡◌, Bool-cases, inl, inr, has_prefix, ◌==◌, ◌∷◌, [], ◌++◌, Option-cases,
  ℕ, some, none, has_prefix-append, or_else, arith, ==_refl, drop, drop-append, length,
}
use adk_go.Session.{Session}
use adk_go.Service.Shared.{under}
use adk_go.State.{app_prefix, user_prefix}
use adk_go.Event.{Event}
use adk_go.Service.Commit.{append_event-commits}
use adk_go.Service.Returned.{state-create_session}

module _ {V : Type 0} where
  -- The app state of every app and the user state of every user have distinct keys.
  abbrev pub IsTidy : Service V → Type 0
  IsTidy s =
      ((app : Text) → Distinct (inner app s.app_state))
      × ((app user : Text) → Distinct (inner user (inner app s.user_state)))

  tidy_app_set :
      (k v : Text) (x : V) (m : GoMap Text (GoMap Text V)) (j : Text)
      → ((a : Text) → Distinct (inner a m))
      → Distinct (inner j (GoMap.set k (GoMap.set v x (inner k m)) m))
  tidy_app_set k v x m j h =
      rw (inner-set k j (GoMap.set v x (inner k m)) m) (elim (Bool-cases (k == j)) [
        | inl same ↦ rw same (set-Distinct v x (inner k m) (h k))
        | inr other ↦ rw other (h j)
      ])

  tidy_user_set :
      (app user v : Text) (x : V) (m : GoMap Text (GoMap Text (GoMap Text V))) (app' user' : Text)
      → ((a u : Text) → Distinct (inner u (inner a m)))
      → Distinct (
          inner user' (
            inner app' (
              GoMap.set app
                (GoMap.set user (GoMap.set v x (inner user (inner app m))) (inner app m))
                m)))
  tidy_user_set app user v x m app' user' h =
      let users = GoMap.set user (GoMap.set v x (inner user (inner app m))) (inner app m) in
      rw (inner-set app app' users m) (elim (Bool-cases (app == app')) [
        | inl same ↦ rw same (tidy_app_set user v x (inner app m) user' (h app))
        | inr other ↦ rw other (h app' user')
      ])

  apply_entry-IsTidy :
      (s : Service V) (app user key : Text) (value : V)
      → IsTidy s
      → IsTidy (apply_entry s app user key value)
  unfolding apply_entry
  apply_entry-IsTidy s app user key value (apps, users) =
      elim (Bool-cases (has_prefix key app_prefix)) [
        | inl shared ↦
            rw (shared, apply_entry)
              (λ a. tidy_app_set app (drop (length app_prefix) key) value s.app_state a apps, users)
        | inr other ↦ elim (Bool-cases (has_prefix key user_prefix)) [
          | inl own ↦
              rw (other, own, apply_entry)
                (
                  apps,
                  λ a u.
                      tidy_user_set app user (drop (length user_prefix) key) value s.user_state a u
                        users,
                )
          | inr neither ↦ rw (other, neither, apply_entry) (apps, users)
        ]
      ]

  apply_state_delta-IsTidy :
      (s : Service V) (app user : Text) (d : GoMap Text V)
      → IsTidy s
      → IsTidy (apply_state_delta s app user d)
  unfolding apply_state_delta
  apply_state_delta-IsTidy s app user [] h = h
  apply_state_delta-IsTidy s app user ((k, v) ∷ d) h =
      apply_state_delta-IsTidy (apply_entry s app user k v) app user d
        (apply_entry-IsTidy s app user k v h)

  -- `AppendEvent` keeps the keys of the shared state distinct; no other method changes that state.
  pub append_event-IsTidy :
      (s : Service V) (ses : Session V) (ev : Event V) → IsTidy s → IsTidy (append_event s ses ev).0
  unfolding append_event
  append_event-IsTidy s ses ev h = elim (Option-cases (stored s ses.app_name ses.user_id ses.id)) [
    | inl missing ↦ rw (missing, append_event) h
    | inr (old, there) ↦
        rw (there, append_event)
          (apply_state_delta-IsTidy
            (record s {
              sessions = store s.sessions ses.app_name ses.user_id ses.id (record_event old ev);
            })
            ses.app_name ses.user_id (delta_of ev.actions) h)
  ]

  under-append : (p k : Text) (m : GoMap Text V) → under p (p ++ k) m ≡ GoMap.get k m
  under-append p k m = rw (has_prefix-append p k, drop-append p k)

  -- In a service whose shared state has distinct keys, after `AppendEvent` in a stored session of
  -- an event whose delta has distinct keys, a session that is created for the same app without a
  -- state of its own reads, behind `app:`, the entries of the delta and else the app state from
  -- before, whoever its user is; and one for the same user reads, behind `user:`, the entries of
  -- the delta and else the user state from before.
  pub create_session-append_event :
      (s : Service V) (ses : Session V) (ev : Event V) (old : Session V) (k : Text) (now : ℕ)
      (uuid user id : Text)
      → IsTidy s
      → Distinct (delta_of ev.actions)
      → stored s ses.app_name ses.user_id ses.id ≡ some old
      → (GoMap.get
            (app_prefix ++ k)
            (create_session (append_event s ses ev).0 now uuid ses.app_name user id none).1.state
          ≡ or_else
              (GoMap.get (app_prefix ++ k) (delta_of ev.actions))
              (app_value s ses.app_name k))
        × (GoMap.get
              (user_prefix ++ k)
              (create_session
                (append_event s ses ev).0
                now
                uuid
                ses.app_name
                ses.user_id
                id
                none).1.state
            ≡ or_else
                (GoMap.get (user_prefix ++ k) (delta_of ev.actions))
                (user_value s ses.app_name ses.user_id k))
  unfolding app_value user_value
  create_session-append_event s ses ev old k now uuid user id tidy d there =
      let later = (append_event s ses ev).0 in
      let app = ses.app_name in
      let (apps, users) = append_event-IsTidy s ses ev tidy in
      let commits = append_event-commits s ses ev app ses.user_id k d in
      (
        ground (
          arith,
          state-create_session later now uuid app user id none (app_prefix ++ k) (apps app)
              (users app user) tt,
          under-append app_prefix k (inner app later.app_state),
          get-nil {V = V} (app_prefix ++ k),
          commits.0,
          ==_refl app,
          there,
        ),
        ground (
          arith,
          state-create_session later now uuid app ses.user_id id none (user_prefix ++ k) (apps app)
              (users app ses.user_id) tt,
          under-append user_prefix k (inner ses.user_id (inner app later.user_state)),
          get-nil {V = V} (user_prefix ++ k),
          commits.1,
          ==_refl app,
          ==_refl ses.user_id,
          there,
        ),
      )

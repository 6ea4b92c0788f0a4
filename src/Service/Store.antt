-- ===== src/Service/Store.antt =====
-- The service as a table of sessions: what `CreateSession`, `DeleteSession` and `AppendEvent` do to
-- the session stored under each key.
use adk_go.Base.{
  ◌≡◌, ◌&&◌, Bool, Option, none, some, arith, Text, text_comparable, ◌==◌, ==_iff, if◌then◌else◌,
  [], refl, ℕ, Option-cases, inl, inr, ◌∷◌, ◌++◌,
}
use adk_go.GoMap
use adk_go.GoMap.{GoMap}
use adk_go.GoMap.Laws.{get-set, get-delete, get-nil}
use adk_go.Session.{Session, new_session}
use adk_go.Event.{Event}
use adk_go.Service.{
  Sessions, inner, store, Service, append_event, apply_state_delta, apply_entry, create_session,
  stored, delete_session, record_event, delta_of,
}
use adk_go.State.{or_empty}

-- The three keys of one stored session name another one.
abbrev pub same_key : Text → Text → Text → Text → Text → Text → Bool
same_key app user id app' user' id' = (app == app') && (user == user') && (id == id')

-- The key that `CreateSession` files a session under: a generated one for an empty one.
abbrev pub used_id : Text → Text → Text
used_id uuid id = if id == [] then uuid else id

module _ {ℓ} {W : Type ℓ} where
  pub inner-set :
      (k j : Text) (w : GoMap Text W) (m : GoMap Text (GoMap Text W))
      → inner j (GoMap.set k w m) ≡ (if k == j then w else inner j m)
  inner-set k j w m = rw get-set (ground arith)

module _ {V : Type 0} where
  find : Sessions V → Text → Text → Text → Option (Session V)
  find m app user id = GoMap.get id (inner user (inner app m))

  find-store :
      (m : Sessions V) (app user id app' user' id' : Text) (ses : Session V)
      → find (store m app user id ses) app' user' id'
        ≡ (if same_key app user id app' user' id' then some ses else find m app' user' id')
  unfolding find store
  find-store m app user id app' user' id' ses =
      let users = inner app m in
      let ids = inner user users in
      let new_ids = GoMap.set id ses ids in
      ground (
        arith,
        get-set app app' (GoMap.set user new_ids users) m,
        get-set user user' new_ids users,
        get-set id id' ses ids,
        ==_iff app app',
        ==_iff user user',
        ==_iff id id',
      )

  find-deleted :
      (m : Sessions V) (app user id app' user' id' : Text)
      → find
          (GoMap.set app
            (GoMap.set user (GoMap.delete id (inner user (inner app m))) (inner app m))
            m)
          app'
          user'
          id'
        ≡ (if same_key app user id app' user' id' then none else find m app' user' id')
  unfolding find
  find-deleted m app user id app' user' id' =
      let users = inner app m in
      let ids = inner user users in
      ground (
        arith,
        get-set app app' (GoMap.set user (GoMap.delete id ids) users) m,
        get-set user user' (GoMap.delete id ids) users,
        get-delete id id' ids,
        ==_iff app app',
        ==_iff user user',
        ==_iff id id',
      )

  find-stored :
      (s : Service V) (app user id : Text) → stored s app user id ≡ find s.sessions app user id
  unfolding find stored
  find-stored s app user id = refl

  -- `CreateSession` files the new session, with no events, under its three keys, and leaves every
  -- other stored session as it was.
  pub stored-create_session :
      (s : Service V) (now : ℕ) (uuid app user id : Text) (state : Option (GoMap Text V))
      (app' user' id' : Text)
      → stored (create_session s now uuid app user id state).0 app' user' id' ≡ (
          if same_key app user (used_id uuid id) app' user' id'
          then some (new_session app user (used_id uuid id) state now)
          else stored s app' user' id')
  unfolding create_session find stored new_session
  stored-create_session s now uuid app user id state app' user' id' =
      let id'' = used_id uuid id in
      find-store s.sessions app user id'' app' user' id'
        (new_session app user id'' (some (or_empty state)) now)

  -- `DeleteSession` removes the session under its three keys and no other, if there is one or not.
  pub stored-delete_session :
      (s : Service V) (app user id app' user' id' : Text)
      → stored (delete_session s app user id) app' user' id'
        ≡ (if same_key app user id app' user' id' then none else stored s app' user' id')
  unfolding delete_session find stored
  stored-delete_session s app user id app' user' id' = ground (
    arith,
    find-deleted s.sessions app user id app' user' id',
    ==_iff app app',
    ==_iff user user',
    ==_iff id id',
    get-nil {V = Session V} id',
    get-nil {V = GoMap Text (Session V)} user',
  )

  sessions-apply_state_delta :
      (s : Service V) (app user : Text) (d : GoMap Text V)
      → (apply_state_delta s app user d).sessions ≡ s.sessions
  unfolding apply_state_delta
  sessions-apply_state_delta s app user [] = refl
  sessions-apply_state_delta s app user ((k, v) ∷ d) =
      ground (arith, sessions-apply_state_delta (apply_entry s app user k v) app user d)

  -- The session with the event at the end and the time of the event, if there is a session.
  abbrev pub appended : Option (Session V) → Event V → Option (Session V)
  appended none ev = none
  appended (some old) ev =
      some (record old { events = old.events ++ ev ∷ []; last_update_time = ev.timestamp })

  stored-written :
      (s : Service V) (ses : Session V) (ev : Event V) (old : Session V) (app' user' id' : Text)
      → stored
          (apply_state_delta
            (record s {
              sessions = store s.sessions ses.app_name ses.user_id ses.id (record_event old ev);
            })
            ses.app_name
            ses.user_id
            (delta_of ev.actions))
          app'
          user'
          id'
        ≡ (if same_key ses.app_name ses.user_id ses.id app' user' id'
            then appended (some old) ev
            else stored s app' user' id')
  unfolding stored find record_event
  stored-written s ses ev old app' user' id' =
      rw sessions-apply_state_delta
        (find-store s.sessions ses.app_name ses.user_id ses.id app' user' id' (record_event old ev))

  -- `AppendEvent` records the event in the session stored under the keys of the caller's session,
  -- if there is one: its own state stays as it was, whatever the state delta of the event, and so does
  -- every other stored session.
  pub stored-append_event :
      (s : Service V) (ses : Session V) (ev : Event V) (app' user' id' : Text)
      → stored (append_event s ses ev).0 app' user' id' ≡ (
          if same_key ses.app_name ses.user_id ses.id app' user' id'
          then appended (stored s ses.app_name ses.user_id ses.id) ev
          else stored s app' user' id')
  unfolding append_event
  stored-append_event s ses ev app' user' id' =
      elim (Option-cases (stored s ses.app_name ses.user_id ses.id)) [
        | inl missing ↦
            rw (missing, append_event)
              (ground (
                arith,
                missing,
                ==_iff ses.app_name app',
                ==_iff ses.user_id user',
                ==_iff ses.id id',
              ))
        | inr (old, found) ↦ rw (found, append_event) (stored-written s ses ev old app' user' id')
      ]

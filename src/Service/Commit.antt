-- ===== src/Service/Commit.antt =====
-- What `AppendEvent` commits to the shared state, and what later sessions see of it.
use adk_go.GoMap
use adk_go.Service.Shared.{app_value-apply_entry, user_value-apply_entry}
use adk_go.Service.{
  Service, append_event, apply_state_delta, store, app_value, delta_of, record_event, user_value,
  stored, apply_entry,
}
use adk_go.Base.{
  Text, if◌then◌else◌, is_some, ◌≡◌, [], ◌==◌, or_else, ◌&&◌, ◌++◌, Option-cases, arith, ◌∙◌, inl,
  text_comparable, ◌∷◌, refl, ==_iff, inr,
}
use adk_go.Session.{Session}
use adk_go.GoMap.{GoMap, Distinct}
use adk_go.Event.{Event}
use adk_go.State.{app_prefix, user_prefix}
use adk_go.GoMap.Laws.{get-nil}

module _ {V : Type 0} where
  app_value-apply_state_delta :
      (s : Service V) (app user : Text) (d : GoMap Text V) (app' k : Text)
      → Distinct d
      → app_value (apply_state_delta s app user d) app' k ≡ (
          if app == app'
          then or_else (GoMap.get (app_prefix ++ k) d) (app_value s app' k)
          else app_value s app' k)
  unfolding apply_state_delta GoMap.get
  app_value-apply_state_delta s app user [] app' k d = ground arith
  app_value-apply_state_delta s app user ((key, v) ∷ m) app' k d = ground (
    arith,
    app_value-apply_state_delta (apply_entry s app user key v) app user m app' k d.1,
    app_value-apply_entry s app user key v app' k,
    ==_iff key (app_prefix ++ k),
    d.0,
  )

  user_value-apply_state_delta :
      (s : Service V) (app user : Text) (d : GoMap Text V) (app' user' k : Text)
      → Distinct d
      → user_value (apply_state_delta s app user d) app' user' k ≡ (
          if (app == app') && (user == user')
          then or_else (GoMap.get (user_prefix ++ k) d) (user_value s app' user' k)
          else user_value s app' user' k)
  unfolding apply_state_delta GoMap.get
  user_value-apply_state_delta s app user [] app' user' k d = ground arith
  user_value-apply_state_delta s app user ((key, v) ∷ m) app' user' k d = ground (
    arith,
    user_value-apply_state_delta (apply_entry s app user key v) app user m app' user' k d.1,
    user_value-apply_entry s app user key v app' user' k,
    ==_iff key (user_prefix ++ k),
    d.0,
  )

  -- The service between the two writes of `AppendEvent`.
  abbrev filed : Service V → Session V → Event V → Session V → Service V
  filed s ses ev old = record s {
    sessions = store s.sessions ses.app_name ses.user_id ses.id (record_event old ev);
  }

  app_value-written :
      (s : Service V) (ses : Session V) (ev : Event V) (old : Session V) (app' k : Text)
      → Distinct (delta_of ev.actions)
      → app_value
          (apply_state_delta (filed s ses ev old) ses.app_name ses.user_id (delta_of ev.actions))
          app'
          k
        ≡ (if ses.app_name == app'
            then or_else (GoMap.get (app_prefix ++ k) (delta_of ev.actions)) (app_value s app' k)
            else app_value s app' k)
  app_value-written s ses ev old app' k d =
      app_value-apply_state_delta (filed s ses ev old) ses.app_name ses.user_id
        (delta_of ev.actions) app' k d
      ∙ (unfold app_value in refl)

  user_value-written :
      (s : Service V) (ses : Session V) (ev : Event V) (old : Session V) (app' user' k : Text)
      → Distinct (delta_of ev.actions)
      → user_value
          (apply_state_delta (filed s ses ev old) ses.app_name ses.user_id (delta_of ev.actions))
          app'
          user'
          k
        ≡ (if (ses.app_name == app') && (ses.user_id == user')
            then or_else
                (GoMap.get (user_prefix ++ k) (delta_of ev.actions))
                (user_value s app' user' k)
            else user_value s app' user' k)
  user_value-written s ses ev old app' user' k d =
      user_value-apply_state_delta (filed s ses ev old) ses.app_name ses.user_id
        (delta_of ev.actions) app' user' k d
      ∙ (unfold user_value in refl)

  -- The state delta that `AppendEvent` commits: none if the caller's session is not stored.
  abbrev pub committed : Service V → Session V → Event V → GoMap Text V
  committed s ses ev =
      if is_some (stored s ses.app_name ses.user_id ses.id) then delta_of ev.actions else []

  -- After `AppendEvent` of an event whose delta has distinct keys, the app state of the session's
  -- app has each entry of the committed delta under its key without `app:`, and the user state of
  -- its user each entry under its key without `user:`. Every other value of either state is as
  -- before.
  pub append_event-commits :
      (s : Service V) (ses : Session V) (ev : Event V) (app' user' k : Text)
      → Distinct (delta_of ev.actions)
      → (app_value (append_event s ses ev).0 app' k ≡ (
          if ses.app_name == app'
          then or_else (GoMap.get (app_prefix ++ k) (committed s ses ev)) (app_value s app' k)
          else app_value s app' k))
        × (user_value (append_event s ses ev).0 app' user' k ≡ (
            if (ses.app_name == app') && (ses.user_id == user')
            then or_else
                (GoMap.get (user_prefix ++ k) (committed s ses ev))
                (user_value s app' user' k)
            else user_value s app' user' k))
  unfolding append_event
  append_event-commits s ses ev app' user' k d =
      elim (Option-cases (stored s ses.app_name ses.user_id ses.id)) [
        | inl missing ↦
            rw (missing, append_event)
              (
                ground (arith, get-nil {V = V} (app_prefix ++ k)),
                ground (arith, get-nil {V = V} (user_prefix ++ k)),
              )
        | inr (old, found) ↦
            rw (found, append_event)
              (
                app_value-written s ses ev old app' k d,
                user_value-written s ses ev old app' user' k d,
              )
      ]

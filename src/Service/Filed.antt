-- ===== src/Service/Filed.antt =====
-- Under which keys the service (session/in_memory_service.go) keeps its sessions.
use adk_go.GoMap
use adk_go.Service.Store.{
  same_key, used_id, stored-create_session, stored-delete_session, stored-append_event, appended,
}
use adk_go.Service.{Service, stored, delete_session, new_service, append_event, create_session}
use adk_go.Base.{
  Option, Text, ℕ, ◌≡◌, arith, some, true, ==_iff, Bool-cases, none, text_comparable, inl, inr,
}
use adk_go.Session.{Session, new_session}
use adk_go.GoMap.{GoMap}
use adk_go.Event.{Event}

same_key-true :
    (a b c a' b' c' : Text) → same_key a b c a' b' c' ≡ true → (a ≡ a') × (b ≡ b') × (c ≡ c')
same_key-true a b c a' b' c' h =
    (ground (arith, ==_iff a a'), ground (arith, ==_iff b b'), ground (arith, ==_iff c c'))

module _ {V : Type 0} where
  -- The session, if there is one, has these names.
  abbrev pub IsNamed : Text → Text → Text → Option (Session V) → Type 0
  IsNamed app user id none = Unit
  IsNamed app user id (some ses) = (ses.app_name ≡ app) × (ses.user_id ≡ user) × (ses.id ≡ id)

  -- A session that is stored under three keys has them for its names.
  abbrev pub IsFiled : Service V → Type 0
  IsFiled s = (app user id : Text) → IsNamed app user id (stored s app user id)

  create_session-IsFiled :
      (s : Service V) (now : ℕ) (uuid app user id : Text) (state : Option (GoMap Text V))
      → IsFiled s
      → IsFiled (create_session s now uuid app user id state).0
  create_session-IsFiled s now uuid app user id state h a u i =
      rw (stored-create_session s now uuid app user id state a u i)
        (elim (Bool-cases (same_key app user (used_id uuid id) a u i)) [
          | inl same ↦
              rw same (unfold new_session in same_key-true app user (used_id uuid id) a u i same)
          | inr other ↦ rw other (h a u i)
        ])

  delete_session-IsFiled :
      (s : Service V) (app user id : Text) → IsFiled s → IsFiled (delete_session s app user id)
  delete_session-IsFiled s app user id h a u i =
      rw (stored-delete_session s app user id a u i)
        (elim (Bool-cases (same_key app user id a u i)) [
          | inl same ↦ rw same tt
          | inr other ↦ rw other (h a u i)
        ])

  appended-IsNamed :
      (app user id : Text) (o : Option (Session V)) (ev : Event V)
      → IsNamed app user id o
      → IsNamed app user id (appended o ev)
  appended-IsNamed app user id none ev h = tt
  appended-IsNamed app user id (some old) ev h = h

  append_event-IsFiled :
      (s : Service V) (ses : Session V) (ev : Event V)
      → IsFiled s
      → IsFiled (append_event s ses ev).0
  append_event-IsFiled s ses ev h a u i =
      rw (stored-append_event s ses ev a u i)
        (elim (Bool-cases (same_key ses.app_name ses.user_id ses.id a u i)) [
          | inl same ↦
              let (k1, k2, k3) = same_key-true ses.app_name ses.user_id ses.id a u i same in
              rw same (
                rw (← k1, ← k2, ← k3)
                  (appended-IsNamed ses.app_name ses.user_id ses.id
                    (stored s ses.app_name ses.user_id ses.id) ev
                    (h ses.app_name ses.user_id ses.id)))
          | inr other ↦ rw other (h a u i)
        ])

  -- `CreateSession`, `DeleteSession` and `AppendEvent` keep every session filed under its own names.
  pub methods-IsFiled :
      (s : Service V) (now : ℕ) (uuid app user id : Text) (state : Option (GoMap Text V))
      (ses : Session V) (ev : Event V)
      → IsFiled s
      → IsFiled (create_session s now uuid app user id state).0
        × IsFiled (delete_session s app user id)
        × IsFiled (append_event s ses ev).0
  methods-IsFiled s now uuid app user id state ses ev h = (
    create_session-IsFiled s now uuid app user id state h,
    delete_session-IsFiled s app user id h,
    append_event-IsFiled s ses ev h,
  )

-- A new service holds no session.
pub new_service-IsFiled : (V : Type 0) → IsFiled (new_service {V = V})
unfolding stored GoMap.get
new_service-IsFiled V app user id = tt

-- ===== src/Memory/Reachable.antt =====
-- What a memory service (memory/in_memory.go) can come to hold.
use adk_go.GoMap
use adk_go.Memory.{
  Memories, new_memories, add_events, add_session_to_memory, search_memory, user_key,
}
use adk_go.Base.{Text, ◌≡◌, ok, List, [], panic, ◌∷◌, arith, refl, if◌then◌else◌, eqb, length}
use adk_go.Session.{Session}
use adk_go.Event.{Event}

module _ {V : Type 0} where
  -- The services that calls of `AddSessionToMemory` make from a new one.
  pub data Reach : Memories V → Type 0 where
    start : {s : Memories V} → s ≡ new_memories → Reach s
    add :
        {s t : Memories V} (session : Session V)
        → Reach s
        → add_session_to_memory s session ≡ ok t
        → Reach t

  add_events-new :
      (key id : Text) (event : Event V) (events : List (Event V))
      → add_events new_memories key id (event ∷ events) ≡ panic
  unfolding add_events GoMap.get
  add_events-new key id event events = ground arith

  add_events-kept :
      (key id : Text) (events : List (Event V)) (t : Memories V)
      → add_events new_memories key id events ≡ ok t
      → t ≡ new_memories
  add_events-kept key id [] t e = unfold add_events in cc
  add_events-kept key id (event ∷ events) t e = cc (add_events-new key id event events)

  add_events-eq :
      (key id : Text) (events : List (Event V))
      → add_events new_memories key id events
        ≡ (if eqb (length events) 0 then ok new_memories else panic)
  add_events-eq key id [] = unfold add_events in refl
  add_events-eq key id (event ∷ events) = ground (arith, add_events-new key id event events)

  add_session-new :
      (session : Session V) (t : Memories V)
      → add_session_to_memory new_memories session ≡ ok t
      → t ≡ new_memories
  unfolding add_session_to_memory
  add_session-new session t e =
      add_events-kept (user_key session.app_name session.user_id) session.id session.events t e

  Reach-new : {s : Memories V} → Reach s → s ≡ new_memories
  Reach-new (start e) = e
  Reach-new (add {s = s} {t = t} session r e) = add_session-new session t (rw (Reach-new r) at e)

  -- On every service that can be reached from a new one, `AddSessionToMemory` leaves the service as
  -- it was for a session without events and panics for every other one, and `SearchMemory` finds
  -- nothing, whatever was added and is asked for.
  pub Reach-forgets :
      (lower : Text → Text) (s : Memories V) (session : Session V) (app user query : Text)
      → Reach s
      → (add_session_to_memory s session ≡ (if eqb (length session.events) 0 then ok s else panic))
        × (search_memory lower s app user query ≡ ok [])
  unfolding add_session_to_memory search_memory GoMap.get
  Reach-forgets lower s session app user query r =
      rw (Reach-new r)
        (add_events-eq (user_key session.app_name session.user_id) session.id session.events, refl)

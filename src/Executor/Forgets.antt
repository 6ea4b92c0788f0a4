-- ===== src/Executor/Forgets.antt =====
-- Saving a context of code execution (codeexecutor/context.go) in the session state and making one from
-- it again.
use adk_go.Executor.Context.{
  Context, Value, get_code_executor_context, get_state_delta, set_execution_id, context_key,
  empty_struct, get_execution_id, session_id_key,
}
use adk_go.State.Reads.{IsCoherent, get-to_map, get-set-eq, writes-IsCoherent, get-update}
use adk_go.State
use adk_go.GoMap
use adk_go.Base.{
  refl, Text, ◌==◌, ◌≡◌, false, Bool-cases, inl, inr, [], arith, text_comparable, ◌∙◌, sym,
}

module _ {F V : Type 0} where
  -- The context of a session state.
  abbrev pub context_of : State.State (Value F V) → Context F V
  context_of s = (get_code_executor_context s).1

  -- The session state after the context with an execution ID has been saved in it.
  abbrev pub saved : (Context F V → V) → Text → State.State (Value F V) → State.State (Value F V)
  saved nest id s =
      State.update (get_code_executor_context s).0
        (get_state_delta nest (set_execution_id id (context_of s)))

  read_context :
      (s : State.State (Value F V)) (key : Text)
      → IsCoherent s
      → (context_key == key) ≡ false
      → (GoMap.get key (context_of s) ≡ State.get s key)
        × (State.get (get_code_executor_context s).0 key ≡ State.get s key)
  unfolding get_code_executor_context
  read_context s key c other_key = elim (Bool-cases (State.has s context_key)) [
    | inl there ↦ rw there (get-to_map s key c.value_distinct c.delta_distinct, refl)
    | inr missing ↦
        let c' = (writes-IsCoherent s context_key empty_struct [] c).0 in
        let set_key = get-set-eq s context_key key empty_struct in
        ground (
          arith,
          missing,
          other_key,
          set_key,
          get-to_map (State.set s context_key empty_struct) key c'.value_distinct c'.delta_distinct,
        )
  ]

  get_execution_id-cong :
      (c d : Context F V)
      → GoMap.get session_id_key c ≡ GoMap.get session_id_key d
      → get_execution_id c ≡ get_execution_id d
  unfolding get_execution_id
  get_execution_id-cong c d e = rw (get_execution_id, e) refl

  context-IsCoherent :
      (s : State.State (Value F V)) → IsCoherent s → IsCoherent (get_code_executor_context s).0
  unfolding get_code_executor_context
  context-IsCoherent s c = elim (Bool-cases (State.has s context_key)) [
    | inl there ↦ rw there c
    | inr missing ↦ rw missing ((writes-IsCoherent s context_key empty_struct [] c).0)
  ]

  -- Of a coherent session state: setting an execution ID, saving the delta of the context in the session
  -- state and making a context from that state again gives the execution ID of the context before it was set.
  pub get_execution_id-saved :
      (nest : Context F V → V) (id : Text) (s : State.State (Value F V))
      → IsCoherent s
      → get_execution_id (context_of (saved nest id s)) ≡ get_execution_id (context_of s)
  unfolding get_state_delta GoMap.get
  get_execution_id-saved nest id s c =
      let s' = (get_code_executor_context s).0 in
      let delta = get_state_delta nest (set_execution_id id (context_of s)) in
      let c' = context-IsCoherent s c in
      let c'' = (writes-IsCoherent s' context_key empty_struct delta c').1 in
      let (old, entered) = read_context s session_id_key c refl in
      let (new, _) = read_context (saved nest id s) session_id_key c'' refl in
      get_execution_id-cong (context_of (saved nest id s)) (context_of s)
        (new ∙ get-update s' delta session_id_key (refl, tt) ∙ entered ∙ sym old)

-- ===== src/Calls/Handle/Silent.antt =====
-- `HandleFunctionCalls` (flow/llmflow/functions.go) of an agent without callbacks after the tool.
use adk_go.Calls.Handle.{
  Handled, answers, hangs, handle_calls, handle_call, handle_function_calls, after_loop, send,
}
use adk_go.Calls.Tools.{Invocation, LlmAgent, Tool}
use adk_go.Base.{
  refl, List, Text, ok, Outcome, [], fail, ◌≡◌, panic, ◌∷◌, arith, false, inl, inr, some,
  Outcome-cases,
}
use adk_go.Event.{Event, get_function_calls}
use adk_go.PySet.{Set}
use adk_go.GoMap.{GoMap}
use adk_go.Genai.{FunctionCall}

module _ {V : Type 0} where
  -- The loop ends with an error, a panic or the events that it started with.
  abbrev Keeps : List (Event V) → Outcome (List (Event V)) → Type 0
  Keeps events (ok es) = es ≡ events
  Keeps events (fail e) = Unit
  Keeps events panic = Unit

  -- The caller gets no answer but an error, or a panic.
  abbrev pub IsSilent : Handled V → Type 0
  IsSilent (answers (ok r)) = ⊥
  IsSilent (answers (fail e)) = Unit
  IsSilent (answers panic) = Unit
  IsSilent hangs = Unit

  send-IsSilent :
      (id invocation_id : Text) (o : Outcome (List (Event V)))
      → Keeps [] o
      → IsSilent (send id invocation_id o)
  unfolding send
  send-IsSilent id invocation_id (ok []) k = tt
  send-IsSilent id invocation_id (ok (e ∷ es)) k = cc
  send-IsSilent id invocation_id (fail e) k = tt
  send-IsSilent id invocation_id panic k = tt

module _ {W V : Type 0} (i : Invocation V) (agent : LlmAgent W V)
    (tools : GoMap Text (Tool W V)) where
  handle_call-Keeps :
      agent.after_tool ≡ []
      → (w : W) (call : FunctionCall V) (events : List (Event V))
      → Keeps events (handle_call i agent tools w call events).1
  unfolding handle_call after_loop
  handle_call-Keeps nothing w call events = ground (arith, nothing)

  handle_calls-Keeps :
      agent.after_tool ≡ []
      → (filters : Set Text) (w : W) (calls : List (FunctionCall V)) (events : List (Event V))
      → Keeps events (handle_calls i agent tools filters w calls events).1
  unfolding handle_calls
  handle_calls-Keeps nothing filters w [] events = refl
  handle_calls-Keeps nothing filters w (call ∷ calls) events =
      let skipped = handle_calls-Keeps nothing filters w calls events in
      let next = handle_call i agent tools w call events in
      elim (Outcome-cases next.1) [
        | inl (es, e) ↦ ground (
          arith,
          e,
          skipped,
          handle_call-Keeps nothing w call events,
          handle_calls-Keeps nothing filters next.0 calls es,
        )
        | inr refused ↦ ground (arith, skipped, refused)
      ]

  -- With no callback after the tool, whatever the tools and the callbacks before them do: while its
  -- context lives, `HandleFunctionCalls` of an `LLMAgent` returns no event and no nil, only an error,
  -- or it panics, or it waits for good.
  pub handle_function_calls-IsSilent :
      agent.after_tool ≡ []
      → (id invocation_id : Text) (e : Event V) (filters : Set Text) (w : W)
      → IsSilent (handle_function_calls id invocation_id false i (some agent) e tools filters w).1
  unfolding handle_function_calls
  handle_function_calls-IsSilent nothing id invocation_id e filters w =
      elim (Outcome-cases (get_function_calls e)) [
        | inl (calls, got) ↦ ground (
          arith,
          got,
          send-IsSilent id invocation_id (handle_calls i agent tools filters w calls []).1
              (handle_calls-Keeps nothing filters w calls []),
        )
        | inr refused ↦ ground (arith, refused)
      ]

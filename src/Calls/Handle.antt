-- ===== src/Calls/Handle.antt =====
-- flow/llmflow/functions.go, `HandleFunctionCalls`: its goroutine and what the caller gets from it.
pub mod Silent
use adk_go.PySet
use adk_go.PySet.{Set}
use adk_go.GoMap.{GoMap}
use adk_go.Event.{Event, get_function_calls}
use adk_go.Calls.Tools.{
  Response, Invocation, call_tool, get_tool_and_context, AfterCallback, BeforeCallback, LlmAgent,
  Tool, Frame, is_empty, build_response_event,
}
use adk_go.Calls.{merge_parallel_function_response_events}
use adk_go.Base.{
  List, in_callback, Outcome, Text, ℕ, Bool, Option, ok, fail, some, ◌∷◌, [], cancelled, false,
  if◌then◌else◌, none, panic, text_comparable, true, ◌&&◌, suc, ◌++◌, length,
}
use adk_go.Genai.{FunctionCall}

-- What the final `select` comes to while the context lives: an answer, or, where the goroutine returns
-- without sending anything, none.
pub data Handled (V : Type 0) : Type 0 where
  answers : Outcome (Option (Event V)) → Handled V
  hangs : Handled V

module _ {V : Type 0} where
  abbrev pub some_event : Outcome (Event V) → Outcome (Option (Event V))
  some_event (ok e) = ok (some e)
  some_event (fail e) = fail e
  some_event panic = panic

  -- The end of the goroutine, with two random event IDs.
  unfoldable pub send : (id invocation_id : Text) → Outcome (List (Event V)) → Handled V
  unfolding merge_parallel_function_response_events
  send id invocation_id (ok []) = hangs
  send id invocation_id (ok (e ∷ es)) =
      answers (some_event (merge_parallel_function_response_events id invocation_id (e ∷ es)))
  send id invocation_id (fail e) = answers (fail e)
  send id invocation_id panic = answers panic

module _ {W V : Type 0} where
  -- The loop over `BeforeToolCallback`, from the callback number `k`: it ends at an empty response.
  unfoldable pub before_loop :
      ℕ
      → List (BeforeCallback W V)
      → Tool W V
      → GoMap Text V
      → Frame W V
      → Response V
      → Frame W V × Outcome (Response V)
  before_loop k [] t args f r = (f, ok r)
  before_loop k (callback ∷ rest) t args f r =
      let (f', o) = callback t args f in
      elim o [
        | ok r' ↦ elim (is_empty r') [
          | true ↦ (f', ok r')
          | false ↦ before_loop (suc k) rest t args f' r'
        ]
        | fail e ↦ (f', fail (in_callback k e))
        | panic ↦ (f', panic)
      ]

  -- The loop over `AfterToolCallbacks`, with the events that have been built.
  unfoldable pub after_loop :
      Invocation V
      → ℕ
      → List (AfterCallback W V)
      → Tool W V
      → GoMap Text V
      → Frame W V
      → Response V
      → List (Event V)
      → Frame W V × Outcome (List (Event V))
  after_loop i k [] t args f r events = (f, ok events)
  after_loop i k (callback ∷ rest) t args f r events =
      let (f', o) = callback t args f r in
      elim o [
        | ok r' ↦ elim (is_empty r') [
          | false ↦ (f', ok events)
          | true ↦ elim (t.is_long_running && is_empty r) [
            | true ↦ after_loop i (suc k) rest t args f' r events
            | false ↦
                after_loop i (suc k) rest t args f' r
                  (events ++ build_response_event i (length events) t r f'.context ∷ [])
          ]
        ]
        | fail e ↦ (f', fail (in_callback k e))
        | panic ↦ (f', panic)
      ]

  -- The tool runs where the callbacks before it have left an empty response.
  unfoldable pub respond :
      Tool W V → GoMap Text V → Frame W V × Outcome (Response V) → Frame W V × Outcome (Response V)
  unfolding call_tool
  respond t args (f, ok r) = if is_empty r then call_tool t args f else (f, ok r)
  respond t args (f, fail e) = (f, fail e)
  respond t args (f, panic) = (f, panic)

  -- One round of the goroutine's loop, for a call that passes the filter.
  unfoldable pub handle_call :
      Invocation V
      → LlmAgent W V
      → GoMap Text (Tool W V)
      → W
      → FunctionCall V
      → List (Event V)
      → W × Outcome (List (Event V))
  unfolding get_tool_and_context before_loop respond after_loop
  handle_call i agent tools w call events = elim (get_tool_and_context call tools) [
    | ok (t, context) ↦
        let start : Frame W V = record { world = w; context = context } in
        let (f, o) = respond t call.args (before_loop 0 agent.before_tool t call.args start none) in
        elim o [
          | ok r ↦
              let (f', events') = after_loop i 0 agent.after_tool t call.args f r events in
              (f'.world, events')
          | fail e ↦ (f.world, fail e)
          | panic ↦ (f.world, panic)
        ]
    | fail e ↦ (w, fail e)
    | panic ↦ (w, panic)
  ]

  unfoldable pub handle_calls :
      Invocation V
      → LlmAgent W V
      → GoMap Text (Tool W V)
      → Set Text
      → W
      → List (FunctionCall V)
      → List (Event V)
      → W × Outcome (List (Event V))
  unfolding handle_call
  handle_calls i agent tools filters w [] events = (w, ok events)
  handle_calls i agent tools filters w (call ∷ calls) events = elim (PySet.has filters call.id) [
    | false ↦ handle_calls i agent tools filters w calls events
    | true ↦
        let (w', o) = handle_call i agent tools w call events in
        elim o [
          | ok events' ↦ handle_calls i agent tools filters w' calls events'
          | fail e ↦ (w', fail e)
          | panic ↦ (w', panic)
        ]
  ]

  -- `HandleFunctionCalls`; `done` tells whether the context has ended, and an agent that is no
  -- `LLMAgent` is `none`.
  unfoldable pub handle_function_calls :
      (id invocation_id : Text)
      → (done : Bool) → Invocation V
      → Option (LlmAgent W V)
      → Event V
      → GoMap Text (Tool W V)
      → Set Text
      → W
      → W × Handled V
  unfolding handle_calls send
  handle_function_calls id invocation_id true i agent e tools filters w =
      (w, answers (fail cancelled))
  handle_function_calls id invocation_id false i none e tools filters w = (w, answers (ok none))
  handle_function_calls id invocation_id false i (some agent) e tools filters w =
      elim (get_function_calls e) [
        | ok calls ↦
            let (w', o) = handle_calls i agent tools filters w calls [] in
            (w', send id invocation_id o)
        | fail err ↦ (w, answers (fail err))
        | panic ↦ (w, answers panic)
      ]

-- ===== src/Calls/Live.antt =====
-- flow/llmflow/functions.go, `HandleFunctionCallsLive`.
pub mod Contexts
pub mod Answers
use adk_go.GoMap
use adk_go.GoMap.{GoMap}
use adk_go.Event.{Event, get_function_calls}
use adk_go.Calls.Handle.{some_event}
use adk_go.Calls.{merge_parallel_function_response_events}
use adk_go.Base.{
  List, Outcome, Text, Option, codes, if◌then◌else◌, none, ok, true, ◌++◌, [], fail, panic, some,
  text_eq, ◌∷◌, false, text_comparable, Bool, eqb, cancelled, length, ◌&&◌,
}
use adk_go.Calls.Tools.{
  AfterCallback, BeforeCallback, Frame, LlmAgent, Tool, call_tool, Response, is_empty, Invocation,
  get_tool_and_context, build_response_event,
}
use adk_go.Genai.{FunctionCall}
use adk_go.Calls.Streams.{LiveFrame, Streaming, process_function_live_helper}

-- The end of `HandleFunctionCallsLive`, with two random event IDs.
unfoldable pub merged :
    {V : Type 0} → (id invocation_id : Text) → Outcome (List (Event V)) → Outcome (Option (Event V))
unfolding merge_parallel_function_response_events
merged id invocation_id (ok []) = ok none
merged id invocation_id (ok (e ∷ es)) =
    some_event (merge_parallel_function_response_events id invocation_id (e ∷ es))
merged id invocation_id (fail e) = fail e
merged id invocation_id panic = panic

module _ {W V : Type 0} where
  -- The loops over the callbacks: each one replaces the response.
  unfoldable pub before_all :
      List (BeforeCallback W V)
      → Tool W V
      → GoMap Text V
      → Frame W V
      → Response V
      → Frame W V × Outcome (Response V)
  before_all [] t args f r = (f, ok r)
  before_all (callback ∷ rest) t args f r =
      let (f', o) = callback t args f in
      elim o [ ok r' ↦ before_all rest t args f' r' | fail e ↦ (f', fail e) | panic ↦ (f', panic) ]

  unfoldable pub after_all :
      List (AfterCallback W V)
      → Tool W V
      → GoMap Text V
      → Frame W V
      → Response V
      → Frame W V × Outcome (Response V)
  after_all [] t args f r = (f, ok r)
  after_all (callback ∷ rest) t args f r =
      let (f', o) = callback t args f r in
      elim o [ ok r' ↦ after_all rest t args f' r' | fail e ↦ (f', fail e) | panic ↦ (f', panic) ]

module _ {W V K : Type 0} where
  -- The response to one call, with the frame that it leaves: the callbacks before the tool, the tool
  -- where they leave an empty response, and the callbacks after it.
  unfoldable pub live_before :
      LlmAgent W V
      → Tool W V
      → FunctionCall V
      → LiveFrame W V K
      → LiveFrame W V K × Outcome (Response V)
  unfolding before_all
  live_before agent t call f =
      let (g, o) = before_all agent.before_tool t call.args f.frame none in
      (record f { frame = g }, o)

  unfoldable pub live_tool :
      Streaming W V K
      → Tool W V
      → FunctionCall V
      → LiveFrame W V K × Outcome (Response V)
      → LiveFrame W V K × Outcome (Response V)
  unfolding process_function_live_helper
  live_tool p t call (f, ok r) =
      if is_empty r then process_function_live_helper p t call f else (f, ok r)
  live_tool p t call (f, fail e) = (f, fail e)
  live_tool p t call (f, panic) = (f, panic)

  unfoldable pub live_after :
      LlmAgent W V
      → Tool W V
      → FunctionCall V
      → LiveFrame W V K × Outcome (Response V)
      → LiveFrame W V K × Outcome (Response V)
  unfolding after_all
  live_after agent t call (f, ok r) =
      let (g, o) = after_all agent.after_tool t call.args f.frame r in (record f { frame = g }, o)
  live_after agent t call (f, fail e) = (f, fail e)
  live_after agent t call (f, panic) = (f, panic)

  abbrev pub shared_of : LiveFrame W V K → W × GoMap Text (Option K)
  shared_of f = (f.frame.world, f.streams)

  -- One round of the loop of `HandleFunctionCallsLive`.
  unfoldable pub live_call :
      Streaming W V K
      → Invocation V
      → LlmAgent W V
      → GoMap Text (Tool W V)
      → W × GoMap Text (Option K)
      → FunctionCall V
      → List (Event V)
      → (W × GoMap Text (Option K)) × Outcome (List (Event V))
  unfolding get_tool_and_context live_before live_tool live_after
  live_call p i agent tools (w, streams) call events = elim (get_tool_and_context call tools) [
    | ok (t, context) ↦
        let start : LiveFrame W V K = record {
          frame = record { world = w; context = context };
          streams = streams;
        } in
        let (f, o) =
          live_after agent t call (live_tool p t call (live_before agent t call start)) in
        elim o [
          | ok r ↦ (
            shared_of f,
            ok (
                if t.is_long_running && is_empty r
                then events
                else events ++ build_response_event i (length events) t r f.frame.context ∷ []),
          )
          | fail e ↦ (shared_of f, fail e)
          | panic ↦ (shared_of f, panic)
        ]
    | fail e ↦ ((w, streams), fail e)
    | panic ↦ ((w, streams), panic)
  ]

  unfoldable pub live_calls :
      Streaming W V K
      → Invocation V
      → LlmAgent W V
      → GoMap Text (Tool W V)
      → W × GoMap Text (Option K)
      → List (FunctionCall V)
      → List (Event V)
      → (W × GoMap Text (Option K)) × Outcome (List (Event V))
  unfolding live_call
  live_calls p i agent tools w [] events = (w, ok events)
  live_calls p i agent tools w (call ∷ calls) events =
      let (w', o) = live_call p i agent tools w call events in
      elim o [
        | ok events' ↦ live_calls p i agent tools w' calls events'
        | fail e ↦ (w', fail e)
        | panic ↦ (w', panic)
      ]

  -- `HandleFunctionCallsLive`
  unfoldable pub handle_function_calls_live :
      (id invocation_id : Text)
      → (done : Bool) → Streaming W V K
      → Invocation V
      → Option (LlmAgent W V)
      → Event V
      → GoMap Text (Tool W V)
      → W × GoMap Text (Option K)
      → (W × GoMap Text (Option K)) × Outcome (Option (Event V))
  unfolding live_calls merged
  handle_function_calls_live id invocation_id true p i agent e tools w = (w, fail cancelled)
  handle_function_calls_live id invocation_id false p i none e tools w = (w, ok none)
  handle_function_calls_live id invocation_id false p i (some agent) e tools w =
      elim (get_function_calls e) [
        | ok calls ↦
            let (w', o) = live_calls p i agent tools w calls [] in (w', merged id invocation_id o)
        | fail err ↦ (w, fail err)
        | panic ↦ (w, panic)
      ]

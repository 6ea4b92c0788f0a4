-- ===== src/Calls/Streams.antt =====
-- flow/llmflow/functions.go, `processFunctionLiveHelper`: tools that stream. A task of pkg/py/pyasyncio
-- is a value of the parameter `K`.
use adk_go.GoMap
use adk_go.GoMap.{GoMap}
use adk_go.Base.{
  Outcome, Text, Option, codes, if◌then◌else◌, none, ok, true, ◌++◌, [], fail, panic, some, text_eq,
  false, text_comparable, eqb, length,
}
use adk_go.Calls.Tools.{Frame, Tool, call_tool, Response}
use adk_go.Genai.{FunctionCall}

-- What cancelling a task and waiting a second for it comes to: no error, or an error with the task
-- cancelled, done or still running.
pub data Stopped : Type 0 where
  no_error was_cancelled was_done still_running : Stopped

-- What the code gets from tasks and from values of type `any`: a new task that runs a tool and sends
-- what it yields to the live request queue, the end of a task, and the conversions of text.
pub record Streaming (W V K : Type 0) : Type 0 where
  pub create_task : Tool W V → GoMap Text V → Frame W V → K
  pub stop : K → Stopped
  pub of_text : Text → V
  pub as_text : V → Option Text

-- `ictx.ActiveStreamingTools` with the field `Task` of each tool, beside the frame.
pub record LiveFrame (W V K : Type 0) : Type 0 where
  pub frame : Frame W V
  pub streams : GoMap Text (Option K)

abbrev pub status : Text
status = codes "status"

abbrev pub pending_text : Text
pending_text = codes "The function is running asynchronously and the results are pending."

abbrev pub no_stream_text : Text → Text
no_stream_text name = codes "No active streaming function named " ++ name ++ codes " found"

abbrev pub stopped_text : Text → Text
stopped_text name = codes "Successfully stopped streaming function " ++ name ++ codes "."

abbrev pub not_cancelled_text : Text → Text
not_cancelled_text name = codes "The task is not cancelled yet for " ++ name ++ codes "."

-- An error of the tool becomes a nil response.
abbrev pub without_error : {V : Type 0} → Outcome (Response V) → Outcome (Response V)
without_error (ok r) = ok r
without_error (fail e) = ok none
without_error panic = panic

module _ {W V K : Type 0} where
  -- The part of `processFunctionLiveHelper` that stops the task of a streaming tool.
  unfoldable pub stop_stream :
      Streaming W V K → GoMap Text (Option K) → Text → GoMap Text (Option K) × GoMap Text V
  stop_stream p streams name = elim (GoMap.get name streams) [
    | none ↦ (streams, [])
    | some none ↦ (streams, [])
    | some (some task) ↦
        let response : GoMap Text V = elim (p.stop task) [
          | still_running ↦ GoMap.set status (p.of_text (not_cancelled_text name)) []
          | _ ↦ []
        ] in
        if eqb (length response) 0
        then (GoMap.set name none streams, GoMap.set status (p.of_text (stopped_text name)) [])
        else (streams, response)
  ]

  -- The call of `stop_streaming`, with the argument `function_name`.
  unfoldable pub stop_streaming :
      Streaming W V K → LiveFrame W V K → V → LiveFrame W V K × Outcome (Response V)
  unfolding stop_stream
  stop_streaming p f argument = elim (p.as_text argument) [
    | none ↦ (f, panic)
    | some name ↦
        let (streams, response) = stop_stream p f.streams name in
        (
          record f { streams = streams },
          ok (some (GoMap.set status (p.of_text (no_stream_text name)) response)),
        )
  ]

  -- The rest of `processFunctionLiveHelper`.
  unfoldable pub start_or_call :
      Streaming W V K
      → Tool W V
      → GoMap Text V
      → LiveFrame W V K
      → LiveFrame W V K × Outcome (Response V)
  unfolding call_tool
  start_or_call p t args f = elim t.has_func [
    | true ↦ (
      record f { streams = GoMap.set t.name (some (p.create_task t args f.frame)) f.streams },
      ok (some (GoMap.set status (p.of_text pending_text) [])),
    )
    | false ↦ let (f', o) = call_tool t args f.frame in (record f { frame = f' }, without_error o)
  ]

  -- `processFunctionLiveHelper`
  unfoldable pub process_function_live_helper :
      Streaming W V K
      → Tool W V
      → FunctionCall V
      → LiveFrame W V K
      → LiveFrame W V K × Outcome (Response V)
  unfolding stop_streaming start_or_call
  process_function_live_helper p t call f =
      elim (if text_eq call.name (codes "stop_streaming")
        then GoMap.get (codes "function_name") call.args
        else none) [
          | some argument ↦ stop_streaming p f argument
          | none ↦ start_or_call p t call.args f
        ]

-- ===== src/Calls/Tools.antt =====
-- flow/llmflow/functions.go: running one tool. Tools and callbacks are parameters: functions that may
-- change the tool's context and a world `W` that they share, and that read the maps they are given.
-- A nil map of type `map[string]any` is `none`.
use adk_go.GoMap
use adk_go.GoMap.{GoMap}
use adk_go.Genai.{FunctionCall, response_part}
use adk_go.Event.{Event, EventActions, new_event, with_content}
use adk_go.Base.{
  List, [], Bool, Option, Outcome, Text, ℕ, eqb, if◌then◌else◌, none, ok, some, ◌>>=◌, codes, fail,
  length, result_is_no_map, tool_not_found, ◌∷◌, text_comparable,
}

abbrev pub Response : Type 0 → Type 0
Response V = Option (GoMap Text V)

-- `len(funcResponse)`
abbrev pub size : {V : Type 0} → Response V → ℕ
size none = 0
size (some m) = length m

abbrev pub is_empty : {V : Type 0} → Response V → Bool
is_empty r = eqb (size r) 0

abbrev pub entries : {V : Type 0} → Response V → GoMap Text V
entries none = []
entries (some m) = m

-- The fields of `types.ToolContext` that the code reads; `NewToolContext` sets no actions.
pub record ToolContext (V : Type 0) : Type 0 where
  pub function_call_id : Text
  pub actions : Option (EventActions V)

-- The world and the context of the call that is being handled.
pub record Frame (W V : Type 0) : Type 0 where
  pub world : W
  pub context : ToolContext V

-- What `t.Run` returns, without its error: a `map[string]any` or something else.
pub data Produced (V : Type 0) : Type 0 where
  a_map : Response V → Produced V
  something_else : Produced V

-- `types.Tool`
pub record Tool (W V : Type 0) : Type 0 where
  pub name : Text
  pub is_long_running : Bool
  -- The type assertion to `interface{ Func() }`.
  pub has_func : Bool
  pub run : GoMap Text V → Frame W V → Frame W V × Outcome (Produced V)

abbrev pub BeforeCallback : Type 0 → Type 0 → Type 0
BeforeCallback W V = Tool W V → GoMap Text V → Frame W V → Frame W V × Outcome (Response V)

abbrev pub AfterCallback : Type 0 → Type 0 → Type 0
AfterCallback W V =
    Tool W V → GoMap Text V → Frame W V → Response V → Frame W V × Outcome (Response V)

-- The callbacks of a `types.LLMAgent`.
pub record LlmAgent (W V : Type 0) : Type 0 where
  pub before_tool : List (BeforeCallback W V)
  pub after_tool : List (AfterCallback W V)

-- The fields of the invocation context that go into an event, with the agent's name, and what is not
-- determined by the code: the ID and the time of the n-th event that is made, and the conversion of a
-- response to `any`.
pub record Invocation (V : Type 0) : Type 0 where
  pub invocation_id : Text
  pub agent_name : Text
  pub branch : Text
  pub event_id : ℕ → Text
  pub now : ℕ → ℕ
  pub as_any : Response V → V

-- `res.(map[string]any)`
abbrev pub as_map : {V : Type 0} → Produced V → Outcome (Response V)
as_map (a_map r) = ok r
as_map something_else = fail result_is_no_map

module _ {W V : Type 0} where
  -- `getToolAndContext`
  unfoldable pub get_tool_and_context :
      FunctionCall V → GoMap Text (Tool W V) → Outcome (Tool W V × ToolContext V)
  get_tool_and_context call tools = elim (GoMap.get call.name tools) [
    | none ↦ fail (tool_not_found call.name)
    | some t ↦ ok (t, record { function_call_id = call.id; actions = none })
  ]

  -- `callTool`
  unfoldable pub call_tool : Tool W V → GoMap Text V → Frame W V → Frame W V × Outcome (Response V)
  call_tool t args f = let (f', o) = t.run args f in (f', o >>= as_map)

  -- `buildResponseEvent`, for the event number `n`.
  unfoldable pub build_response_event :
      Invocation V → ℕ → Tool W V → Response V → ToolContext V → Event V
  unfolding with_content
  build_response_event i n t r c =
      let result = if is_empty r then (codes "result", i.as_any r) ∷ [] else entries r in
      record (with_content (new_event (i.event_id n) (i.now n)) (
        some (record {
          role = codes "user";
          parts =
              response_part (record { id = c.function_call_id; name = t.name; response = result })
              ∷ [];
        }))) {
          invocation_id = i.invocation_id;
          author = i.agent_name;
          actions = c.actions;
          branch = i.branch;
        }

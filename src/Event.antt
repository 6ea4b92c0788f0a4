-- ===== src/Event.antt =====
-- types/event.go and types/event_actions.go. The embedded `*LLMResponse` may be nil, and reading
-- `event.Content` through a nil one panics.
pub mod Final
use adk_go.Base.{
  ℕ, Bool, true, false, not, ◌&&◌, ◌||◌, Option, none, some, List, [], ◌∷◌, Text, text_comparable,
  length, last?, ltb, eqb, if◌then◌else◌, is_some, Outcome, ok, fail, panic, ◌>>=◌,
}
use adk_go.GoMap.{GoMap}
use adk_go.PySet
use adk_go.PySet.{Set}
use adk_go.Genai.{FunctionCall, FunctionResponse, Part, Content}

-- `EventActions`
pub record EventActions (V : Type 0) : Type 0 where
  pub skip_summarization : Bool
  pub state_delta : GoMap Text V
  pub artifact_delta : GoMap Text ℕ
  pub transfer_to_agent : Text
  pub escalate : Bool
  pub requested_auth_configs : GoMap Text V

-- `NewEventActions()`
abbrev pub new_event_actions : {V : Type 0} → EventActions V
new_event_actions = record {
  skip_summarization = false;
  state_delta = [];
  artifact_delta = [];
  transfer_to_agent = [];
  escalate = false;
  requested_auth_configs = [];
}

-- The fields of `LLMResponse` that an event is asked for.
pub record LlmResponse (V : Type 0) : Type 0 where
  pub content : Option (Content V)
  pub partial : Bool

pub record Event (V : Type 0) : Type 0 where
  pub llm_response : Option (LlmResponse V)
  pub invocation_id : Text
  pub author : Text
  pub actions : Option (EventActions V)
  -- `none` is the nil map.
  pub long_running_tool_ids : Option (Set Text)
  pub branch : Text
  pub id : Text
  pub timestamp : ℕ

abbrev pub set_size : Option (Set Text) → ℕ
set_size none = 0
set_size (some s) = PySet.len s

-- `a && b`, where the evaluation of `b` may panic and is skipped when `a` is false.
abbrev and_then : Bool → Outcome Bool → Outcome Bool
and_then false m = ok false
and_then true m = m

module _ {V : Type 0} where
  -- `NewEvent()`, with the random ID and the time as arguments.
  abbrev pub new_event : Text → ℕ → Event V
  new_event id now = record {
    llm_response = none;
    invocation_id = [];
    author = [];
    actions = none;
    long_running_tool_ids = none;
    branch = [];
    id = id;
    timestamp = now;
  }

  -- `e.WithContent(content)`
  unfoldable pub with_content : Event V → Option (Content V) → Event V
  with_content e content = elim e.llm_response [
    | none ↦ record e { llm_response = some (record { content = content; partial = false }) }
    | some r ↦ record e { llm_response = some (record r { content = content }) }
  ]

  -- `e.WithLongRunningToolIDs(ids...)`: an insertion into a nil map panics.
  unfoldable pub with_long_running_tool_ids : Event V → List Text → Outcome (Event V)
  with_long_running_tool_ids e [] = ok e
  with_long_running_tool_ids e (i ∷ ids) = elim e.long_running_tool_ids [
    | none ↦ panic
    | some s ↦ ok (record e { long_running_tool_ids = some (PySet.insert s (i ∷ ids)) })
  ]

  -- `e.Content`
  unfoldable pub content_of : Event V → Outcome (Option (Content V))
  content_of e = elim e.llm_response [ none ↦ panic | some r ↦ ok r.content ]

  -- `e.Partial`
  unfoldable partial_of : Event V → Outcome Bool
  partial_of e = elim e.llm_response [ none ↦ panic | some r ↦ ok r.partial ]

  -- The loops of `GetFunctionCalls` and `GetFunctionResponses` over the parts.
  unfoldable pub calls_of : List (Part V) → List (FunctionCall V)
  calls_of [] = []
  calls_of (p ∷ ps) =
      let rest = calls_of ps in elim p.function_call [ some c ↦ c ∷ rest | none ↦ rest ]

  unfoldable pub responses_of : List (Part V) → List (FunctionResponse V)
  responses_of [] = []
  responses_of (p ∷ ps) =
      let rest = responses_of ps in elim p.function_response [ some r ↦ r ∷ rest | none ↦ rest ]

  -- A nil content has no parts, and then each of these loops is skipped.
  abbrev pub parts_of : Option (Content V) → List (Part V)
  parts_of none = []
  parts_of (some c) = c.parts

  -- `e.GetFunctionCalls()`
  unfoldable pub get_function_calls : Event V → Outcome (List (FunctionCall V))
  unfolding content_of calls_of
  get_function_calls e = do c ← content_of e; ok (calls_of (parts_of c))

  -- `e.GetFunctionResponses()`
  unfoldable pub get_function_responses : Event V → Outcome (List (FunctionResponse V))
  unfolding content_of responses_of
  get_function_responses e = do c ← content_of e; ok (responses_of (parts_of c))

  abbrev pub is_code_result : Option (Part V) → Bool
  is_code_result none = false
  is_code_result (some p) = is_some p.code_execution_result

  -- `e.HasTrailingCodeExecutionResult()`
  unfoldable has_trailing_code_execution_result : Event V → Outcome Bool
  unfolding content_of
  has_trailing_code_execution_result e = do
    c ← content_of e
    ok (is_code_result (last? (parts_of c)))

  -- The last line of `IsFinalResponse`.
  unfoldable is_final_content : Event V → Outcome Bool
  unfolding get_function_calls get_function_responses partial_of has_trailing_code_execution_result
  is_final_content e = do
    calls ← get_function_calls e
    and_then (eqb (length calls) 0) (do
      responses ← get_function_responses e
      and_then (eqb (length responses) 0) (do
        partial ← partial_of e
        and_then (not partial)
            (do trailing ← has_trailing_code_execution_result e; ok (not trailing))))

  -- `e.IsFinalResponse()`: nil actions panic.
  unfoldable pub is_final_response : Event V → Outcome Bool
  unfolding is_final_content
  is_final_response e = elim e.actions [
    | none ↦ panic
    | some a ↦
        if a.skip_summarization || ltb 0 (set_size e.long_running_tool_ids)
        then ok true
        else is_final_content e
  ]

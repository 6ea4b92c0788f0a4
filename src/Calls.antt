-- ===== src/Calls.antt =====
-- flow/llmflow/functions.go: the functions on function calls and responses that make no tool run. The
-- UUIDs are a supply `uuid`, of which the next one is numbered; a tool is told by whether it is long
-- running.
pub mod Ids
pub mod Merge
pub mod Tools
pub mod Handle
pub mod Streams
pub mod Live
pub mod Auth
use adk_go.GoMap
use adk_go.GoMap.{GoMap}
use adk_go.PySet
use adk_go.PySet.{Set, new_set}
use adk_go.Genai.{FunctionCall, FunctionResponse, Part, Content}
use adk_go.Event.{
  Event, EventActions, LlmResponse, new_event, new_event_actions, with_content, content_of,
  get_function_calls, parts_of,
}
use adk_go.Base.{
  List, Option, Text, map, ℕ, Bool, Outcome, codes, some, ◌∷◌, [], fail, if◌then◌else◌, none, not,
  ok, no_response_event, panic, text_comparable, text_eq, ◌>>=◌, false, ◌&&◌, ◌++◌, has_prefix, suc,
}

abbrev pub function_call_id_prefix : Text
function_call_id_prefix = codes "adk-"

abbrev pub request_euc_function_call_name : Text
request_euc_function_call_name = codes "adk_request_credential"

-- `a.ID != "" && strings.HasPrefix(a.ID, FunctionCallIDPrefix)`
abbrev pub is_client_id : Text → Bool
is_client_id id = not (text_eq id []) && has_prefix id function_call_id_prefix

module _ {V : Type 0} where
  -- One part of `RemoveClientFunctionCallID`.
  abbrev clear_call_id : Option (FunctionCall V) → Option (FunctionCall V)
  clear_call_id none = none
  clear_call_id (some c) = if is_client_id c.id then some (record c { id = [] }) else some c

  abbrev clear_response_id : Option (FunctionResponse V) → Option (FunctionResponse V)
  clear_response_id none = none
  clear_response_id (some r) = if is_client_id r.id then some (record r { id = [] }) else some r

  unfoldable pub remove_from_part : Part V → Part V
  remove_from_part p = record p {
    function_call = clear_call_id p.function_call;
    function_response = clear_response_id p.function_response;
  }

  -- `RemoveClientFunctionCallID`, on a content that is not nil.
  unfoldable pub remove_client_function_call_id : Content V → Content V
  unfolding remove_from_part
  remove_client_function_call_id c = record c { parts = map remove_from_part c.parts }

  -- `PopulateClientFunctionCallID` on the parts, with the number of the next UUID.
  unfoldable pub populate_parts : (uuid : ℕ → Text) → ℕ → List (Part V) → List (Part V)
  populate_parts uuid n [] = []
  populate_parts uuid n (p ∷ ps) = elim p.function_call [
    | none ↦ p ∷ populate_parts uuid n ps
    | some c ↦
        let stamped =
          record p { function_call = some (record c { id = function_call_id_prefix ++ uuid n }) }
          ∷ populate_parts uuid (suc n) ps in
        let kept = p ∷ populate_parts uuid n ps in if text_eq c.id [] then stamped else kept
  ]

  -- `GetLongRunningFunctionCalls`; a nil tool is `none`.
  unfoldable pub long_running_from :
      GoMap Text (Option Bool) → Set Text → List (FunctionCall V) → Set Text
  long_running_from tools ids [] = ids
  long_running_from tools ids (c ∷ cs) =
      let next : Set Text = elim (GoMap.get c.name tools) [
        | none ↦ ids
        | some none ↦ ids
        | some (some long) ↦ if long then PySet.insert ids (c.id ∷ []) else ids
      ] in
      long_running_from tools next cs

  unfoldable pub get_long_running_function_calls :
      List (FunctionCall V) → GoMap Text (Option Bool) → Set Text
  unfolding long_running_from new_set
  get_long_running_function_calls calls tools = long_running_from tools (new_set []) calls

  -- The two loops of `mergeParallelFunctionResponseEvents`.
  unfoldable pub merge_parts : List (Event V) → Outcome (List (Part V))
  unfolding content_of
  merge_parts [] = ok []
  merge_parts (e ∷ es) = do c ← content_of e; rest ← merge_parts es; ok (parts_of c ++ rest)

  unfoldable pub merge_auth_configs : GoMap Text V → List (Event V) → Outcome (GoMap Text V)
  merge_auth_configs configs [] = ok configs
  merge_auth_configs configs (e ∷ es) = elim e.actions [
    | none ↦ panic
    | some a ↦ merge_auth_configs (GoMap.copy configs a.requested_auth_configs) es
  ]

  -- `mergeParallelFunctionResponseEvents`, with two random event IDs.
  unfoldable pub merge_parallel_function_response_events :
      (id invocation_id : Text) → List (Event V) → Outcome (Event V)
  merge_parallel_function_response_events id invocation_id [] = fail no_response_event
  merge_parallel_function_response_events id invocation_id (e ∷ []) = ok e
  merge_parallel_function_response_events id invocation_id (e ∷ e' ∷ es) = do
    parts ← merge_parts (e ∷ e' ∷ es)
    configs ← merge_auth_configs [] (e ∷ e' ∷ es)
    ok (record {
      llm_response = some (record {
        content = some (record { role = codes "user"; parts = parts });
        partial = false;
      });
      invocation_id = invocation_id;
      author = e.author;
      actions = some (record new_event_actions { requested_auth_configs = configs });
      long_running_tool_ids = none;
      branch = e.branch;
      id = id;
      timestamp = e.timestamp;
    })

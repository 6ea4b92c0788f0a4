-- ===== src/Calls/Auth.antt =====
-- flow/llmflow/functions.go, `GenerateAuthEvent` and `FindMatchingFunctionCall`.
pub mod Unasked
use mathlib.Core.List.{reverse}
use adk_go.PySet
use adk_go.PySet.{Set, new_set}
use adk_go.GoMap.{GoMap}
use adk_go.Event.{Event, content_of, get_function_calls, parts_of}
use adk_go.Genai.{call_part, Part}
use adk_go.Calls.{request_euc_function_call_name, function_call_id_prefix}
use adk_go.Base.{
  List, Outcome, Text, ℕ, Option, ok, none, panic, ◌∷◌, if◌then◌else◌, ◌++◌, ◌>>=◌, any, is_some,
  suc, [], some, ◌==◌, false, text_comparable,
}

module _ {V : Type 0} where
  -- The loop of `GenerateAuthEvent`. The JSON round trip of the arguments is the parameter `to_args`,
  -- and `n` numbers the next UUID.
  unfoldable pub auth_parts :
      (uuid : ℕ → Text)
      → (to_args : Text → V → Outcome (GoMap Text V)) → ℕ
      → GoMap Text V
      → List (Part V)
      → Set Text
      → Outcome (List (Part V) × Set Text)
  auth_parts uuid to_args n [] parts ids = ok (parts, ids)
  auth_parts uuid to_args n ((call_id, config) ∷ configs) parts ids =
      let id = function_call_id_prefix ++ uuid n in
      do
        args ← to_args call_id config
        auth_parts uuid to_args (suc n) configs
            (parts
              ++ call_part (record { id = id; name = request_euc_function_call_name; args = args })
                ∷ [])
            (PySet.insert ids (id ∷ []))

  -- `GenerateAuthEvent`, with the map `RequestedAuthConfigs` of the event's actions, which is `none`
  -- where it is nil. Nil actions and a nil content panic.
  unfoldable pub generate_auth_event :
      (uuid : ℕ → Text)
      → (to_args : Text → V → Outcome (GoMap Text V)) → (invocation_id agent_name branch : Text)
      → Event V
      → Option (Option (GoMap Text V))
      → Outcome (Option (Event V))
  unfolding auth_parts content_of new_set
  generate_auth_event uuid to_args invocation_id agent_name branch e none = panic
  generate_auth_event uuid to_args invocation_id agent_name branch e (some (some configs)) = ok none
  generate_auth_event uuid to_args invocation_id agent_name branch e (some none) = do
    (parts, ids) ← auth_parts uuid to_args 0 [] [] (new_set [])
    content ← content_of e
    elim content [
      | none ↦ panic
      | some c ↦ ok (
          some (record {
            llm_response = some (record {
              content = some (record { role = c.role; parts = parts });
              partial = false;
            });
            invocation_id = invocation_id;
            author = agent_name;
            actions = none;
            long_running_tool_ids = some ids;
            branch = branch;
            id = [];
            timestamp = 0;
          }))
    ]

  -- The loop of `FindMatchingFunctionCall` from the last event back.
  unfoldable pub find_call : Text → List (Event V) → Outcome (Option (Event V))
  unfolding get_function_calls
  find_call id [] = ok none
  find_call id (e ∷ es) =
      let rest = find_call id es in
      do calls ← get_function_calls e; if any (λ c. c.id == id) calls then ok (some e) else rest

  -- `slices.IndexFunc(parts, …)`
  abbrev pub first_response : List (Part V) → Option (Part V)
  first_response [] = none
  first_response (p ∷ ps) = if is_some p.function_response then some p else first_response ps

  abbrev pub last_of : Event V → List (Event V) → Event V
  last_of e [] = e
  last_of e (e' ∷ es) = last_of e' es

  -- `FindMatchingFunctionCall`
  unfoldable pub find_matching_function_call : List (Event V) → Outcome (Option (Event V))
  unfolding find_call content_of
  find_matching_function_call [] = ok none
  find_matching_function_call (e ∷ es) = do
    content ← content_of (last_of e es)
    elim (first_response (parts_of content)) [
      | none ↦ ok none
      | some p ↦ elim p.function_call [ none ↦ panic | some c ↦ find_call c.id (reverse es) ]
    ]

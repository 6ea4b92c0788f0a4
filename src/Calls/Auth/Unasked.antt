-- ===== src/Calls/Auth/Unasked.antt =====
-- What `GenerateAuthEvent` and `FindMatchingFunctionCall` (flow/llmflow/functions.go) return.
use adk_go.Calls.Auth.{
  generate_auth_event, auth_parts, find_matching_function_call, first_response, last_of,
}
use adk_go.Base.{
  refl, Outcome, List, Option, ok, ◌++◌, some, ℕ, ◌∷◌, Text, [], ◌≡◌, fail, none, arith, panic,
}
use adk_go.Event.{Event, get_function_calls, content_of, calls_of}
use adk_go.Genai.{Content, Part}
use adk_go.GoMap.{GoMap}

module _ {V : Type 0} where
  -- An event without a part and without a long-running tool, or no event.
  abbrev pub AsksNothing : Outcome (Option (Event V)) → Type 0
  AsksNothing (ok none) = Unit
  AsksNothing (ok (some e)) = (get_function_calls e ≡ ok []) × (e.long_running_tool_ids ≡ some [])
  AsksNothing (fail e) = Unit
  AsksNothing panic = Unit

  -- Whatever auth configs the tools have requested, `GenerateAuthEvent` makes no event that asks for a
  -- credential: its event, if there is one, has no function call and no long-running tool.
  pub generate_auth_event-AsksNothing :
      (uuid : ℕ → Text) (to_args : Text → V → Outcome (GoMap Text V))
      (invocation_id agent_name branch : Text) (e : Event V)
      (configs : Option (Option (GoMap Text V)))
      → AsksNothing (generate_auth_event uuid to_args invocation_id agent_name branch e configs)
  unfolding generate_auth_event auth_parts get_function_calls content_of calls_of
  generate_auth_event-AsksNothing uuid to_args invocation_id agent_name branch e none = tt
  generate_auth_event-AsksNothing uuid to_args invocation_id agent_name branch e (some (some m)) =
      tt
  generate_auth_event-AsksNothing uuid to_args invocation_id agent_name branch e (some none) =
      ground arith

  last_of-append : (e e' : Event V) (es : List (Event V)) → last_of e (es ++ e' ∷ []) ≡ e'
  last_of-append e e' [] = refl
  last_of-append e e' (x ∷ es) = last_of-append x e' es

  -- Where the last event's first part with a function response has no function call,
  -- `FindMatchingFunctionCall` panics.
  pub find_matching_function_call-panics :
      (e last : Event V) (es : List (Event V)) (c : Content V) (p : Part V)
      → content_of last ≡ ok (some c)
      → first_response c.parts ≡ some p
      → p.function_call ≡ none
      → find_matching_function_call (e ∷ es ++ last ∷ []) ≡ panic
  unfolding find_matching_function_call
  find_matching_function_call-panics e last es c p there found no_call =
      ground (arith, last_of-append e last es, there, found, no_call)

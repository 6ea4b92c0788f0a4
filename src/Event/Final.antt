-- ===== src/Event/Final.antt =====
-- When an event is the final response of an agent.
use adk_go.Event.{
  Event, EventActions, LlmResponse, is_final_response, calls_of, responses_of, parts_of, set_size,
  is_code_result, List, Part, Bool, eqb, length,
}
use adk_go.Base.{all, ◌≡◌, not, some, ◌∷◌, arith, is_some, ok, ◌||◌, ltb, ◌&&◌, last?, [], refl}

module _ {V : Type 0} where
  abbrev no_calls : List (Part V) → Bool
  no_calls = all (λ p. not (is_some p.function_call))

  abbrev no_responses : List (Part V) → Bool
  no_responses = all (λ p. not (is_some p.function_response))

  no_calls-calls_of : (ps : List (Part V)) → eqb (length (calls_of ps)) 0 ≡ no_calls ps
  unfolding calls_of
  no_calls-calls_of [] = refl
  no_calls-calls_of (p ∷ ps) = ground (arith, no_calls-calls_of ps)

  no_responses-responses_of :
      (ps : List (Part V)) → eqb (length (responses_of ps)) 0 ≡ no_responses ps
  unfolding responses_of
  no_responses-responses_of [] = refl
  no_responses-responses_of (p ∷ ps) = ground (arith, no_responses-responses_of ps)

  -- An event with actions and a response is final exactly when summarization is skipped, or a long
  -- running tool is named, or no part is a function call or a function response, the response is not
  -- partial and the last part is no code execution result. It never panics.
  pub is_final_response_lem :
      (e : Event V) (a : EventActions V) (r : LlmResponse V)
      → e.actions ≡ some a
      → e.llm_response ≡ some r
      → is_final_response e
        ≡ ok (
            a.skip_summarization
            || ltb 0 (set_size e.long_running_tool_ids)
            || (no_calls (parts_of r.content)
                && no_responses (parts_of r.content)
                && not r.partial
                && not (is_code_result (last? (parts_of r.content)))))
  unfolding is_final_response
  is_final_response_lem e a r ha hr = ground (
    arith,
    no_calls-calls_of (parts_of r.content),
    no_responses-responses_of (parts_of r.content),
  )

-- ===== src/Flow/Call.antt =====
-- flow/llmflow/llm_flow.go, `callLLM` with its callbacks, and the limit on the number of calls
-- (types/agent_invocation_context.go). What the code yields to a consumer that never stops is a list of
-- pairs; the model, the callbacks and the live run are parameters.
pub mod Unlimited
use adk_go.Flow.{ModelResponse}
use adk_go.Base.{
  ℕ, zero, suc, ℤ, pos, negsuc, is_positive, at_most, Bool, true, false, not, ◌&&◌, ◌||◌, Option,
  none, some, List, [], ◌∷◌, ◌++◌, length, eqb, ltb, if◌then◌else◌, Outcome, ok, fail, panic, Error,
  llm_calls_limit_exceeded, is_some, or_else,
}

-- `StreamingMode`
pub data StreamingMode : Type 0 where
  streaming_none streaming_sse streaming_bidi : StreamingMode

abbrev pub is_sse : StreamingMode → Bool
is_sse streaming_sse = true
is_sse _ = false

-- The fields of `RunConfig` that are read here.
pub record RunConfig : Type 0 where
  pub support_cfc : Bool
  pub streaming_mode : StreamingMode
  pub max_llm_calls : ℤ

-- `llmCalls > MaxLLMCalls`
abbrev pub exceeds : ℕ → ℤ → Bool
exceeds n (pos m) = ltb m n
exceeds n (negsuc m) = true

-- `IncrementAndEnforceLLMCallsLimit`: the counter, and the error.
unfoldable pub increment_and_enforce_llm_calls_limit : Option RunConfig → ℕ → ℕ × Option Error
increment_and_enforce_llm_calls_limit none llm_calls = (suc llm_calls, none)
increment_and_enforce_llm_calls_limit (some c) llm_calls = (
  suc llm_calls,
  if is_positive c.max_llm_calls && exceeds (suc llm_calls) c.max_llm_calls
      then some llm_calls_limit_exceeded
      else none,
)

-- A pair that is yielded to the caller of `callLLM`.
abbrev pub Answer : Type 0 → Type 0
Answer V = Option (ModelResponse V) × Option Error

-- What `callLLM` gets from outside: the callbacks of the agent, none for an agent that is no `LLMAgent`;
-- the responses of the model; and the events of `RunLive`, each told by its `LLMResponse`, if it has one.
pub record LlmCall (S V : Type 0) : Type 0 where
  pub before_model : List (S → S × Outcome (Option (ModelResponse V)))
  pub after_model : List (Option (ModelResponse V) → S → S × Outcome (Option (ModelResponse V)))
  pub stream_generate_content : S → List (Answer V)
  pub run_live : S → List (Option (Option (ModelResponse V)) × Option Error)
  pub new_queue : S → S
  pub close_queue : S → S

-- The state, the number of calls that are counted, what has been yielded, and whether the code has
-- panicked.
pub record Called (S V : Type 0) : Type 0 where
  pub state : S
  pub llm_calls : ℕ
  pub answers : List (Answer V)
  pub panicked : Bool

module _ {V : Type 0} where
  abbrev pub error_pair : Option Error → List (Answer V)
  error_pair none = []
  error_pair (some e) = (none, some e) ∷ []

  -- Whether the response of an event goes out: the test reads `Partial` only outside of SSE.
  abbrev pub goes_out : StreamingMode → Option (ModelResponse V) → Outcome Bool
  goes_out streaming_sse r = ok true
  goes_out streaming_none none = panic
  goes_out streaming_none (some r) = ok (not r.partial)
  goes_out streaming_bidi none = panic
  goes_out streaming_bidi (some r) = ok (not r.partial)

module _ {S V : Type 0} where
  -- `handleBeforeModelCallback`
  unfoldable pub handle_before_model_callback :
      List (S → S × Outcome (Option (ModelResponse V))) → S → S × Outcome (Option (ModelResponse V))
  handle_before_model_callback [] s = (s, ok none)
  handle_before_model_callback (callback ∷ rest) s =
      let (s', o) = callback s in
      elim o [
        | ok none ↦ handle_before_model_callback rest s'
        | ok (some r) ↦ (s', ok (some r))
        | fail e ↦ (s', fail e)
        | panic ↦ (s', panic)
      ]

  -- `handleAfterModelCallback`
  unfoldable pub handle_after_model_callback :
      List (Option (ModelResponse V) → S → S × Outcome (Option (ModelResponse V)))
      → Option (ModelResponse V)
      → S
      → S × Outcome (Option (ModelResponse V))
  handle_after_model_callback [] response s = (s, ok none)
  handle_after_model_callback (callback ∷ rest) response s =
      let (s', o) = callback response s in
      elim o [
        | ok none ↦ handle_after_model_callback rest response s'
        | ok (some r) ↦ (s', ok (some r))
        | fail e ↦ (s', fail e)
        | panic ↦ (s', panic)
      ]

  abbrev pub emit : List (Answer V) → Called S V → Called S V
  emit more c = record c { answers = c.answers ++ more }

  -- The response after `handleAfterModelCallback`, whose error is dropped.
  unfoldable pub altered :
      LlmCall S V → Option (ModelResponse V) → S → S × Outcome (Option (ModelResponse V))
  unfolding handle_after_model_callback
  altered m response s =
      let (s', o) = handle_after_model_callback m.after_model response s in
      elim o [
        | ok none ↦ (s', ok response)
        | ok (some r) ↦ (s', ok (some r))
        | fail e ↦ (s', ok response)
        | panic ↦ (s', panic)
      ]

  -- The loop over the responses of the model.
  unfoldable pub model_responses : LlmCall S V → List (Answer V) → Called S V → Called S V
  unfolding altered
  model_responses m [] c = c
  model_responses m ((response, err) ∷ rest) c =
      let (s, o) = altered m response c.state in
      let reported = emit (error_pair err) (record c { state = s }) in
      elim o [
        | ok r ↦ model_responses m rest (emit ((r, none) ∷ []) reported)
        | fail e ↦ reported
        | panic ↦ record reported { panicked = true }
      ]

  -- The end of a round of the loop over the live run, which reads the `LLMResponse` of the event.
  unfoldable pub live_answer :
      LlmCall S V → StreamingMode → Option (ModelResponse V) → Called S V → Called S V
  live_answer m mode r c = elim (goes_out mode r) [
    | fail e ↦ c
    | panic ↦ record c { panicked = true }
    | ok out ↦
        let passed = if out then emit ((r, none) ∷ []) c else c in
        elim r [
          | none ↦ record passed { panicked = true }
          | some resp ↦
              if resp.turn_complete
              then record passed { state = m.close_queue passed.state }
              else passed
        ]
  ]

  -- The loop over the live run, with the response so far.
  unfoldable pub live_events :
      LlmCall S V
      → StreamingMode
      → Option (ModelResponse V)
      → List (Option (Option (ModelResponse V)) × Option Error)
      → Called S V
      → Called S V
  unfolding altered live_answer
  live_events m mode response [] c = c
  live_events m mode response ((event, err) ∷ rest) c =
      let (s, o) = altered m response c.state in
      let reported = emit (error_pair err) (record c { state = s }) in
      elim o [
        | fail e ↦ reported
        | panic ↦ record reported { panicked = true }
        | ok response' ↦ elim event [
          | none ↦ record reported { panicked = true }
          | some r ↦
              let after = live_answer m mode r reported in
              elim after.panicked [ true ↦ after | false ↦ live_events m mode response' rest after ]
        ]
      ]

  -- `callLLM` behind the callbacks before the model; the error of the count is dropped.
  unfoldable pub call_model :
      LlmCall S V → RunConfig → Option (ModelResponse V) → Called S V → Called S V
  unfolding increment_and_enforce_llm_calls_limit model_responses live_events
  call_model m config response c =
      let s = m.new_queue c.state in
      let counted = record c {
        llm_calls = (increment_and_enforce_llm_calls_limit (some config) c.llm_calls).0;
      } in
      if config.support_cfc
      then live_events m config.streaming_mode response (m.run_live s) (record c { state = s })
      else if is_sse config.streaming_mode
      then model_responses m (m.stream_generate_content counted.state) counted
      else counted

  -- `callLLM` behind its callbacks: neither an error nor a response of theirs ends it.
  unfoldable pub call_behind :
      LlmCall S V → RunConfig → Outcome (Option (ModelResponse V)) → Called S V → Called S V
  unfolding call_model
  call_behind m config panic c = record c { panicked = true }
  call_behind m config (fail e) c = call_model m config none (emit ((none, some e) ∷ []) c)
  call_behind m config (ok none) c = call_model m config none c
  call_behind m config (ok (some r)) c = call_model m config (some r) (emit ((some r, none) ∷ []) c)

  -- `callLLM`
  unfoldable pub call_llm : LlmCall S V → RunConfig → S → (llm_calls : ℕ) → Called S V
  unfolding handle_before_model_callback call_behind
  call_llm m config s llm_calls =
      let (s', o) = handle_before_model_callback m.before_model s in
      call_behind m config o
        (record { state = s'; llm_calls = llm_calls; answers = []; panicked = false })

-- ===== src/Flow/Call/Unlimited.antt =====
-- The limit on the number of calls of the model and `callLLM` (flow/llmflow/llm_flow.go).
use adk_go.Flow.{ModelResponse}
use adk_go.Flow.Call.{
  call_behind, RunConfig, StreamingMode, Answer, LlmCall, Called, altered, emit, error_pair,
  model_responses, live_answer, live_events, call_model, call_llm, handle_before_model_callback,
  is_sse, streaming_none, streaming_sse, streaming_bidi,
}
use adk_go.Base.{
  sym, ℕ, ℤ, Option, none, some, List, [], ◌∷◌, ◌≡◌, Error, Outcome, ok, fail, panic, arith, refl,
  Outcome-cases, inl, inr, Bool-cases, false, ap, ◌∙◌,
}

module _ {S V : Type 0} (m : LlmCall S V) where
  abbrev with_calls : ℕ → Called S V → Called S V
  with_calls n c = record c { llm_calls = n }

  model_responses-with_calls :
      (n : ℕ) (rs : List (Answer V)) (c : Called S V)
      → model_responses m rs (with_calls n c) ≡ with_calls n (model_responses m rs c)
  unfolding model_responses
  model_responses-with_calls n [] c = refl
  model_responses-with_calls n ((r, err) ∷ rs) c = elim (Outcome-cases (altered m r c.state).1) [
    | inl (r', got) ↦
        let reported = emit (error_pair err) (record c { state = (altered m r c.state).0 }) in
        let rest = model_responses-with_calls n rs (emit ((r', none) ∷ []) reported) in
        ground (arith, got, rest)
    | inr (inl (e, got)) ↦ ground (arith, got)
    | inr (inr got) ↦ ground (arith, got)
  ]

  live_answer-with_calls :
      (n : ℕ) (mode : StreamingMode) (r : Option (ModelResponse V)) (c : Called S V)
      → live_answer m mode r (with_calls n c) ≡ with_calls n (live_answer m mode r c)
  unfolding live_answer
  live_answer-with_calls n streaming_none none c = refl
  live_answer-with_calls n streaming_none (some r) c = ground arith
  live_answer-with_calls n streaming_sse none c = refl
  live_answer-with_calls n streaming_sse (some r) c = ground arith
  live_answer-with_calls n streaming_bidi none c = refl
  live_answer-with_calls n streaming_bidi (some r) c = ground arith

  live_events-with_calls :
      (n : ℕ) (mode : StreamingMode) (r : Option (ModelResponse V))
      (es : List (Option (Option (ModelResponse V)) × Option Error)) (c : Called S V)
      → live_events m mode r es (with_calls n c) ≡ with_calls n (live_events m mode r es c)
  unfolding live_events
  live_events-with_calls n mode r [] c = refl
  live_events-with_calls n mode r ((none, err) ∷ es) c = ground arith
  live_events-with_calls n mode r ((some x, err) ∷ es) c =
      elim (Outcome-cases (altered m r c.state).1) [
        | inl (r', got) ↦
            let reported = emit (error_pair err) (record c { state = (altered m r c.state).0 }) in
            let answered = live_answer-with_calls n mode x reported in
            let rest = live_events-with_calls n mode r' es (live_answer m mode x reported) in
            ground (arith, got, answered, rest)
        | inr (inl (e, got)) ↦ ground (arith, got)
        | inr (inr got) ↦ ground (arith, got)
      ]

  -- The same configuration with another limit.
  abbrev with_limit : ℤ → RunConfig → RunConfig
  with_limit max config = record config { max_llm_calls = max }

  -- The same state, answers and panic.
  abbrev pub SameBut : Called S V → Called S V → Type 0
  SameBut c d = (c.state ≡ d.state) × (c.answers ≡ d.answers) × (c.panicked ≡ d.panicked)

  SameBut-with_calls :
      (n k : ℕ) (e : Called S V) {c d : Called S V}
      → c ≡ with_calls n e
      → d ≡ with_calls k e
      → SameBut c d
  SameBut-with_calls n k e p q = (
    ap (λ x. x.state) p ∙ sym (ap (λ x. x.state) q),
    ap (λ x. x.answers) p ∙ sym (ap (λ x. x.answers) q),
    ap (λ x. x.panicked) p ∙ sym (ap (λ x. x.panicked) q),
  )

  call_model-SameBut :
      (config : RunConfig) (max : ℤ) (r : Option (ModelResponse V)) (n : ℕ) (c : Called S V)
      → SameBut (call_model m (with_limit max config) r (with_calls n c)) (call_model m config r c)
  unfolding call_model
  call_model-SameBut config max r n c =
      let mode = config.streaming_mode in
      elim (Bool-cases config.support_cfc) [
        | inl cfc ↦
            let s = m.new_queue c.state in
            let start = record c { state = s } in
            rw cfc (
              SameBut-with_calls n c.llm_calls (live_events m mode r (m.run_live s) start)
                (live_events-with_calls n mode r (m.run_live s) start)
                (live_events-with_calls c.llm_calls mode r (m.run_live s) start))
        | inr plain ↦ elim (Bool-cases (is_sse mode)) [
          | inl sse ↦
              let rs = m.stream_generate_content c.state in
              rw (plain, sse)
                (SameBut-with_calls _ _ (model_responses m rs c) (model_responses-with_calls _ rs c)
                  (model_responses-with_calls _ rs c))
          | inr other ↦ rw (plain, other) (refl, refl, refl)
        ]
      ]

  call_behind-SameBut :
      (config : RunConfig) (max : ℤ) (o : Outcome (Option (ModelResponse V))) (n : ℕ)
      (c : Called S V)
      → SameBut
          (call_behind m (with_limit max config) o (with_calls n c))
          (call_behind m config o c)
  unfolding call_behind
  call_behind-SameBut config max panic n c = (refl, refl, refl)
  call_behind-SameBut config max (fail e) n c =
      call_model-SameBut config max none n (emit ((none, some e) ∷ []) c)
  call_behind-SameBut config max (ok none) n c = call_model-SameBut config max none n c
  call_behind-SameBut config max (ok (some r)) n c =
      call_model-SameBut config max (some r) n (emit ((some r, none) ∷ []) c)

  -- The limit on the calls of the model limits nothing: with any limit and any number of calls already
  -- counted, `callLLM` leaves the same state and yields the same as without a limit on the first call.
  pub call_llm-unlimited :
      (config : RunConfig) (max : ℤ) (s : S) (n : ℕ)
      → SameBut (call_llm m (with_limit max config) s n) (call_llm m config s 0)
  unfolding call_llm
  call_llm-unlimited config max s n =
      let before = handle_before_model_callback m.before_model s in
      call_behind-SameBut config max before.1 n
        (record { state = before.0; llm_calls = 0; answers = []; panicked = false })

-- ===== src/Flow/Hidden.antt =====
-- What becomes of errors in `Run` and `postProcessRunProcessors` (flow/llmflow/llm_flow.go), and what
-- `Run` does with processors that yield nothing.
use adk_go.Flow.{
  Flow, run_flow, run_one_step, step_events, unless_final, preprocess, run_processors, report,
  each_tool,
}
use adk_go.Agents.Stream.{
  Stream, Item, finished, crashed, out_of_fuel, yields, acts, seen, ending, state_after, pass_on,
  ends,
}
use adk_go.Event.{Event, is_final_response}
use adk_go.Base.{
  Option-cases, ℕ, zero, suc, Option, none, some, List, [], ◌∷◌, ◌≡◌, All, refl, arith,
  Outcome-cases, inl, inr,
}

-- The pair has no error.
abbrev pub HasNoError : {V : Type 0} → Item V → Type 0
HasNoError i = i.1 ≡ none

module _ {S V : Type 0} where
  seen-unless_final :
      (last : Option (Event V)) (next : Stream S V) (s : S)
      → All HasNoError (seen s next)
      → All HasNoError (seen s (unless_final last next))
  unfolding seen
  seen-unless_final none next s h = tt
  seen-unless_final (some e) next s h = elim (Outcome-cases (is_final_response e)) [
    | inl (final, got) ↦ ground (arith, got, h)
    | inr (inl (err, got)) ↦ ground (arith, got)
    | inr (inr got) ↦ ground (arith, got)
  ]

  seen-step_events :
      (g : Stream S V) (last : Option (Event V)) (k : Option (Event V) → Stream S V) (s : S)
      → ((l : Option (Event V)) (t : S) → All HasNoError (seen t (k l)))
      → All HasNoError (seen s (step_events g last k))
  unfolding seen step_events
  seen-step_events finished last k s h = h last s
  seen-step_events crashed last k s h = tt
  seen-step_events out_of_fuel last k s h = tt
  seen-step_events (yields (e, some err) g) last k s h = tt
  seen-step_events (yields (e, none) g) last k s h = (refl, seen-step_events g e k s h)
  seen-step_events (acts f g) last k s h = seen-step_events (g s) last k (f s) h

  -- The run yields nothing and ends, whatever the state.
  pub record IsMute (r : Stream S V) : Type 0 where
    pub yields_nothing : (s : S) → seen s r ≡ []
    pub comes_to_its_end : (s : S) → ending s r ≡ ends

  -- Stated of one state, for the induction on the stream.
  abbrev Mute : S → Stream S V → Type 0
  Mute s r = (seen s r ≡ []) × (ending s r ≡ ends)

  -- The run yields nothing, ends, and leaves this state.
  abbrev Leads : S → Stream S V → S → Type 0
  Leads s r t = (seen s r ≡ []) × (ending s r ≡ ends) × (state_after s r ≡ t)

  Leads-report :
      (r k : Stream S V) (s t : S) → Mute s r → Leads (state_after s r) k t → Leads s (report r k) t
  unfolding report seen ending state_after
  Leads-report finished k s t m h = h
  Leads-report crashed k s t (m, e) h = absurd (cc)
  Leads-report out_of_fuel k s t (m, e) h = absurd (cc)
  Leads-report (yields (e, some err) g) k s t (m, x) h = absurd (cc)
  Leads-report (yields (e, none) g) k s t (m, x) h = absurd (cc)
  Leads-report (acts f g) k s t m h = Leads-report (g s) k (f s) t m h

  -- The state behind one run after another.
  abbrev pub after_each : List (Stream S V) → S → S
  after_each [] s = s
  after_each (r ∷ runs) s = after_each runs (state_after s r)

  Leads-run_processors :
      (runs : List (Stream S V)) (k : Stream S V) (s t : S)
      → All IsMute runs
      → Leads (after_each runs s) k t
      → Leads s (run_processors runs k) t
  unfolding run_processors
  Leads-run_processors [] k s t all h = h
  Leads-run_processors (r ∷ runs) k s t (m, all) h =
      Leads-report r (run_processors runs k) s t (m.yields_nothing s, m.comes_to_its_end s)
        (Leads-run_processors runs k (state_after s r) t all h)

  Leads-pass_on : (r : Stream S V) (s t : S) → Leads s r t → Leads s (pass_on r finished) t
  unfolding pass_on seen ending state_after
  Leads-pass_on finished s t h = h
  Leads-pass_on crashed s t (m, e, a) = absurd (cc)
  Leads-pass_on out_of_fuel s t (m, e, a) = absurd (cc)
  Leads-pass_on (yields i g) s t (m, e, a) = absurd (cc)
  Leads-pass_on (acts f g) s t h = Leads-pass_on (g s) (f s) t h

  -- Behind a step without events nothing is left of `Run`.
  Leads-step_events :
      (r : Stream S V) (k : Option (Event V) → Stream S V) (s t : S)
      → k none ≡ finished
      → Leads s r t
      → Leads s (step_events r none k) t
  unfolding step_events seen ending state_after
  Leads-step_events finished k s t last h = rw last h
  Leads-step_events crashed k s t last (m, e, a) = absurd (cc)
  Leads-step_events out_of_fuel k s t last (m, e, a) = absurd (cc)
  Leads-step_events (yields i g) k s t last (m, e, a) = absurd (cc)
  Leads-step_events (acts f g) k s t last h = Leads-step_events (g s) k (f s) t last h

module _ {S W H V : Type 0} where
  -- `Run` of a flow never yields an error, whatever its processors and tools do and however many steps
  -- it makes: an error of a processor ends the run without a word.
  pub run_flow-HasNoError :
      (f : Flow S W H V) (fuel : ℕ) (s : S) → All HasNoError (seen s (run_flow f fuel))
  unfolding run_flow seen
  run_flow-HasNoError f zero s = tt
  run_flow-HasNoError f (suc fuel) s =
      seen-step_events (run_one_step f) none (λ last. unless_final last (run_flow f fuel)) s
        (λ l t. seen-unless_final l (run_flow f fuel) t (run_flow-HasNoError f fuel t))

  -- What the request processors, one after the other, and then the tools make of a state; without an
  -- `LLMAgent` it stays as it is.
  abbrev pub prepared : Flow S W H V → S → S
  prepared f s = elim (f.llm_agent s) [
    | none ↦ s
    | some agent ↦
        let t = after_each f.request_processors s in each_tool (f.process_llm_request t) t
  ]

  Leads-preprocess :
      (f : Flow S W H V) (s : S)
      → All IsMute f.request_processors
      → Leads s (preprocess f) (prepared f s)
  unfolding preprocess seen ending state_after
  Leads-preprocess f s all = elim (Option-cases (f.llm_agent s)) [
    | inl nobody ↦ ground (arith, nobody)
    | inr (agent, got) ↦
        let t = after_each f.request_processors s in
        let runs =
          Leads-run_processors f.request_processors
            (acts (λ u. each_tool (f.process_llm_request u) u) (λ u. finished)) s
            (each_tool (f.process_llm_request t) t) all (refl, refl, refl) in
        ground (arith, got, runs.0, runs.1, runs.2)
  ]

  -- A flow whose request processors yield nothing and come to their end, whatever the state, yields
  -- nothing at all, and its `Run` ends, on any fuel but zero. The state that it leaves is what the
  -- processors and the tools make of one with a new request, once: nothing else has acted on it.
  pub run_flow-IsMute :
      (f : Flow S W H V) (fuel : ℕ) (s : S)
      → All IsMute f.request_processors
      → (seen s (run_flow f (suc fuel)) ≡ [])
        × (ending s (run_flow f (suc fuel)) ≡ ends)
        × (state_after s (run_flow f (suc fuel)) ≡ prepared f (f.new_request s))
  unfolding run_flow run_one_step seen ending state_after
  run_flow-IsMute f fuel s all =
      let t = prepared f (f.new_request s) in
      Leads-step_events (run_one_step f) (λ last. unless_final last (run_flow f fuel)) s t refl
        (Leads-pass_on (preprocess f) (f.new_request s) t
          (Leads-preprocess f (f.new_request s) all))

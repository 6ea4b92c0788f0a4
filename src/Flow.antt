-- ===== src/Flow.antt =====
-- flow/llmflow/llm_flow.go: `Run`, its steps and what precedes a call of the model. The processors, the
-- tools and the session are parameters: a processor is told by the stream of its `Run`, on a state `S`
-- that holds the invocation context, the request and the response.
pub mod Respond
pub mod Hidden
pub mod Lost
pub mod Call
use adk_go.Agents.Stream.{Stream, finished, crashed, out_of_fuel, yields, acts, pass_on}
use adk_go.Agents.{Agent}
use adk_go.Calls.Tools.{LlmAgent, Tool, Invocation}
use adk_go.Calls.Handle.{Handled}
use adk_go.Event.{Event, is_final_response}
use adk_go.Genai.{Content}
use adk_go.GoMap.{GoMap}
use adk_go.Base.{
  ℕ, zero, suc, Text, Bool, true, false, Option, none, some, List, [], ◌∷◌, Outcome, ok, fail,
  panic, if◌then◌else◌, is_some,
}

-- The fields of an `LLMResponse` that the flow reads.
pub record ModelResponse (V : Type 0) : Type 0 where
  pub content : Option (Content V)
  pub partial : Bool
  pub error_code : Text
  pub interrupted : Bool
  pub turn_complete : Bool

-- A flow with its processors, and what it reads of the state: the agent, if it is an `LLMAgent`, what
-- its tools do to a new request, the response and the request's tools, and the root of the tree of
-- agents, whose agents are told by a handle `H`.
pub record Flow (S W H V : Type 0) : Type 0 where
  pub request_processors : List (Stream S V)
  pub response_processors : List (Stream S V)
  pub llm_agent : S → Option (LlmAgent W V)
  pub process_llm_request : S → List (S → S)
  pub new_request : S → S
  pub end_invocation : S → Bool
  pub response : S → Option (ModelResponse V)
  pub tool_map : S → GoMap Text (Tool W V)
  pub invocation : S → Invocation V
  -- The context has ended.
  pub done : S → Bool
  pub world : S → W
  pub with_world : W → S → S
  pub root_agent : S → Agent H
  pub run_agent : H → Stream S V
  pub run_agent_live : H → Stream S V
  -- `HandleFunctionCallsLive`
  pub handle_live : Event V → S → S × Outcome (Option (Event V))
  -- The next UUIDs, and the two IDs of an event that is merged from others.
  pub uuid : S → ℕ → Text
  pub merged_id : S → Text
  pub merged_invocation_id : S → Text
  pub to_args : Text → V → Outcome (GoMap Text V)

-- A loop over what a callee yields that yields an error and returns.
unfoldable pub report : {S V : Type 0} → Stream S V → Stream S V → Stream S V
report finished k = k
report crashed k = crashed
report out_of_fuel k = out_of_fuel
report (yields (e, some err) g) k = yields (none, some err) finished
report (yields (e, none) g) k = yields (e, none) (report g k)
report (acts f g) k = acts f (λ s. report (g s) k)

abbrev pub each_tool : {S : Type 0} → List (S → S) → S → S
each_tool [] s = s
each_tool (t ∷ ts) s = each_tool ts (t s)

module _ {S V : Type 0} where
  -- The loop of `preprocess` over the processors.
  unfoldable pub run_processors : List (Stream S V) → Stream S V → Stream S V
  unfolding report
  run_processors [] k = k
  run_processors (r ∷ runs) k = report r (run_processors runs k)

  -- What follows the loop over a step, with the last event.
  abbrev pub unless_final : Option (Event V) → Stream S V → Stream S V
  unless_final none next = finished
  unless_final (some e) next = elim (is_final_response e) [
    | ok final ↦ if final then finished else next
    | fail err ↦ finished
    | panic ↦ crashed
  ]

  -- The loop over a step, with the last event so far.
  unfoldable pub step_events :
      Stream S V → Option (Event V) → (Option (Event V) → Stream S V) → Stream S V
  step_events finished last k = k last
  step_events crashed last k = crashed
  step_events out_of_fuel last k = out_of_fuel
  step_events (yields (e, some err) g) last k = finished
  step_events (yields (e, none) g) last k = yields (e, none) (step_events g e k)
  step_events (acts f g) last k = acts f (λ s. step_events (g s) last k)

module _ {S W H V : Type 0} where
  -- `preprocess`
  unfoldable pub preprocess : Flow S W H V → Stream S V
  unfolding run_processors
  preprocess f =
      acts (λ s. s)
        (λ s. elim (f.llm_agent s) [
          | none ↦ finished
          | some agent ↦
              run_processors f.request_processors
                (acts (λ t. each_tool (f.process_llm_request t) t) (λ t. finished))
        ])

  -- `runOneStep`: the event for the response of the model is made and dropped, with or without the end
  -- of the invocation.
  unfoldable pub run_one_step : Flow S W H V → Stream S V
  unfolding pass_on preprocess
  run_one_step f = acts f.new_request (λ _. pass_on (preprocess f) finished)

  -- `Run`, at most `fuel` steps.
  unfoldable pub run_flow : Flow S W H V → (fuel : ℕ) → Stream S V
  unfolding step_events run_one_step
  run_flow f zero = out_of_fuel
  run_flow f (suc fuel) =
      step_events (run_one_step f) none (λ last. unless_final last (run_flow f fuel))

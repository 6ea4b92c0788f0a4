-- ===== src/Flow/Lost.antt =====
-- What becomes of a response of the model in `postProcess`, `postProcessLive` and
-- `postprocessHandleFunctionCalls` (flow/llmflow/llm_flow.go).
use adk_go.PySet.{new_set, insert}
use adk_go.GoMap
use adk_go.GoMap.{GoMap}
use adk_go.Genai.{FunctionCall}
use adk_go.Flow.{Flow}
use adk_go.Flow.Respond.{
  without_errors, each_response, post_process_run_processors, post_events, post_process, is_good,
  is_skipped, post_process_live, finalize_model_response_event, handle,
  postprocess_handle_function_calls, finalized,
}
use adk_go.Calls.Handle.{handle_calls, handle_function_calls, send}
use adk_go.Calls.Tools.{LlmAgent, Tool, Invocation}
use adk_go.Agents.Stream.{
  Stream, finished, crashed, out_of_fuel, yields, acts, seen, ending, state_after, ends, crashes,
  goes_on, relay,
}
use adk_go.Event.{Event, content_of, get_function_calls}
use adk_go.Base.{
  ℕ, true, false, none, some, List, [], ◌∷◌, ◌≡◌, refl, arith, ok, take, text_comparable, ap,
}

module _ {S V : Type 0} where
  -- The stream yields no error, whatever the state.
  abbrev IsClean : Stream S V → Type 0
  IsClean (yields (e, some err) g) = ⊥
  IsClean (yields (e, none) g) = IsClean g
  IsClean (acts f g) = (s : S) → IsClean (g s)
  IsClean _ = Unit

  without_errors-IsClean : (r k : Stream S V) → IsClean k → IsClean (without_errors r k)
  unfolding without_errors
  without_errors-IsClean finished k h = h
  without_errors-IsClean crashed k h = tt
  without_errors-IsClean out_of_fuel k h = tt
  without_errors-IsClean (yields (e, err) g) k h = without_errors-IsClean g k h
  without_errors-IsClean (acts f g) k h = λ s. without_errors-IsClean (g s) k h

  each_response-IsClean : (runs : List (Stream S V)) → IsClean (each_response runs)
  unfolding each_response
  each_response-IsClean [] = tt
  each_response-IsClean (r ∷ runs) =
      without_errors-IsClean r (each_response runs) (each_response-IsClean runs)

  -- After a loop that meets no error and comes to its end.
  relay-crash :
      (r k : Stream S V) (s : S)
      → IsClean r
      → ending s r ≡ ends
      → ((t : S) → (seen t k ≡ []) × (ending t k ≡ crashes))
      → (seen s (relay r k) ≡ seen s r) × (ending s (relay r k) ≡ crashes)
  unfolding relay seen ending
  relay-crash finished k s c e h = h s
  relay-crash crashed k s c e h = absurd (cc)
  relay-crash out_of_fuel k s c e h = absurd (cc)
  relay-crash (yields (x, some err) g) k s c e h = absurd c
  relay-crash (yields (x, none) g) k s c e h =
      let (same, crash) = relay-crash g k s c e h in (ap (λ l. (x, none) ∷ l) same, crash)
  relay-crash (acts f g) k s c e h = relay-crash (g s) k (f s) (c s) e h

module _ {S W H V : Type 0} (f : Flow S W H V) where
  post_events-first :
      (g : Stream S V) (e : Event V) (s : S)
      → IsClean g
      → ((t : S) → is_good (f.response t) ≡ true)
      → seen s (post_events f g e) ≡ take 1 (seen s g)
  unfolding post_events seen
  post_events-first finished e s c good = refl
  post_events-first crashed e s c good = refl
  post_events-first out_of_fuel e s c good = refl
  post_events-first (yields (x, some err) g) e s c good = absurd c
  post_events-first (yields (x, none) g) e s c good = ground (arith, good s)
  post_events-first (acts h g) e s c good = post_events-first (g s) e (h s) (c s) good

  -- If the response of the model has no error code and is not interrupted, `postProcess` yields the
  -- first event of the response processors, if there is one, and nothing else: neither the event for
  -- the response nor anything of its function calls.
  pub post_process-first :
      (e : Event V) (s : S)
      → ((t : S) → is_good (f.response t) ≡ true)
      → seen s (post_process f e) ≡ take 1 (seen s (post_process_run_processors f))
  unfolding post_process post_process_run_processors
  post_process-first e s good =
      post_events-first (each_response f.response_processors) e s
        (each_response-IsClean f.response_processors) good

  -- `receiveFromModel` hands `postProcessLive` a new event, whose `LLMResponse` is nil. If the response
  -- processors come to their end and the response is not skipped, what is seen are their events, and
  -- then the code panics.
  pub post_process_live-crashes :
      (e : Event V) (s : S)
      → e.llm_response ≡ none
      → ending s (post_process_run_processors f) ≡ ends
      → ((t : S) → is_skipped (f.response t) ≡ ok false)
      → (seen s (post_process_live f e) ≡ seen s (post_process_run_processors f))
        × (ending s (post_process_live f e) ≡ crashes)
  unfolding post_process_live post_process_run_processors finalized finalize_model_response_event
      content_of seen ending
  post_process_live-crashes e s bare end kept =
      relay-crash (each_response f.response_processors) _ s
        (each_response-IsClean f.response_processors) end (λ t. ground (arith, bare, kept t))

module _ {W V : Type 0} where
  handle_calls-nothing :
      (i : Invocation V) (agent : LlmAgent W V) (tools : GoMap (List ℕ) (Tool W V)) (w : W)
      (calls : List (FunctionCall V))
      → handle_calls i agent tools (new_set []) w calls [] ≡ (w, ok [])
  unfolding handle_calls new_set insert GoMap.get
  handle_calls-nothing i agent tools w [] = refl
  handle_calls-nothing i agent tools w (c ∷ calls) = handle_calls-nothing i agent tools w calls

module _ {S W H V : Type 0} where
  -- The flow calls `HandleFunctionCalls` with an empty set of filters, so of an `LLMAgent`, while the
  -- context lives, no call is handled and no answer comes: whatever the calls and the tools, the world that
  -- tools and callbacks change stays the same, nothing is yielded and the flow waits for good.
  pub postprocess_handle_function_calls-hangs :
      (f : Flow S W H V) (e : Event V) (s : S) (agent : LlmAgent W V)
      (calls : List (FunctionCall V))
      → f.llm_agent s ≡ some agent
      → f.done s ≡ false
      → get_function_calls e ≡ ok calls
      → (seen s (postprocess_handle_function_calls f e) ≡ [])
        × (state_after s (postprocess_handle_function_calls f e) ≡ f.with_world (f.world s) s)
        × (ending s (postprocess_handle_function_calls f e) ≡ goes_on)
  unfolding postprocess_handle_function_calls handle handle_function_calls send seen ending
      state_after
  postprocess_handle_function_calls-hangs f e s agent calls is_llm alive got = ground (
    arith,
    is_llm,
    alive,
    got,
    handle_calls-nothing (f.invocation s) agent (f.tool_map s) (f.world s) calls,
  )

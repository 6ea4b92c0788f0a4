-- ===== src/Flow/Respond.antt =====
-- flow/llmflow/llm_flow.go: what follows a response of the model.
use adk_go.Calls.{populate_parts, get_long_running_function_calls}
use adk_go.Calls.Tools.{Tool}
use adk_go.Event.{Event, content_of, get_function_calls, with_long_running_tool_ids}
use adk_go.Genai.{Content}
use adk_go.GoMap.{GoMap}
use adk_go.PySet
use adk_go.PySet.{Set, new_set}
use adk_go.Base.{
  ℕ, Text, Bool, Option, none, some, [], ◌∷◌, Outcome, ok, if◌then◌else◌, eqb, length, ◌>>=◌,
  text_comparable, List, fail, false, panic, agent_not_found, not, ◌&&◌, is_some, true,
}
use adk_go.Agents.Stream.{Stream, relay, acts, finished, yields, crashed, out_of_fuel}
use adk_go.Flow.{Flow, ModelResponse}
use adk_go.Agents.{find_agent}
use adk_go.Calls.Auth.{generate_auth_event}
use adk_go.Calls.Handle.{answers, hangs, handle_function_calls, Handled}

-- The tools as `GetLongRunningFunctionCalls` reads them.
abbrev long_running : {W V : Type 0} → GoMap Text (Tool W V) → GoMap Text (Option Bool)
long_running [] = []
long_running ((name, t) ∷ tools) = (name, some t.is_long_running) ∷ long_running tools

module _ {V : Type 0} where
  -- `PopulateClientFunctionCallID` changes the calls through pointers into the content.
  abbrev populate : (uuid : ℕ → Text) → Event V → Content V → Event V
  populate uuid e c = elim e.llm_response [
    | none ↦ e
    | some r ↦ record e {
      llm_response =
          some (record r { content = some (record c { parts = populate_parts uuid 0 c.parts }) });
    }
  ]

  -- `finalizeModelResponseEvent`: the response is an argument that it does not read. A content that is
  -- read through a nil `LLMResponse` panics.
  unfoldable pub finalize_model_response_event :
      {W : Type 0} → (uuid : ℕ → Text) → GoMap Text (Tool W V) → Event V → Outcome (Event V)
  unfolding content_of get_function_calls populate_parts with_long_running_tool_ids
  finalize_model_response_event uuid tools e = do
    content ← content_of e
    elim content [
      | none ↦ ok e
      | some c ↦ do
        calls ← get_function_calls e
        if eqb (length calls) 0 then ok e else do
          let e' = populate uuid e c
          calls' ← get_function_calls e'
          with_long_running_tool_ids e'
              (PySet.unsorted_list (get_long_running_function_calls calls' (long_running tools)))
    ]

  -- The actions of an event as `GenerateAuthEvent` reads them: whoever makes actions makes their map.
  abbrev requested : Event V → Option (Option (GoMap Text V))
  requested e = elim e.actions [ none ↦ none | some a ↦ some (some a.requested_auth_configs) ]

  -- `response != nil && response.ErrorCode == "" && !response.Interrupted`
  abbrev pub is_good : Option (ModelResponse V) → Bool
  is_good none = false
  is_good (some r) = eqb (length r.error_code) 0 && not r.interrupted

  -- `response.Content == nil && response.ErrorCode != "" && !response.Interrupted &&
  -- !response.TurnComplete`, which reads a nil response.
  abbrev pub is_skipped : Option (ModelResponse V) → Outcome Bool
  is_skipped none = panic
  is_skipped (some r) = ok (
      not (is_some r.content)
      && not (eqb (length r.error_code) 0)
      && not r.interrupted
      && not r.turn_complete)

-- `postProcessRunProcessors`: the error is only made, and the event is passed on with none.
unfoldable pub without_errors : {S V : Type 0} → Stream S V → Stream S V → Stream S V
without_errors finished k = k
without_errors crashed k = crashed
without_errors out_of_fuel k = out_of_fuel
without_errors (yields (e, err) g) k = yields (e, none) (without_errors g k)
without_errors (acts f g) k = acts f (λ s. without_errors (g s) k)

unfoldable pub each_response : {S V : Type 0} → List (Stream S V) → Stream S V
unfolding without_errors
each_response [] = finished
each_response (r ∷ runs) = without_errors r (each_response runs)

module _ {S W H V : Type 0} where
  unfoldable pub post_process_run_processors : Flow S W H V → Stream S V
  unfolding each_response
  post_process_run_processors f = each_response f.response_processors

  -- `getAgentToRun`
  unfoldable pub get_agent_to_run : Flow S W H V → S → Text → Outcome H
  unfolding find_agent
  get_agent_to_run f s name = elim (find_agent name (f.root_agent s)) [
    | none ↦ fail (agent_not_found name)
    | some h ↦ ok h
  ]

  -- The agent that a response event transfers to, which runs behind it.
  unfoldable pub transfer : Flow S W H V → (H → Stream S V) → Event V → Stream S V
  unfolding get_agent_to_run
  transfer f run_of e =
      acts (λ s. s)
        (λ s. elim e.actions [
          | none ↦ crashed
          | some a ↦
              if eqb (length a.transfer_to_agent) 0
              then finished
              else elim (get_agent_to_run f s a.transfer_to_agent) [
                | ok h ↦ run_of h
                | fail err ↦ finished
                | panic ↦ crashed
              ]
        ])

  -- What `postprocessHandleFunctionCalls` does with the response event.
  unfoldable pub yield_response : Flow S W H V → Event V → Stream S V
  unfolding generate_auth_event transfer
  yield_response f e =
      acts (λ s. s)
        (λ s.
          let i = f.invocation s in
          elim (generate_auth_event (f.uuid s) f.to_args i.invocation_id i.agent_name i.branch e
            (requested e)) [
              | fail err ↦ finished
              | panic ↦ crashed
              | ok none ↦ yields (some e, none) (transfer f f.run_agent e)
              | ok (some auth) ↦
                  yields (some auth, none) (yields (some e, none) (transfer f f.run_agent e))
            ])

  -- `HandleFunctionCalls`, as the flow calls it: with an empty set of filters.
  unfoldable pub handle : Flow S W H V → Event V → S → W × Handled V
  unfolding handle_function_calls new_set
  handle f e s =
      handle_function_calls (f.merged_id s) (f.merged_invocation_id s) (f.done s) (f.invocation s)
        (f.llm_agent s) e (f.tool_map s) (new_set []) (f.world s)

  -- `postprocessHandleFunctionCalls`. `GenerateAuthEvent` reads the actions of the event, so it panics
  -- on a nil one.
  unfoldable pub postprocess_handle_function_calls : Flow S W H V → Event V → Stream S V
  unfolding handle yield_response
  postprocess_handle_function_calls f e =
      acts (λ s. f.with_world (handle f e s).0 s)
        (λ s. elim (handle f e s).1 [
          | hangs ↦ out_of_fuel
          | answers (fail err) ↦ finished
          | answers panic ↦ crashed
          | answers (ok none) ↦ crashed
          | answers (ok (some response)) ↦ yield_response f response
        ])

  unfoldable pub finalized : Flow S W H V → S → Event V → Outcome (Event V)
  unfolding finalize_model_response_event
  finalized f s e = finalize_model_response_event (f.uuid s) (f.tool_map s) e

  -- The loop of `postProcess` over the events of the processors, in which all the rest of it stands,
  -- with the event for the response as it is by then.
  unfoldable pub post_events : Flow S W H V → Stream S V → Event V → Stream S V
  unfolding finalized postprocess_handle_function_calls get_function_calls relay
  post_events f finished e = finished
  post_events f crashed e = crashed
  post_events f out_of_fuel e = out_of_fuel
  post_events f (yields (event, some err) g) e = finished
  post_events f (yields (event, none) g) e =
      yields (event, none)
        (acts (λ s. s)
          (λ s. if is_good (f.response s) then finished else elim (finalized f s e) [
            | fail err ↦ finished
            | panic ↦ crashed
            | ok e' ↦
                let rest = post_events f g e' in
                yields (some e', none)
                  (elim (get_function_calls e') [
                    | fail err ↦ finished
                    | panic ↦ crashed
                    | ok calls ↦
                        if eqb (length calls) 0
                        then rest
                        else relay (postprocess_handle_function_calls f e') rest
                  ])
          ]))
  post_events f (acts h g) e = acts h (λ s. post_events f (g s) e)

  -- `postProcess`
  unfoldable pub post_process : Flow S W H V → Event V → Stream S V
  unfolding post_process_run_processors post_events
  post_process f e = post_events f (post_process_run_processors f) e

  -- The calls of `postProcessLive`.
  unfoldable pub live_calls : Flow S W H V → Event V → Stream S V
  unfolding get_function_calls transfer
  live_calls f e = elim (get_function_calls e) [
    | fail err ↦ finished
    | panic ↦ crashed
    | ok calls ↦
        if eqb (length calls) 0
        then finished
        else acts (λ s. (f.handle_live e s).0)
            (λ s. elim (f.handle_live e s).1 [
              | fail err ↦ finished
              | panic ↦ crashed
              | ok none ↦ yields (none, none) crashed
              | ok (some response) ↦
                  yields (some response, none) (transfer f f.run_agent_live response)
            ])
  ]

  -- `postProcessLive`
  unfoldable pub post_process_live : Flow S W H V → Event V → Stream S V
  unfolding post_process_run_processors finalized live_calls relay
  post_process_live f e = relay (post_process_run_processors f) (
      acts (λ s. s)
        (λ s. elim (is_skipped (f.response s)) [
          | fail err ↦ finished
          | panic ↦ crashed
          | ok true ↦ finished
          | ok false ↦ elim (finalized f s e) [
            | fail err ↦ finished
            | panic ↦ crashed
            | ok e' ↦ yields (some e', none) (live_calls f e')
          ]
        ]))

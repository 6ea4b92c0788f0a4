-- ===== src/Calls/Live/Answers.antt =====
-- The events that `HandleFunctionCallsLive` (flow/llmflow/functions.go) builds and merges.
use mathlib.Core.Path.{subst}
use adk_go.Calls.Live.{
  live_before, live_tool, live_after, live_call, live_calls, merged, handle_function_calls_live,
}
use adk_go.Calls.Streams.{Streaming, LiveFrame}
use adk_go.Calls.Tools.{
  Tool, LlmAgent, Response, build_response_event, Invocation, ToolContext, get_tool_and_context,
}
use adk_go.Base.{
  refl, All, List, Outcome, ◌≡◌, Text, ◌∷◌, Outcome-cases, inl, arith, inr, [], ◌++◌, ok, none, ℕ,
  fail, panic, Option, Option-cases, text_comparable, length, append-nil, sym, append_assoc, false,
  some,
}
use adk_go.GoMap
use adk_go.GoMap.{GoMap}
use adk_go.Genai.{FunctionCall}
use adk_go.Event.{
  Event, with_content, get_function_responses, content_of, responses_of, get_function_calls,
}
use adk_go.Calls.Live.Contexts.{IsPlainAgent, IsPlainTool, live-KeepsContext, All-get}
use adk_go.Calls.{merge_parallel_function_response_events, merge_auth_configs}

module _ {V : Type 0} where
  -- The event has one response, to this call, and no actions.
  abbrev pub AnswersCall : FunctionCall V → Event V → Type 0
  AnswersCall c e =
      (name : Text) × (response : GoMap Text V) × (get_function_responses e
        ≡ ok (record { id = c.id; name = name; response = response } ∷ []))
      × (e.actions ≡ none)

  -- The events answer the calls, one by one and in this order.
  abbrev pub AnswersAll : List (FunctionCall V) → List (Event V) → Type 0
  AnswersAll [] [] = Unit
  AnswersAll [] (e ∷ es) = ⊥
  AnswersAll (c ∷ cs) [] = ⊥
  AnswersAll (c ∷ cs) (e ∷ es) = AnswersCall c e × AnswersAll cs es

  -- An error, a panic, or events that answer the calls.
  abbrev pub Ends : List (FunctionCall V) → Outcome (List (Event V)) → Type 0
  Ends calls (ok events) = AnswersAll calls events
  Ends calls (fail e) = Unit
  Ends calls panic = Unit

  AnswersAll-append :
      (cs : List (FunctionCall V)) (es : List (Event V)) (c : FunctionCall V) (e : Event V)
      → AnswersAll cs es
      → AnswersCall c e
      → AnswersAll (cs ++ c ∷ []) (es ++ e ∷ [])
  AnswersAll-append [] [] c e all one = (one, tt)
  AnswersAll-append [] (x ∷ es) c e all one = absurd all
  AnswersAll-append (d ∷ cs) [] c e all one = absurd all
  AnswersAll-append (d ∷ cs) (x ∷ es) c e (a, all) one = (a, AnswersAll-append cs es c e all one)

module _ {W V : Type 0} where
  build_response_event-AnswersCall :
      (i : Invocation V) (n : ℕ) (t : Tool W V) (r : Response V) (context : ToolContext V)
      (c : FunctionCall V)
      → context ≡ record { function_call_id = c.id; actions = none }
      → AnswersCall c (build_response_event i n t r context)
  unfolding build_response_event with_content get_function_responses content_of responses_of
  build_response_event-AnswersCall i n t r context c e = rw e (_, _, refl, refl)

-- The caller gets an error or a panic.
abbrev pub IsNoEvent : {A : Type 0} → Outcome A → Type 0
IsNoEvent (ok r) = ⊥
IsNoEvent (fail e) = Unit
IsNoEvent panic = Unit

module _ {W V K : Type 0} (p : Streaming W V K) (i : Invocation V) (agent : LlmAgent W V) where
  live_call-Ends :
      (tools : GoMap Text (Tool W V)) (w : W) (streams : GoMap Text (Option K))
      (call : FunctionCall V) (answered : List (FunctionCall V)) (events : List (Event V))
      → IsPlainAgent agent
      → All (λ e. IsPlainTool e.1) tools
      → AnswersAll answered events
      → Ends (answered ++ call ∷ []) (live_call p i agent tools (w, streams) call events).1
  unfolding live_call get_tool_and_context
  live_call-Ends tools w streams call answered events plain plains done =
      elim (Option-cases (GoMap.get call.name tools)) [
        | inl missing ↦ ground (arith, missing)
        | inr (t, found) ↦
            let k = All-get IsPlainTool tools call.name t plains found in
            let start : LiveFrame W V K = record {
              frame = record {
                world = w;
                context = record { function_call_id = call.id; actions = none };
              };
              streams = streams;
            } in
            let last =
              live_after agent t call (live_tool p t call (live_before agent t call start)) in
            elim (Outcome-cases last.1) [
              | inl (r, e) ↦ ground (
                arith,
                found,
                e,
                k,
                AnswersAll-append answered events call
                    (build_response_event i (length events) t r last.0.frame.context) done
                    (build_response_event-AnswersCall i (length events) t r last.0.frame.context
                      call (live-KeepsContext p agent t call start plain k)),
              )
              | inr refused ↦ ground (arith, found, refused)
            ]
      ]

  live_calls-Ends :
      (tools : GoMap Text (Tool W V)) (w : W × GoMap Text (Option K))
      (calls answered : List (FunctionCall V)) (events : List (Event V))
      → IsPlainAgent agent
      → All (λ e. IsPlainTool e.1) tools
      → AnswersAll answered events
      → Ends (answered ++ calls) (live_calls p i agent tools w calls events).1
  unfolding live_calls
  live_calls-Ends tools w [] answered events plain plains done = rw append-nil done
  live_calls-Ends tools w (call ∷ calls) answered events plain plains done =
      let next = live_call p i agent tools w call events in
      let one = live_call-Ends tools w.0 w.1 call answered events plain plains done in
      elim (Outcome-cases next.1) [
        | inl (es, e) ↦ ground (
          arith,
          e,
          sym (append_assoc answered (call ∷ []) calls),
          live_calls-Ends tools next.0 calls (answered ++ call ∷ []) es plain plains
              (subst (Ends (answered ++ call ∷ [])) e one),
        )
        | inr refused ↦ ground (arith, refused)
      ]

  -- When the tools in use are not long running, and neither they nor the callbacks change the tool's
  -- context: if the live loop over the calls ends without an error, it has built one event for each
  -- call, in the order of the calls, with one response that has the call's ID, and without actions.
  pub live_calls-Answers :
      (tools : GoMap Text (Tool W V)) (w : W × GoMap Text (Option K))
      (calls : List (FunctionCall V))
      → IsPlainAgent agent
      → All (λ e. IsPlainTool e.1) tools
      → Ends calls (live_calls p i agent tools w calls []).1
  live_calls-Answers tools w calls plain plains =
      live_calls-Ends tools w calls [] [] plain plains tt

  merge-refuses :
      (id invocation_id : Text) (c d : FunctionCall V) (calls : List (FunctionCall V))
      (events : List (Event V))
      → AnswersAll (c ∷ d ∷ calls) events
      → IsNoEvent (merged id invocation_id (ok events))
  unfolding merged merge_parallel_function_response_events merge_auth_configs
  merge-refuses id invocation_id c d calls [] all = absurd all
  merge-refuses id invocation_id c d calls (e ∷ []) (a, all) = absurd all
  merge-refuses id invocation_id c d calls (e ∷ e' ∷ es) ((name, response, got, nothing), all) =
      ground (arith, nothing)

  merged-refuses :
      (id invocation_id : Text) (c d : FunctionCall V) (calls : List (FunctionCall V))
      (o : Outcome (List (Event V)))
      → Ends (c ∷ d ∷ calls) o
      → IsNoEvent (merged id invocation_id o)
  unfolding merged
  merged-refuses id invocation_id c d calls (ok events) all =
      merge-refuses id invocation_id c d calls events all
  merged-refuses id invocation_id c d calls (fail e) all = tt
  merged-refuses id invocation_id c d calls panic all = tt

  -- When the tools in use are not long running, and neither they nor the callbacks change the tool's
  -- context: for an event with two or more calls the live handler returns no event and no nil, only an
  -- error, or it panics.
  pub handle_function_calls_live-IsNoEvent :
      (id invocation_id : Text) (e : Event V) (tools : GoMap Text (Tool W V))
      (w : W × GoMap Text (Option K)) (c d : FunctionCall V) (calls : List (FunctionCall V))
      → IsPlainAgent agent
      → All (λ e. IsPlainTool e.1) tools
      → get_function_calls e ≡ ok (c ∷ d ∷ calls)
      → IsNoEvent (handle_function_calls_live id invocation_id false p i (some agent) e tools w).1
  unfolding handle_function_calls_live
  handle_function_calls_live-IsNoEvent id invocation_id e tools w c d calls plain plains two =
      ground (
        arith,
        two,
        merged-refuses id invocation_id c d calls
            (live_calls p i agent tools w (c ∷ d ∷ calls) []).1
            (live_calls-Answers tools w (c ∷ d ∷ calls) plain plains),
      )

-- ===== src/Tests/Flows.antt =====
-- Concrete flows (flow/llmflow/llm_flow.go).
use adk_go.Agents.{agent, no_agents}
use adk_go.Agents.Stream.{
  Stream, finished, yields, acts, seen, ending, state_after, ends, crashes, goes_on,
}
use adk_go.Flow.{Flow, ModelResponse, run_flow}
use adk_go.Flow.Hidden.{HasNoError, IsMute, run_flow-HasNoError, run_flow-IsMute, prepared}
use adk_go.Flow.Lost.{post_process_live-crashes, postprocess_handle_function_calls-hangs}
use adk_go.Flow.Respond.{
  post_process_live, postprocess_handle_function_calls, post_process_run_processors,
}
use adk_go.Event.{calls_of, new_event, get_function_calls}
use adk_go.Calls.Tools.{LlmAgent}
use adk_go.Base.{ℕ, List, [], ◌∷◌, ◌≡◌, All, some, none, true, false, refl, codes, ok, foreign}
use adk_go.Tests.{call_content, called, said}
use adk_go.Genai.{FunctionCall}

abbrev hello : ModelResponse ℕ
hello = record {
  content = some (record { role = codes "model"; parts = [] });
  partial = false;
  error_code = [];
  interrupted = false;
  turn_complete = true;
}

abbrev bare_agent : LlmAgent ℕ ℕ
bare_agent = record { before_tool = []; after_tool = [] }

abbrev flow_with : List (Stream ℕ ℕ) → List (Stream ℕ ℕ) → Flow ℕ ℕ ℕ ℕ
flow_with before behind = record {
  request_processors = before;
  response_processors = behind;
  llm_agent = λ s. some bare_agent;
  process_llm_request = λ s. [];
  new_request = λ s. 0;
  end_invocation = λ s. false;
  response = λ s. some hello;
  tool_map = λ s. [];
  invocation = λ s. record {
    invocation_id = codes "i-1";
    agent_name = codes "root";
    branch = [];
    event_id = λ n. n ∷ [];
    now = λ n. n;
    as_any = λ r. 0;
  };
  done = λ s. false;
  world = λ s. s;
  with_world = λ w s. w;
  root_agent = λ s. agent 0 (codes "root") no_agents;
  run_agent = λ h. finished;
  run_agent_live = λ h. finished;
  handle_live = λ e s. (s, ok none);
  uuid = λ s n. n ∷ [];
  merged_id = λ s. codes "m-1";
  merged_invocation_id = λ s. codes "m-2";
  to_args = λ id v. ok [];
}

abbrev speaks : Stream ℕ ℕ
speaks = yields (some said, none) finished

abbrev fails : Stream ℕ ℕ
fails = yields (none, some (foreign 1)) finished

run_flow-HasNoError_example :
    All HasNoError (seen 0 (run_flow (flow_with (speaks ∷ fails ∷ []) []) 3))
run_flow-HasNoError_example = run_flow-HasNoError (flow_with (speaks ∷ fails ∷ []) []) 3 0

abbrev counts : Stream ℕ ℕ
counts = acts (λ s. 1) (λ s. finished)

counts-IsMute : IsMute counts
unfolding seen ending
counts-IsMute = record { yields_nothing = λ s. refl; comes_to_its_end = λ s. refl }

run_flow-IsMute_example :
    (seen 0 (run_flow (flow_with (counts ∷ []) []) 5) ≡ [])
    × (ending 0 (run_flow (flow_with (counts ∷ []) []) 5) ≡ ends)
    × (state_after 0 (run_flow (flow_with (counts ∷ []) []) 5)
        ≡ prepared (flow_with (counts ∷ []) []) ((flow_with (counts ∷ []) []).new_request 0))
run_flow-IsMute_example = run_flow-IsMute (flow_with (counts ∷ []) []) 4 0 (counts-IsMute, tt)

speaks-ends : ending 0 (post_process_run_processors (flow_with [] (speaks ∷ []))) ≡ ends
unfolding post_process_run_processors ending
speaks-ends = refl

post_process_live-crashes_example :
    (seen 0 (post_process_live (flow_with [] (speaks ∷ [])) (new_event (codes "e-1") 7))
      ≡ seen 0 (post_process_run_processors (flow_with [] (speaks ∷ []))))
    × (ending 0 (post_process_live (flow_with [] (speaks ∷ [])) (new_event (codes "e-1") 7))
        ≡ crashes)
post_process_live-crashes_example =
    post_process_live-crashes (flow_with [] (speaks ∷ [])) (new_event (codes "e-1") 7) 0 refl
      speaks-ends (λ t. refl)

abbrev asked : List (FunctionCall ℕ)
unfolding calls_of
asked = calls_of call_content.parts

called-asked : get_function_calls called ≡ ok asked
unfolding get_function_calls asked
called-asked = refl

postprocess_handle_function_calls-hangs_example :
    (seen 0 (postprocess_handle_function_calls (flow_with [] []) called) ≡ [])
    × (state_after 0 (postprocess_handle_function_calls (flow_with [] []) called)
        ≡ (flow_with [] []).with_world ((flow_with [] []).world 0) 0)
    × (ending 0 (postprocess_handle_function_calls (flow_with [] []) called) ≡ goes_on)
postprocess_handle_function_calls-hangs_example =
    postprocess_handle_function_calls-hangs (flow_with [] []) called 0 bare_agent asked refl refl
      called-asked

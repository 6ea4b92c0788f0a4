-- ===== src/Tests/Tools.antt =====
-- Concrete runs of the handlers of function calls (flow/llmflow/functions.go).
use adk_go.Calls.Tools.{Tool, Invocation, LlmAgent, a_map}
use adk_go.Calls.Live.{live_calls}
use adk_go.Calls.Streams.{Streaming, no_error}
use adk_go.Calls.Live.Contexts.{IsPlainAgent}
use adk_go.Calls.Live.Answers.{live_calls-Answers, Ends}
use adk_go.Calls.Handle.Silent.{handle_function_calls-IsSilent, IsSilent}
use adk_go.Base.{refl, ok, ℕ, Text, [], codes, none, false, ◌∷◌, some, suc}
use adk_go.GoMap.{GoMap}
use adk_go.Genai.{FunctionCall}
use adk_go.Tests.{lookup, called}
use adk_go.Calls.Handle.{handle_function_calls}
use adk_go.PySet.{empty_struct}

abbrev here_and_now : Invocation ℕ
here_and_now = record {
  invocation_id = codes "i-1";
  agent_name = codes "waiter";
  branch = [];
  event_id = λ n. n ∷ [];
  now = λ n. n;
  as_any = λ r. 0;
}

-- A tool that counts its runs in the world, and an agent without callbacks.
abbrev looks_up : Tool ℕ ℕ
looks_up = record {
  name = codes "lookup";
  is_long_running = false;
  has_func = false;
  run = λ args f. (record f { world = suc f.world }, ok (a_map (some ((codes "price", 7) ∷ []))));
}

abbrev tools : GoMap Text (Tool ℕ ℕ)
tools = (codes "lookup", looks_up) ∷ []

abbrev plain : LlmAgent ℕ ℕ
plain = record { before_tool = []; after_tool = [] }

abbrev no_streams : Streaming ℕ ℕ ℕ
no_streams = record {
  create_task = λ t args f. 0;
  stop = λ k. no_error;
  of_text = λ t. 0;
  as_text = λ v. none;
}

abbrev lookup_again : FunctionCall ℕ
lookup_again = record lookup { id = codes "adk-2" }

plain-IsPlainAgent : IsPlainAgent plain
plain-IsPlainAgent = record { before = tt; after = tt }

handle_function_calls-IsSilent_example :
    IsSilent
      (handle_function_calls
        (codes "e-2")
        (codes "e-3")
        false
        here_and_now
        (some plain)
        called
        tools
        ((codes "adk-1", empty_struct) ∷ [])
        0).1
handle_function_calls-IsSilent_example =
    handle_function_calls-IsSilent here_and_now plain tools refl (codes "e-2") (codes "e-3") called
      ((codes "adk-1", empty_struct) ∷ []) 0

live_calls-Answers_example :
    Ends
      (lookup ∷ lookup_again ∷ [])
      (live_calls no_streams here_and_now plain tools (0, []) (lookup ∷ lookup_again ∷ []) []).1
live_calls-Answers_example =
    live_calls-Answers no_streams here_and_now plain tools (0, []) (lookup ∷ lookup_again ∷ [])
      plain-IsPlainAgent ((refl, λ args f. refl), tt)

-- ===== src/Tests/Responses.antt =====
-- A concrete response of a model (types/model_llm_response.go) and a concrete call of it
-- (flow/llmflow/llm_flow.go).
use adk_go.Model.{GenerateContentResponse, create_llm_response, is_error}
use adk_go.Model.Told.{create_llm_response-told}
use adk_go.Flow.{ModelResponse}
use adk_go.Flow.Call.{LlmCall, RunConfig, call_llm, streaming_sse}
use adk_go.Flow.Call.Unlimited.{call_llm-unlimited, SameBut}
use adk_go.Base.{ℕ, Option, none, some, [], ◌∷◌, ◌≡◌, codes, pos, ok, false, true}
use adk_go.Tests.{text_content}

abbrev reply : Option (GenerateContentResponse ℕ)
reply = some (record {
  candidates =
      record { content = some text_content; finish_reason = codes "STOP"; finish_message = [] }
      ∷ [];
  prompt_feedback = none;
})

create_llm_response-told_example :
    ((create_llm_response reply).response.content ≡ some text_content)
    × ((create_llm_response reply).response.error_code ≡ [])
    × ((create_llm_response reply).error_message ≡ [])
    × (is_error (create_llm_response reply) ≡ false)
create_llm_response-told_example = create_llm_response-told reply

abbrev answer : ModelResponse ℕ
answer = record {
  content = some text_content;
  partial = false;
  error_code = [];
  interrupted = false;
  turn_complete = true;
}

abbrev model : LlmCall ℕ ℕ
model = record {
  before_model = (λ s. (s, ok none)) ∷ [];
  after_model = [];
  stream_generate_content = λ s. (some answer, none) ∷ [];
  run_live = λ s. [];
  new_queue = λ s. s;
  close_queue = λ s. s;
}

abbrev streamed : RunConfig
streamed = record { support_cfc = false; streaming_mode = streaming_sse; max_llm_calls = pos 0 }

call_llm-unlimited_example :
    SameBut model
      (call_llm model (record streamed { max_llm_calls = pos 1 }) 0 9)
      (call_llm model streamed 0 0)
call_llm-unlimited_example = call_llm-unlimited model streamed (pos 1) 0 9

-- ===== src/Model.antt =====
-- types/model_llm_response.go and types/model_llm_request.go: the responses that a flow makes of those
-- of the model, and what is added to a request. A finish reason, a block reason and a category are
-- texts.
pub mod Told
use adk_go.Genai.{Content, Part, text_part}
use adk_go.GoMap
use adk_go.GoMap.{GoMap}
use adk_go.Flow.{ModelResponse}
use adk_go.Base.{
  ℕ, Text, Bool, true, false, not, ◌&&◌, ◌||◌, Option, none, some, List, [], ◌∷◌, ◌++◌, map, length,
  eqb, ltb, codes, if◌then◌else◌, text_comparable, Outcome, ok, panic,
}

-- `genai.Candidate`
pub record Candidate (V : Type 0) : Type 0 where
  pub content : Option (Content V)
  pub finish_reason : Text
  pub finish_message : Text

-- `genai.SafetyRating`
pub record SafetyRating : Type 0 where
  pub blocked : Bool
  pub category : Text
  pub has_probability : Bool

-- `genai.GenerateContentResponse`, with the ratings of a prompt feedback that is not nil.
pub record GenerateContentResponse (V : Type 0) : Type 0 where
  pub candidates : List (Candidate V)
  pub prompt_feedback : Option (List SafetyRating)

-- An `LLMResponse` with its error message.
pub record Created (V : Type 0) : Type 0 where
  pub response : ModelResponse V
  pub error_message : Text

module _ {V : Type 0} where
  abbrev pub with_error : (code message : Text) → Created V
  with_error code message = record {
    response = record {
      content = none;
      partial = false;
      error_code = code;
      interrupted = false;
      turn_complete = false;
    };
    error_message = message;
  }

  abbrev pub with_no_error : Content V → Created V
  with_no_error c = record {
    response = record {
      content = some c;
      partial = false;
      error_code = [];
      interrupted = false;
      turn_complete = false;
    };
    error_message = [];
  }

  -- The first candidate.
  unfoldable pub from_candidate : Candidate V → Created V
  from_candidate c = elim c.content [
    | none ↦ with_error c.finish_reason c.finish_message
    | some content ↦
        if ltb 0 (length content.parts)
        then with_no_error content
        else with_error c.finish_reason c.finish_message
  ]

  -- The loop over the safety ratings, which ends at the first that blocks.
  unfoldable pub from_ratings : List SafetyRating → Created V
  from_ratings [] =
      with_error (codes "UNKNOWN_BLOCK")
        (codes "Content was blocked. Check prompt feedback for details.")
  from_ratings (r ∷ rs) =
      let rest = from_ratings rs in
      if r.blocked
      then with_error r.category (
          if r.has_probability
          then codes "Content was blocked due to safety concerns."
          else codes "Content was blocked. Check prompt feedback for details.")
      else rest

  -- `CreateLLMResponse`; a nil response is `none`.
  unfoldable pub create_llm_response : Option (GenerateContentResponse V) → Created V
  unfolding from_candidate from_ratings
  create_llm_response none =
      with_error (codes "UNKNOWN_ERROR") (codes "Generate content response is nil.")
  create_llm_response (some resp) = elim resp.candidates [
    | candidate ∷ candidates ↦ from_candidate candidate
    | [] ↦ elim resp.prompt_feedback [
      | some ratings ↦ from_ratings ratings
      | none ↦ with_error (codes "UNKNOWN_ERROR") (codes "Unknown error")
    ]
  ]

  -- `IsError`
  unfoldable pub is_error : Created V → Bool
  is_error r = not (eqb (length r.response.error_code) 0) || not (eqb (length r.error_message) 0)

  -- The loop of `GetText` over the parts.
  unfoldable pub first_text : List (Part V) → Text
  first_text [] = []
  first_text (p ∷ ps) = let rest = first_text ps in if eqb (length p.text) 0 then rest else p.text

  -- `GetText`
  unfoldable pub get_text : Created V → Text
  unfolding first_text
  get_text r = elim r.response.content [ none ↦ [] | some c ↦ first_text c.parts ]

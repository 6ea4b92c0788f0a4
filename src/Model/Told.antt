-- ===== src/Model/Told.antt =====
-- What a response that is made tells of that of the model (types/model_llm_response.go).
use adk_go.Model.{
  GenerateContentResponse, Created, is_error, Candidate, create_llm_response, from_candidate,
  from_ratings, SafetyRating, with_error,
}
use adk_go.Genai.{Content, Part}
use adk_go.Base.{
  Text, false, Option, none, some, [], ◌∷◌, ◌≡◌, List, ℕ, ◌⊎◌, inl, true, arith, inr, refl,
}

with_error-told :
    (V : Type 0) (code message : List ℕ)
    → (is_error (with_error {V = V} code message) ≡ true) ⊎ ((code ≡ []) × (message ≡ []))
unfolding is_error
with_error-told V [] [] = inr (refl, refl)
with_error-told V [] (m ∷ message) = inl (ground arith)
with_error-told V (k ∷ code) message = inl (ground arith)

module _ {V : Type 0} where
  -- The first candidate ends without content, reason and message.
  abbrev pub IsUnexplained : Option (GenerateContentResponse V) → Type 0
  IsUnexplained none = ⊥
  IsUnexplained (some resp) = elim resp.candidates [
    | [] ↦ ⊥
    | c ∷ cs ↦ (c.finish_reason ≡ []) × (c.finish_message ≡ [])
  ]

  -- The first candidate's content, if it has parts.
  abbrev pub offered : Option (GenerateContentResponse V) → Option (Content V)
  offered none = none
  offered (some resp) = elim resp.candidates [
    | [] ↦ none
    | c ∷ cs ↦ elim c.content [
      | none ↦ none
      | some content ↦ elim content.parts [ [] ↦ none | p ∷ ps ↦ some content ]
    ]
  ]

  from_ratings-error :
      (rs : List SafetyRating)
      → ((from_ratings {V = V} rs).response.content ≡ none)
        × (is_error (from_ratings {V = V} rs) ≡ true)
  unfolding from_ratings is_error
  from_ratings-error [] = (refl, refl)
  from_ratings-error (r ∷ rs) = ground (arith, from_ratings-error rs)

  -- What a response tells of a content, if there is one; `silent` says that there is no reason either.
  abbrev pub Tells : Created V → (silent : Type 0) → Option (Content V) → Type 0
  Tells r silent (some content) =
      (r.response.content ≡ some content)
      × (r.response.error_code ≡ [])
      × (r.error_message ≡ [])
      × (is_error r ≡ false)
  Tells r silent none = (r.response.content ≡ none) × ((is_error r ≡ true) ⊎ silent)

  -- The first candidate, by its content with its parts.
  content-Tells :
      (role : Text) (parts : List (Part V)) (reason message : Text) (cs : List (Candidate V))
      (f : Option (List SafetyRating))
      → let c : Candidate V = record {
        content = some (record { role = role; parts = parts });
        finish_reason = reason;
        finish_message = message;
      } in
        Tells
          (from_candidate c)
          ((reason ≡ []) × (message ≡ []))
          (offered (some (record { candidates = c ∷ cs; prompt_feedback = f })))
  unfolding from_candidate is_error
  content-Tells role [] reason message cs f = (refl, with_error-told V reason message)
  content-Tells role (p ∷ ps) reason message cs f =
      (ground arith, ground arith, ground arith, ground arith)

  candidate-Tells :
      (content : Option (Content V)) (reason message : Text) (cs : List (Candidate V))
      (f : Option (List SafetyRating))
      → let c : Candidate V = record {
        content = content;
        finish_reason = reason;
        finish_message = message;
      } in
        Tells
          (from_candidate c)
          ((reason ≡ []) × (message ≡ []))
          (offered (some (record { candidates = c ∷ cs; prompt_feedback = f })))
  unfolding from_candidate is_error
  candidate-Tells none reason message cs f = (refl, with_error-told V reason message)
  candidate-Tells (some content) reason message cs f =
      content-Tells content.role content.parts reason message cs f

  candidates-Tells :
      (cs : List (Candidate V)) (f : Option (List SafetyRating))
      → let resp : Option (GenerateContentResponse V) =
          some (record { candidates = cs; prompt_feedback = f }) in
        Tells (create_llm_response resp) (IsUnexplained resp) (offered resp)
  unfolding create_llm_response is_error
  candidates-Tells [] none = (refl, inl refl)
  candidates-Tells [] (some rs) = let (bare, wrong) = from_ratings-error rs in (bare, inl wrong)
  candidates-Tells (c ∷ cs) f = candidate-Tells c.content c.finish_reason c.finish_message cs f

  -- If the first candidate has a content with parts, the response that is made has that content, no
  -- error code and no error message, and is no error, whatever reason the candidate gives to stop.
  -- Otherwise it has no content and is an error, unless there is a first candidate that tells neither a
  -- reason nor a message.
  pub create_llm_response-told :
      (resp : Option (GenerateContentResponse V))
      → Tells (create_llm_response resp) (IsUnexplained resp) (offered resp)
  unfolding create_llm_response is_error
  create_llm_response-told none = (refl, inl refl)
  create_llm_response-told (some resp) = candidates-Tells resp.candidates resp.prompt_feedback

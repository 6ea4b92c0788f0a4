-- ===== src/Contents/Foreign.antt =====
-- What the reply of another agent becomes.
use adk_go.GoMap.{GoMap}
use adk_go.Genai.{Part, Content, text_part}
use adk_go.Event.{Event, LlmResponse, content_of, parts_of, calls_of, responses_of}
use adk_go.Contents.{foreign_part, foreign_event, convert_foreign_event, role_user}
use adk_go.Base.{
  Text, List, map, ◌≡◌, [], some, length, ◌∷◌, arith, suc, refl, ok, ℕ, codes, false, ap,
  length-map,
}

-- The event has a content of `n` parts, and no function call and no function response.
abbrev pub IsSilent : {V : Type 0} → ℕ → Event V → Type 0
IsSilent {V} n e =
    (r : LlmResponse V) × (c : Content V) × (e.llm_response ≡ some r)
    × (r.content ≡ some c)
    × (calls_of c.parts ≡ [])
    × (responses_of c.parts ≡ [])
    × (length c.parts ≡ n)

module _ {V : Type 0} (show : GoMap Text V → Text) where
  -- A converted part carries no function call and no function response.
  calls-foreign :
      (author : Text) (ps : List (Part V))
      → (calls_of (map (foreign_part show author) ps) ≡ [])
        × (responses_of (map (foreign_part show author) ps) ≡ [])
  unfolding calls_of responses_of foreign_part
  calls-foreign author [] = (refl, refl)
  calls-foreign author (p ∷ ps) =
      let (calls, responses) = calls-foreign author ps in
      (ground (arith, calls), ground (arith, responses))

  foreign_event-IsSilent :
      (event_id : Text) (event : Event V) (parts : List (Part V))
      → IsSilent (suc (length parts)) (foreign_event show event_id event parts)
  unfolding foreign_event calls_of responses_of
  foreign_event-IsSilent event_id event parts =
      let (calls, responses) = calls-foreign event.author parts in
      (
        foreign_response,
        foreign_content,
        refl,
        refl,
        calls,
        responses,
        ap suc (length-map (foreign_part show event.author) parts),
      )
    where
      foreign_content : Content V
      foreign_content = record {
        role = role_user;
        parts = text_part (codes "For context:") ∷ map (foreign_part show event.author) parts;
      }

      foreign_response : LlmResponse V
      foreign_response = record { content = some foreign_content; partial = false }

  -- Converting the reply of another agent whose content has parts never fails: the new event is the
  -- user's, keeps the branch and the time, has one part for each old one behind the line that
  -- announces them, and no function call and no function response.
  pub convert_foreign_event_lem :
      (event_id : Text) (event : Event V) (r : LlmResponse V) (p : Part V) (ps : List (Part V))
      → event.llm_response ≡ some r
      → parts_of r.content ≡ p ∷ ps
      → (ev : Event V) × (convert_foreign_event show event_id event ≡ ok ev)
        × (ev.author ≡ codes "user")
        × (ev.branch ≡ event.branch)
        × (ev.timestamp ≡ event.timestamp)
        × IsSilent (suc (suc (length ps))) ev
  unfolding convert_foreign_event content_of
  convert_foreign_event_lem event_id event r p ps has_response has_parts = (
    foreign_event show event_id event (p ∷ ps),
    ground (arith, has_response, has_parts),
    unfold foreign_event in refl,
    unfold foreign_event in refl,
    unfold foreign_event in refl,
    foreign_event-IsSilent event_id event (p ∷ ps),
  )

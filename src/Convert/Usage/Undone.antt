-- ===== src/Convert/Usage/Undone.antt =====
-- Converting counts of tokens and feedback of Vertex AI to genai and back (types/aiconv/aiconv.go).
use adk_go.Convert.Usage.{
  PbModality, to_modality, from_modality, unknown_pb_modality, pb_modality_unspecified,
  pb_modality_text, pb_modality_image, pb_modality_audio, pb_modality_video, PbBlockedReason,
  to_blocked_reason, from_blocked_reason, unknown_pb_blocked, pb_blocked_unspecified,
  pb_blocked_safety, pb_blocked_other, PbFinishReason, to_finish_reason, from_finish_reason,
  unknown_pb_finish, pb_finish_unspecified, pb_finish_stop, pb_finish_max_tokens, pb_finish_safety,
  pb_finish_recitation, pb_finish_other, TokenCount, convert_token_count, convert_token_counts,
  UsageMetadata, convert_usage_metadata, to_usage_metadata, from_usage_metadata, PbPromptFeedback,
  to_prompt_feedback, from_prompt_feedback,
}
use adk_go.Convert.Contents.{convert_pointer}
use adk_go.Convert.Safety.Undone.{IsKnownRating, to_safety_ratings-from_safety_ratings}
use adk_go.Convert.Undone.{IsUndone, IsPointedTo, convert_all-IsUndone, convert_pointer-IsUndone}
use adk_go.Base.{Option, List, All, Outcome, refl}

abbrev pub IsKnownModality : PbModality → Type 0
IsKnownModality (unknown_pb_modality n) = ⊥
IsKnownModality _ = Unit

modality-IsUndone : (x : PbModality) → IsKnownModality x → IsUndone from_modality to_modality x
unfolding from_modality to_modality
modality-IsUndone pb_modality_unspecified known = (_, refl, refl)
modality-IsUndone pb_modality_text known = (_, refl, refl)
modality-IsUndone pb_modality_image known = (_, refl, refl)
modality-IsUndone pb_modality_audio known = (_, refl, refl)
modality-IsUndone pb_modality_video known = (_, refl, refl)
modality-IsUndone (unknown_pb_modality n) known = absurd known

abbrev pub IsKnownBlockedReason : PbBlockedReason → Type 0
IsKnownBlockedReason (unknown_pb_blocked n) = ⊥
IsKnownBlockedReason _ = Unit

blocked_reason-IsUndone :
    (x : PbBlockedReason)
    → IsKnownBlockedReason x
    → IsUndone from_blocked_reason to_blocked_reason x
unfolding from_blocked_reason to_blocked_reason
blocked_reason-IsUndone pb_blocked_unspecified known = (_, refl, refl)
blocked_reason-IsUndone pb_blocked_safety known = (_, refl, refl)
blocked_reason-IsUndone pb_blocked_other known = (_, refl, refl)
blocked_reason-IsUndone (unknown_pb_blocked n) known = absurd known

abbrev pub IsKnownFinishReason : PbFinishReason → Type 0
IsKnownFinishReason (unknown_pb_finish n) = ⊥
IsKnownFinishReason _ = Unit

finish_reason-IsUndone :
    (x : PbFinishReason) → IsKnownFinishReason x → IsUndone from_finish_reason to_finish_reason x
unfolding from_finish_reason to_finish_reason
finish_reason-IsUndone pb_finish_unspecified known = (_, refl, refl)
finish_reason-IsUndone pb_finish_stop known = (_, refl, refl)
finish_reason-IsUndone pb_finish_max_tokens known = (_, refl, refl)
finish_reason-IsUndone pb_finish_safety known = (_, refl, refl)
finish_reason-IsUndone pb_finish_recitation known = (_, refl, refl)
finish_reason-IsUndone pb_finish_other known = (_, refl, refl)
finish_reason-IsUndone (unknown_pb_finish n) known = absurd known

module _ {M N : Type 0} (back : N → Outcome M) (forth : M → Outcome N) {p : N → Type 0}
    (h : (n : N) → p n → IsUndone back forth n) where
  token_count-IsUndone :
      (c : TokenCount N)
      → p c.modality
      → IsUndone (convert_token_count back) (convert_token_count forth) c
  unfolding convert_token_count
  token_count-IsUndone c known =
      let (m, there, home) = h c.modality known in
      (record { modality = m; token_count = c.token_count }, rw there refl, rw home refl)

  token_counts-IsUndone :
      (cs : List (Option (TokenCount N)))
      → All (IsPointedTo (λ c. p c.modality)) cs
      → IsUndone (convert_token_counts back) (convert_token_counts forth) cs
  unfolding convert_token_counts
  token_counts-IsUndone cs known =
      convert_all-IsUndone (convert_pointer (convert_token_count back))
        (convert_pointer (convert_token_count forth))
        (convert_pointer-IsUndone (convert_token_count back) (convert_token_count forth)
          token_count-IsUndone)
        cs known

-- The modalities of these counts are known.
abbrev pub AreKnown : List (Option (TokenCount PbModality)) → Type 0
AreKnown cs = All (IsPointedTo (λ c. IsKnownModality c.modality)) cs

-- Of the usage that Vertex AI tells, the fields that are converted come back, if the modalities of its
-- three lists are known.
to_usage_metadata-from_usage_metadata :
    (u : UsageMetadata PbModality)
    → AreKnown u.prompt_tokens_details
    → AreKnown u.cache_tokens_details
    → AreKnown u.candidates_tokens_details
    → IsUndone from_usage_metadata to_usage_metadata u
unfolding from_usage_metadata to_usage_metadata convert_usage_metadata
to_usage_metadata-from_usage_metadata u first second third =
    let undone = token_counts-IsUndone from_modality to_modality modality-IsUndone in
    let (ps, p_there, p_home) = undone u.prompt_tokens_details first in
    let (cs, c_there, c_home) = undone u.cache_tokens_details second in
    let (ds, d_there, d_home) = undone u.candidates_tokens_details third in
    (
      record {
        prompt_token_count = u.prompt_token_count;
        candidates_token_count = u.candidates_token_count;
        total_token_count = u.total_token_count;
        cached_content_token_count = u.cached_content_token_count;
        thoughts_token_count = u.thoughts_token_count;
        prompt_tokens_details = ps;
        cache_tokens_details = cs;
        candidates_tokens_details = ds;
      },
      rw (p_there, c_there, d_there) refl,
      rw (p_home, c_home, d_home) refl,
    )

-- So does the feedback on a prompt, if its reason and its ratings are known.
to_prompt_feedback-from_prompt_feedback :
    (f : PbPromptFeedback)
    → IsKnownBlockedReason f.block_reason
    → All (IsPointedTo IsKnownRating) f.safety_ratings
    → IsUndone from_prompt_feedback to_prompt_feedback f
unfolding from_prompt_feedback to_prompt_feedback
to_prompt_feedback-from_prompt_feedback f known rated =
    let (b, b_there, b_home) = blocked_reason-IsUndone f.block_reason known in
    let (r, r_there, r_home) = to_safety_ratings-from_safety_ratings f.safety_ratings rated in
    (
      record { block_reason = b; safety_ratings = r },
      rw (b_there, r_there) refl,
      rw (b_home, r_home) refl,
    )

-- ===== src/Convert/Usage.antt =====
-- types/aiconv/aiconv.go: the counts of tokens, the feedback on a prompt and the reasons why a model stops.
-- Each enumeration has, beside the values that the code knows, the others that its type allows.
pub mod Undone
use adk_go.Convert.Contents.{convert_all, convert_pointer}
use adk_go.Convert.Safety.{SafetyRating, PbSafetyRating, to_safety_ratings, from_safety_ratings}
use adk_go.Base.{ℤ, Text, Option, List, Outcome, ok, panic, ◌>>=◌}

-- `genai.MediaModality` and its like among the protocol buffers.
pub data Modality : Type 0 where
  modality_unspecified modality_text modality_image modality_audio modality_video : Modality
  unknown_modality : Text → Modality

pub data PbModality : Type 0 where
  pb_modality_unspecified pb_modality_text pb_modality_image pb_modality_audio pb_modality_video :
      PbModality
  unknown_pb_modality : ℤ → PbModality

-- `ToAIPlatformModality` and `FromAIPlatformModality`
unfoldable pub to_modality : Modality → Outcome PbModality
to_modality modality_unspecified = ok pb_modality_unspecified
to_modality modality_text = ok pb_modality_text
to_modality modality_image = ok pb_modality_image
to_modality modality_audio = ok pb_modality_audio
to_modality modality_video = ok pb_modality_video
to_modality (unknown_modality t) = panic

unfoldable pub from_modality : PbModality → Outcome Modality
from_modality pb_modality_unspecified = ok modality_unspecified
from_modality pb_modality_text = ok modality_text
from_modality pb_modality_image = ok modality_image
from_modality pb_modality_audio = ok modality_audio
from_modality pb_modality_video = ok modality_video
from_modality (unknown_pb_modality n) = panic

-- `genai.BlockedReason` and its like among the protocol buffers.
pub data BlockedReason : Type 0 where
  blocked_unspecified blocked_safety blocked_other : BlockedReason
  unknown_blocked : Text → BlockedReason

pub data PbBlockedReason : Type 0 where
  pb_blocked_unspecified pb_blocked_safety pb_blocked_other : PbBlockedReason
  unknown_pb_blocked : ℤ → PbBlockedReason

-- `ToAIPlatformBlockedReason` and `FromAIPlatformBlockedReason`
unfoldable pub to_blocked_reason : BlockedReason → Outcome PbBlockedReason
to_blocked_reason blocked_unspecified = ok pb_blocked_unspecified
to_blocked_reason blocked_safety = ok pb_blocked_safety
to_blocked_reason blocked_other = ok pb_blocked_other
to_blocked_reason (unknown_blocked t) = panic

unfoldable pub from_blocked_reason : PbBlockedReason → Outcome BlockedReason
from_blocked_reason pb_blocked_unspecified = ok blocked_unspecified
from_blocked_reason pb_blocked_safety = ok blocked_safety
from_blocked_reason pb_blocked_other = ok blocked_other
from_blocked_reason (unknown_pb_blocked n) = panic

-- `genai.FinishReason` and its like among the protocol buffers.
pub data FinishReason : Type 0 where
  finish_unspecified finish_stop finish_max_tokens finish_safety finish_recitation finish_other :
      FinishReason
  unknown_finish : Text → FinishReason

pub data PbFinishReason : Type 0 where
  pb_finish_unspecified pb_finish_stop pb_finish_max_tokens pb_finish_safety pb_finish_recitation
        pb_finish_other :
      PbFinishReason
  unknown_pb_finish : ℤ → PbFinishReason

-- `ToAIPlatformFinishReason` and `FromAIPlatformFinishReason`
unfoldable pub to_finish_reason : FinishReason → Outcome PbFinishReason
to_finish_reason finish_unspecified = ok pb_finish_unspecified
to_finish_reason finish_stop = ok pb_finish_stop
to_finish_reason finish_max_tokens = ok pb_finish_max_tokens
to_finish_reason finish_safety = ok pb_finish_safety
to_finish_reason finish_recitation = ok pb_finish_recitation
to_finish_reason finish_other = ok pb_finish_other
to_finish_reason (unknown_finish t) = panic

unfoldable pub from_finish_reason : PbFinishReason → Outcome FinishReason
from_finish_reason pb_finish_unspecified = ok finish_unspecified
from_finish_reason pb_finish_stop = ok finish_stop
from_finish_reason pb_finish_max_tokens = ok finish_max_tokens
from_finish_reason pb_finish_safety = ok finish_safety
from_finish_reason pb_finish_recitation = ok finish_recitation
from_finish_reason pb_finish_other = ok finish_other
from_finish_reason (unknown_pb_finish n) = panic

-- `ModalityTokenCount`, on a modality `M`.
pub record TokenCount (M : Type 0) : Type 0 where
  pub modality : M
  pub token_count : ℤ

-- `ToAIPlatformModalityTokenCount` and its like, on a count that is not nil, and on slices.
unfoldable pub convert_token_count :
    {M N : Type 0} → (M → Outcome N) → TokenCount M → Outcome (TokenCount N)
convert_token_count f c = do
  m ← f c.modality
  ok (record { modality = m; token_count = c.token_count })

unfoldable pub convert_token_counts :
    {M N : Type 0}
    → (M → Outcome N)
    → List (Option (TokenCount M))
    → Outcome (List (Option (TokenCount N)))
unfolding convert_token_count convert_pointer convert_all
convert_token_counts f cs = convert_all (convert_pointer (convert_token_count f)) cs

-- `genai.GenerateContentResponseUsageMetadata` and its like, with the fields that are converted.
pub record UsageMetadata (M : Type 0) : Type 0 where
  pub prompt_token_count : ℤ
  pub candidates_token_count : ℤ
  pub total_token_count : ℤ
  pub cached_content_token_count : ℤ
  pub thoughts_token_count : ℤ
  pub prompt_tokens_details : List (Option (TokenCount M))
  pub cache_tokens_details : List (Option (TokenCount M))
  pub candidates_tokens_details : List (Option (TokenCount M))

unfoldable pub convert_usage_metadata :
    {M N : Type 0} → (M → Outcome N) → UsageMetadata M → Outcome (UsageMetadata N)
unfolding convert_token_counts
convert_usage_metadata f u = do
  prompt ← convert_token_counts f u.prompt_tokens_details
  cache ← convert_token_counts f u.cache_tokens_details
  candidates ← convert_token_counts f u.candidates_tokens_details
  ok (record {
    prompt_token_count = u.prompt_token_count;
    candidates_token_count = u.candidates_token_count;
    total_token_count = u.total_token_count;
    cached_content_token_count = u.cached_content_token_count;
    thoughts_token_count = u.thoughts_token_count;
    prompt_tokens_details = prompt;
    cache_tokens_details = cache;
    candidates_tokens_details = candidates;
  })

-- `ToAIPlatformUsageMetadata` and `FromAIPlatformUsageMetadata`, on what is not nil.
unfoldable pub to_usage_metadata : UsageMetadata Modality → Outcome (UsageMetadata PbModality)
unfolding to_modality convert_usage_metadata
to_usage_metadata u = convert_usage_metadata to_modality u

unfoldable pub from_usage_metadata : UsageMetadata PbModality → Outcome (UsageMetadata Modality)
unfolding from_modality convert_usage_metadata
from_usage_metadata u = convert_usage_metadata from_modality u

-- `genai.GenerateContentResponsePromptFeedback` and its like, with the fields that are converted.
pub record PromptFeedback : Type 0 where
  pub block_reason : BlockedReason
  pub safety_ratings : List (Option SafetyRating)

pub record PbPromptFeedback : Type 0 where
  pub block_reason : PbBlockedReason
  pub safety_ratings : List (Option PbSafetyRating)

-- `ToAIPlatformPromptFeedback` and `FromAIPlatformPromptFeedback`, on what is not nil.
unfoldable pub to_prompt_feedback : PromptFeedback → Outcome PbPromptFeedback
unfolding to_blocked_reason to_safety_ratings
to_prompt_feedback f = do
  b ← to_blocked_reason f.block_reason
  r ← to_safety_ratings f.safety_ratings
  ok (record { block_reason = b; safety_ratings = r })

unfoldable pub from_prompt_feedback : PbPromptFeedback → Outcome PromptFeedback
unfolding from_blocked_reason from_safety_ratings
from_prompt_feedback f = do
  b ← from_blocked_reason f.block_reason
  r ← from_safety_ratings f.safety_ratings
  ok (record { block_reason = b; safety_ratings = r })

-- ===== src/Convert/Safety.antt =====
-- types/aiconv/aiconv.go: safety settings and ratings, with the fields that are converted. Each
-- enumeration has, beside the values that the code knows, the others that its type allows.
pub mod Undone
use adk_go.Convert.Contents.{convert_all, convert_pointer}
use adk_go.Base.{ℤ, Text, Bool, Option, List, Outcome, ok, panic, ◌>>=◌}

-- `genai.HarmCategory` and its like among the protocol buffers.
pub data HarmCategory : Type 0 where
  category_unspecified category_harassment category_hate_speech category_sexually_explicit
        category_dangerous_content :
      HarmCategory
  other_category : Text → HarmCategory

pub data PbHarmCategory : Type 0 where
  pb_category_unspecified pb_category_harassment pb_category_hate_speech
        pb_category_sexually_explicit pb_category_dangerous_content :
      PbHarmCategory
  other_pb_category : ℤ → PbHarmCategory

-- `ToAIPlatformHarmCategory` and `FromAIPlatformHarmCategory`
unfoldable pub to_harm_category : HarmCategory → Outcome PbHarmCategory
to_harm_category category_unspecified = ok pb_category_unspecified
to_harm_category category_harassment = ok pb_category_harassment
to_harm_category category_hate_speech = ok pb_category_hate_speech
to_harm_category category_sexually_explicit = ok pb_category_sexually_explicit
to_harm_category category_dangerous_content = ok pb_category_dangerous_content
to_harm_category (other_category t) = panic

unfoldable pub from_harm_category : PbHarmCategory → Outcome HarmCategory
from_harm_category pb_category_unspecified = ok category_unspecified
from_harm_category pb_category_harassment = ok category_harassment
from_harm_category pb_category_hate_speech = ok category_hate_speech
from_harm_category pb_category_sexually_explicit = ok category_sexually_explicit
from_harm_category pb_category_dangerous_content = ok category_dangerous_content
from_harm_category (other_pb_category n) = panic

-- `genai.HarmBlockThreshold` and its like among the protocol buffers.
pub data HarmBlockThreshold : Type 0 where
  threshold_unspecified threshold_low_and_above threshold_medium_and_above threshold_only_high
        threshold_block_none :
      HarmBlockThreshold
  other_threshold : Text → HarmBlockThreshold

pub data PbHarmBlockThreshold : Type 0 where
  pb_threshold_unspecified pb_threshold_low_and_above pb_threshold_medium_and_above
        pb_threshold_only_high pb_threshold_block_none :
      PbHarmBlockThreshold
  other_pb_threshold : ℤ → PbHarmBlockThreshold

-- `ToAIPlatformHarmBlockThreshold` and `FromAIPlatformHarmBlockThreshold`
unfoldable pub to_harm_block_threshold : HarmBlockThreshold → Outcome PbHarmBlockThreshold
to_harm_block_threshold threshold_unspecified = ok pb_threshold_unspecified
to_harm_block_threshold threshold_low_and_above = ok pb_threshold_low_and_above
to_harm_block_threshold threshold_medium_and_above = ok pb_threshold_medium_and_above
to_harm_block_threshold threshold_only_high = ok pb_threshold_only_high
to_harm_block_threshold threshold_block_none = ok pb_threshold_block_none
to_harm_block_threshold (other_threshold t) = panic

unfoldable pub from_harm_block_threshold : PbHarmBlockThreshold → Outcome HarmBlockThreshold
from_harm_block_threshold pb_threshold_unspecified = ok threshold_unspecified
from_harm_block_threshold pb_threshold_low_and_above = ok threshold_low_and_above
from_harm_block_threshold pb_threshold_medium_and_above = ok threshold_medium_and_above
from_harm_block_threshold pb_threshold_only_high = ok threshold_only_high
from_harm_block_threshold pb_threshold_block_none = ok threshold_block_none
from_harm_block_threshold (other_pb_threshold n) = panic

-- `genai.HarmProbability` and its like among the protocol buffers.
pub data HarmProbability : Type 0 where
  probability_unspecified probability_negligible probability_low probability_medium
        probability_high :
      HarmProbability
  other_probability : Text → HarmProbability

pub data PbHarmProbability : Type 0 where
  pb_probability_unspecified pb_probability_negligible pb_probability_low pb_probability_medium
        pb_probability_high :
      PbHarmProbability
  other_pb_probability : ℤ → PbHarmProbability

-- `ToAIPlatformHarmProbability` and `FromAIPlatformHarmProbability`
unfoldable pub to_harm_probability : HarmProbability → Outcome PbHarmProbability
to_harm_probability probability_unspecified = ok pb_probability_unspecified
to_harm_probability probability_negligible = ok pb_probability_negligible
to_harm_probability probability_low = ok pb_probability_low
to_harm_probability probability_medium = ok pb_probability_medium
to_harm_probability probability_high = ok pb_probability_high
to_harm_probability (other_probability t) = panic

unfoldable pub from_harm_probability : PbHarmProbability → Outcome HarmProbability
from_harm_probability pb_probability_unspecified = ok probability_unspecified
from_harm_probability pb_probability_negligible = ok probability_negligible
from_harm_probability pb_probability_low = ok probability_low
from_harm_probability pb_probability_medium = ok probability_medium
from_harm_probability pb_probability_high = ok probability_high
from_harm_probability (other_pb_probability n) = panic

-- `genai.SafetySetting` and `genai.SafetyRating`, and their likes among the protocol buffers.
pub record SafetySetting : Type 0 where
  pub category : HarmCategory
  pub threshold : HarmBlockThreshold

pub record PbSafetySetting : Type 0 where
  pub category : PbHarmCategory
  pub threshold : PbHarmBlockThreshold

pub record SafetyRating : Type 0 where
  pub category : HarmCategory
  pub probability : HarmProbability
  pub blocked : Bool

pub record PbSafetyRating : Type 0 where
  pub category : PbHarmCategory
  pub probability : PbHarmProbability
  pub blocked : Bool

-- `ToAIPlatformSafetySetting` and `FromAIPlatformSafetySetting`, on a setting that is not nil.
unfoldable pub to_safety_setting : SafetySetting → Outcome PbSafetySetting
unfolding to_harm_category to_harm_block_threshold
to_safety_setting s = do
  c ← to_harm_category s.category
  t ← to_harm_block_threshold s.threshold
  ok (record { category = c; threshold = t })

unfoldable pub from_safety_setting : PbSafetySetting → Outcome SafetySetting
unfolding from_harm_category from_harm_block_threshold
from_safety_setting s = do
  c ← from_harm_category s.category
  t ← from_harm_block_threshold s.threshold
  ok (record { category = c; threshold = t })

-- `ToAIPlatformSafetyRating` and `FromAIPlatformSafetyRating`, on a rating that is not nil.
unfoldable pub to_safety_rating : SafetyRating → Outcome PbSafetyRating
unfolding to_harm_category to_harm_probability
to_safety_rating s = do
  c ← to_harm_category s.category
  p ← to_harm_probability s.probability
  ok (record { category = c; probability = p; blocked = s.blocked })

unfoldable pub from_safety_rating : PbSafetyRating → Outcome SafetyRating
unfolding from_harm_category from_harm_probability
from_safety_rating s = do
  c ← from_harm_category s.category
  p ← from_harm_probability s.probability
  ok (record { category = c; probability = p; blocked = s.blocked })

-- The conversions of slices, whose elements may be nil; a nil slice is the empty one.
unfoldable pub to_safety_settings :
    List (Option SafetySetting) → Outcome (List (Option PbSafetySetting))
unfolding to_safety_setting convert_pointer convert_all
to_safety_settings settings = convert_all (convert_pointer to_safety_setting) settings

unfoldable pub from_safety_settings :
    List (Option PbSafetySetting) → Outcome (List (Option SafetySetting))
unfolding from_safety_setting convert_pointer convert_all
from_safety_settings settings = convert_all (convert_pointer from_safety_setting) settings

unfoldable pub to_safety_ratings :
    List (Option SafetyRating) → Outcome (List (Option PbSafetyRating))
unfolding to_safety_rating convert_pointer convert_all
to_safety_ratings ratings = convert_all (convert_pointer to_safety_rating) ratings

unfoldable pub from_safety_ratings :
    List (Option PbSafetyRating) → Outcome (List (Option SafetyRating))
unfolding from_safety_rating convert_pointer convert_all
from_safety_ratings ratings = convert_all (convert_pointer from_safety_rating) ratings

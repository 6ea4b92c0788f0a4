-- ===== src/Convert/Safety/Undone.antt =====
-- Converting safety settings and ratings of Vertex AI to genai and back (types/aiconv/aiconv.go).
use adk_go.Convert.Safety.{
  PbHarmCategory, to_harm_category, from_harm_category, other_pb_category, pb_category_unspecified,
  pb_category_harassment, pb_category_hate_speech, pb_category_sexually_explicit,
  pb_category_dangerous_content, PbHarmBlockThreshold, to_harm_block_threshold,
  from_harm_block_threshold, other_pb_threshold, pb_threshold_unspecified,
  pb_threshold_low_and_above, pb_threshold_medium_and_above, pb_threshold_only_high,
  pb_threshold_block_none, PbHarmProbability, to_harm_probability, from_harm_probability,
  other_pb_probability, pb_probability_unspecified, pb_probability_negligible, pb_probability_low,
  pb_probability_medium, pb_probability_high, PbSafetySetting, PbSafetyRating, to_safety_setting,
  to_safety_rating, to_safety_settings, to_safety_ratings, from_safety_setting, from_safety_rating,
  from_safety_settings, from_safety_ratings,
}
use adk_go.Convert.Undone.{IsUndone, IsPointedTo, convert_all-IsUndone, convert_pointer-IsUndone}
use adk_go.Base.{Option, List, All, refl}
use adk_go.Convert.Contents.{convert_pointer}

abbrev pub IsKnownHarmCategory : PbHarmCategory → Type 0
IsKnownHarmCategory (other_pb_category n) = ⊥
IsKnownHarmCategory _ = Unit

harm_category-IsUndone :
    (x : PbHarmCategory) → IsKnownHarmCategory x → IsUndone from_harm_category to_harm_category x
unfolding from_harm_category to_harm_category
harm_category-IsUndone pb_category_unspecified known = (_, refl, refl)
harm_category-IsUndone pb_category_harassment known = (_, refl, refl)
harm_category-IsUndone pb_category_hate_speech known = (_, refl, refl)
harm_category-IsUndone pb_category_sexually_explicit known = (_, refl, refl)
harm_category-IsUndone pb_category_dangerous_content known = (_, refl, refl)
harm_category-IsUndone (other_pb_category n) known = absurd known

abbrev pub IsKnownHarmBlockThreshold : PbHarmBlockThreshold → Type 0
IsKnownHarmBlockThreshold (other_pb_threshold n) = ⊥
IsKnownHarmBlockThreshold _ = Unit

harm_block_threshold-IsUndone :
    (x : PbHarmBlockThreshold)
    → IsKnownHarmBlockThreshold x
    → IsUndone from_harm_block_threshold to_harm_block_threshold x
unfolding from_harm_block_threshold to_harm_block_threshold
harm_block_threshold-IsUndone pb_threshold_unspecified known = (_, refl, refl)
harm_block_threshold-IsUndone pb_threshold_low_and_above known = (_, refl, refl)
harm_block_threshold-IsUndone pb_threshold_medium_and_above known = (_, refl, refl)
harm_block_threshold-IsUndone pb_threshold_only_high known = (_, refl, refl)
harm_block_threshold-IsUndone pb_threshold_block_none known = (_, refl, refl)
harm_block_threshold-IsUndone (other_pb_threshold n) known = absurd known

abbrev pub IsKnownHarmProbability : PbHarmProbability → Type 0
IsKnownHarmProbability (other_pb_probability n) = ⊥
IsKnownHarmProbability _ = Unit

harm_probability-IsUndone :
    (x : PbHarmProbability)
    → IsKnownHarmProbability x
    → IsUndone from_harm_probability to_harm_probability x
unfolding from_harm_probability to_harm_probability
harm_probability-IsUndone pb_probability_unspecified known = (_, refl, refl)
harm_probability-IsUndone pb_probability_negligible known = (_, refl, refl)
harm_probability-IsUndone pb_probability_low known = (_, refl, refl)
harm_probability-IsUndone pb_probability_medium known = (_, refl, refl)
harm_probability-IsUndone pb_probability_high known = (_, refl, refl)
harm_probability-IsUndone (other_pb_probability n) known = absurd known

-- The values are those that the code knows.
abbrev pub IsKnownSetting : PbSafetySetting → Type 0
IsKnownSetting s = IsKnownHarmCategory s.category × IsKnownHarmBlockThreshold s.threshold

abbrev pub IsKnownRating : PbSafetyRating → Type 0
IsKnownRating s = IsKnownHarmCategory s.category × IsKnownHarmProbability s.probability

safety_setting-IsUndone :
    (s : PbSafetySetting) → IsKnownSetting s → IsUndone from_safety_setting to_safety_setting s
unfolding from_safety_setting to_safety_setting
safety_setting-IsUndone s (known, known') =
    let (c, c_there, c_home) = harm_category-IsUndone s.category known in
    let (t, t_there, t_home) = harm_block_threshold-IsUndone s.threshold known' in
    (record { category = c; threshold = t }, rw (c_there, t_there) refl, rw (c_home, t_home) refl)

safety_rating-IsUndone :
    (s : PbSafetyRating) → IsKnownRating s → IsUndone from_safety_rating to_safety_rating s
unfolding from_safety_rating to_safety_rating
safety_rating-IsUndone s (known, known') =
    let (c, c_there, c_home) = harm_category-IsUndone s.category known in
    let (p, p_there, p_home) = harm_probability-IsUndone s.probability known' in
    (
      record { category = c; probability = p; blocked = s.blocked },
      rw (c_there, p_there) refl,
      rw (c_home, p_home) refl,
    )

-- Of safety settings of Vertex AI whose values are known, the fields that are converted come back.
to_safety_settings-from_safety_settings :
    (ss : List (Option PbSafetySetting))
    → All (IsPointedTo IsKnownSetting) ss
    → IsUndone from_safety_settings to_safety_settings ss
unfolding from_safety_settings to_safety_settings
to_safety_settings-from_safety_settings ss known =
    convert_all-IsUndone (convert_pointer from_safety_setting) (convert_pointer to_safety_setting)
      (convert_pointer-IsUndone from_safety_setting to_safety_setting safety_setting-IsUndone) ss
      known

-- So do safety ratings.
pub to_safety_ratings-from_safety_ratings :
    (ss : List (Option PbSafetyRating))
    → All (IsPointedTo IsKnownRating) ss
    → IsUndone from_safety_ratings to_safety_ratings ss
unfolding from_safety_ratings to_safety_ratings
to_safety_ratings-from_safety_ratings ss known =
    convert_all-IsUndone (convert_pointer from_safety_rating) (convert_pointer to_safety_rating)
      (convert_pointer-IsUndone from_safety_rating to_safety_rating safety_rating-IsUndone) ss known

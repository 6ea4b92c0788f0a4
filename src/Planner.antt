-- ===== src/Planner.antt =====
-- planner/plan_re_act.go: how the planner labels the parts of a response. `strings.Contains` and
-- `strings.LastIndex` are one function here, which splits a text before the last occurrence. A part
-- that is labelled in place is a new value; nothing reads the old one afterwards.
pub mod Split
use adk_go.Genai.{Part, FunctionCall, text_part}
use adk_go.Base.{
  Text, List, Option, Bool, ℕ, codes, has_prefix, text_eq, not, any, some, none, [], ◌∷◌, ◌++◌,
  true, if◌then◌else◌, ltb, keep, drop, is_some, suc, ◌&&◌, ◌||◌,
}

abbrev planning_tag : Text
planning_tag = codes "/*PLANNING*/"

abbrev replanning_tag : Text
replanning_tag = codes "/*REPLANNING*/"

abbrev reasoning_tag : Text
reasoning_tag = codes "/*REASONING*/"

abbrev action_tag : Text
action_tag = codes "/*ACTION*/"

abbrev pub final_answer_tag : Text
final_answer_tag = codes "/*FINAL_ANSWER*/"

-- The text before the last occurrence of the tag, and the text from there on.
unfoldable pub split_last : Text → Text → Option (Text × Text)
split_last tag [] = if has_prefix [] tag then some ([], []) else none
split_last tag (c ∷ s) = elim (split_last tag s) [
  | some (before, from) ↦ some (c ∷ before, from)
  | none ↦ if has_prefix (c ∷ s) tag then some ([], c ∷ s) else none
]

abbrev is_reasoning : Text → Bool
is_reasoning text =
    not (text_eq text [])
    && any (λ tag. has_prefix text tag)
        (planning_tag ∷ reasoning_tag ∷ action_tag ∷ replanning_tag ∷ [])

module _ {V : Type 0} where
  -- The two parts of a text with the final answer tag; an empty one is left out.
  unfoldable pub split_parts : Text × Text → List (Part V)
  split_parts (before, from) =
      (if text_eq from [] then [] else record (text_part from) { thought = true } ∷ [])
      ++ (if text_eq before [] then [] else text_part before ∷ [])

  -- `handleNonFunctionCallParts`
  unfoldable pub handle_non_function_call_parts : Part V → List (Part V) → List (Part V)
  unfolding split_last split_parts
  handle_non_function_call_parts p preserved =
      let labelled = preserved ++ record p { thought = is_reasoning p.text || p.thought } ∷ [] in
      if text_eq p.text [] then labelled else elim (split_last final_answer_tag p.text) [
        | some split ↦ preserved ++ split_parts split
        | none ↦ labelled
      ]

  -- The first loop of `ProcessPlanningResponse`, from the index `i`: the parts that it preserves, and
  -- the index of the first function call that has a name.
  unfoldable pub first_call : ℕ → List (Part V) → List (Part V) → List (Part V) × Option ℕ
  unfolding handle_non_function_call_parts
  first_call i preserved [] = (preserved, none)
  first_call i preserved (p ∷ ps) = elim p.function_call [
    | none ↦ first_call (suc i) (handle_non_function_call_parts p preserved) ps
    | some c ↦
        let skipped = first_call (suc i) preserved ps in
        if text_eq c.name [] then skipped else (preserved ++ p ∷ [], some i)
  ]

  -- What follows the first loop.
  unfoldable pub add_calls : List (Part V) → List (Part V) × Option ℕ → List (Part V)
  add_calls parts (preserved, none) = preserved
  add_calls parts (preserved, some i) =
      if ltb 0 i
      then preserved ++ keep (λ p. is_some p.function_call) (drop (suc i) parts)
      else preserved

  -- `ProcessPlanningResponse`
  unfoldable pub process_planning_response : List (Part V) → List (Part V)
  unfolding first_call add_calls
  process_planning_response parts = add_calls parts (first_call 0 [] parts)

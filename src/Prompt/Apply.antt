-- ===== src/Prompt/Apply.antt =====
-- internal/vertexai/prompt/template.go: validating templates and putting values into them.
use adk_go.Prompt.Scan.{extract_simple_variables}
use adk_go.GoMap
use adk_go.GoMap.{GoMap, keys}
use adk_go.Base.{
  List, Bool, Text, Option, codes, some, true, ℕ, ◌∷◌, [], false, length, ◌++◌, keep,
  text_comparable, ◌-◌, if◌then◌else◌, none, not, has_prefix, ◌&&◌, ltb, suc, zero,
}

pub data TemplateEngine : Type 0 where
  simple advanced jinja : TemplateEngine

pub data ValidationMode : Type 0 where
  strict warn loose unchecked : ValidationMode

-- Go's text/template: whether a text parses, what the code's regular expression finds in it, and the
-- text that it makes. Besides, the text that `%v` prints.
pub record GoTemplate (V : Type 0) : Type 0 where
  pub parses : Text → Bool
  pub variables : Text → List Text
  pub executes : Text → GoMap Text V → Option Text
  pub show : V → Text

-- `ApplyTemplateResponse`
pub record ApplyTemplateResponse (V : Type 0) : Type 0 where
  pub content : Text
  pub applied_variables : GoMap Text V
  pub missing_variables : List Text
  pub unused_variables : List Text

-- `strings.ReplaceAll`, for an old text that is not empty, with the number of bytes still to be skipped.
unfoldable pub replace_from : (old new : Text) → ℕ → Text → Text
replace_from old new skip [] = []
replace_from old new zero (c ∷ s) =
    let replaced = replace_from old new (length old - 1) s in
    let kept = replace_from old new zero s in
    if has_prefix (c ∷ s) old then new ++ replaced else c ∷ kept
replace_from old new (suc skip) (c ∷ s) = replace_from old new skip s

abbrev pub placeholder : Text → Text
placeholder name = codes "{" ++ name ++ codes "}"

-- A read of a `map[string]bool`.
abbrev pub is_set : Text → GoMap Text Bool → Bool
is_set key m = elim (GoMap.get key m) [ some b ↦ b | none ↦ false ]

-- `declaredMap` and the maps like it.
unfoldable pub bool_map : List Text → GoMap Text Bool → GoMap Text Bool
unfolding GoMap.set
bool_map [] m = m
bool_map (v ∷ vs) m = bool_map vs (GoMap.set v true m)

-- What the loop of `applySimpleVariables` has made so far.
pub record Progress (V : Type 0) : Type 0 where
  pub result : Text
  pub applied : GoMap Text V
  pub used : GoMap Text Bool
  pub missing : List Text

abbrev pub is_strict : ValidationMode → Bool
is_strict strict = true
is_strict _ = false

module _ {V : Type 0} where
  -- One round of the loop, with the value of the variable.
  abbrev pub apply_one : (show : V → Text) → Text → Option V → Progress V → Progress V
  apply_one show v none p = record p { missing = p.missing ++ v ∷ [] }
  apply_one show v (some value) p = record p {
    result = replace_from (placeholder v) (show value) 0 p.result;
    applied = GoMap.set v value p.applied;
    used = GoMap.set v true p.used;
  }

  unfoldable pub apply_each : (show : V → Text) → GoMap Text V → List Text → Progress V → Progress V
  unfolding replace_from GoMap.set
  apply_each show variables [] p = p
  apply_each show variables (v ∷ vs) p =
      apply_each show variables vs (apply_one show v (GoMap.get v variables) p)

  -- `applySimpleVariables`, with the missing variables of its error.
  unfoldable pub apply_simple_variables :
      (show : V → Text)
      → ValidationMode
      → Text
      → GoMap Text V
      → ApplyTemplateResponse V × Option (List Text)
  unfolding apply_each extract_simple_variables
  apply_simple_variables show mode text variables =
      let p : Progress V =
        apply_each show variables (extract_simple_variables text)
          (record { result = text; applied = []; used = []; missing = [] }) in
      (
        record {
          content = p.result;
          applied_variables = p.applied;
          missing_variables = p.missing;
          unused_variables = keep (λ v. not (is_set v p.used)) (keys variables);
        },
        if is_strict mode && ltb 0 (length p.missing) then some p.missing else none,
      )

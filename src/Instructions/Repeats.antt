-- ===== src/Instructions/Repeats.antt =====
-- What `populateValues` (flow/llmflow/instructions.go) makes of variables that it cannot replace.
use adk_go.Instructions.{
  Match, Characters, Values, substitute, populate_values, replace_match, replace_artifact,
  variable_name,
}
use adk_go.Base.{
  refl, Text, ◌≡◌, List, none, ℕ, All, codes, ◌∷◌, take, ◌++◌, [], arith, append_assoc,
}

-- For each match, the template up to it.
abbrev pub texts_before : Text → List Match → Text
texts_before src [] = []
texts_before src (m ∷ ms) = take m.start src ++ texts_before src ms

module _ {V A : Type 0} (p : Characters) (v : Values V A) where
  abbrev pub IsFailing : Match → Type 0
  IsFailing m = replace_match p v m.text ≡ none

  substitute-failing :
      (src : Text) (ms : List Match)
      → All IsFailing ms
      → substitute (replace_match p v) src 0 ms ≡ texts_before src ms ++ src
  unfolding substitute
  substitute-failing src [] all = refl
  substitute-failing src (m ∷ ms) (fails, all) = ground (
    arith,
    fails,
    append_assoc (take m.start src) (texts_before src ms) src,
    substitute-failing src ms all,
  )

  -- Of a template in which no variable can be replaced, `populateValues` returns the whole template,
  -- behind the text before each of the variables, which is so repeated.
  pub populate_values-failing :
      (matches : Text → List Match) (template : Text)
      → All IsFailing (matches template)
      → populate_values p v matches template ≡ texts_before template (matches template) ++ template
  unfolding populate_values
  populate_values-failing matches template all = substitute-failing template (matches template) all

  -- A variable that names an artifact is never replaced, whether the artifact can be loaded or not.
  pub replace_match-artifact :
      (text name : Text) (c : ℕ)
      → variable_name p text ≡ codes "artifact." ++ c ∷ name
      → replace_match p v text ≡ none
  unfolding replace_match replace_artifact
  replace_match-artifact text name c e = ground (arith, e)

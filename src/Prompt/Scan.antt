-- ===== src/Prompt/Scan.antt =====
-- internal/vertexai/prompt/template.go: the variables of a simple template and the checks of its braces.
-- The two regular expressions are scanners, from left to right and without overlaps.
use adk_go.GoMap
use adk_go.GoMap.{GoMap}
use adk_go.Base.{
  List, Text, ℕ, Bool, Option, [], ◌∷◌, false, if◌then◌else◌, leb, none, some, true, ◌||◌, eqb, ltb,
  text_comparable, ◌&&◌, all, length, suc, ◌++◌, not, ◌-◌,
}

-- `[a-zA-Z_]` and `[a-zA-Z0-9_]`
abbrev pub starts_name : ℕ → Bool
starts_name c = (leb 97 c && leb c 122) || (leb 65 c && leb c 90) || eqb c 95

abbrev pub in_name : ℕ → Bool
in_name c = starts_name c || (leb 48 c && leb c 57)

-- `^[a-zA-Z_][a-zA-Z0-9_]*$`
abbrev pub is_name : Text → Bool
is_name [] = false
is_name (c ∷ s) = starts_name c && all in_name s

-- Outside of braces, or behind an opening brace with the text since.
pub data Mode : Type 0 where
  outside : Mode
  inside : Text → Mode

-- Whether the text behind a brace can go on with this character.
abbrev pub goes_on : Text → ℕ → Bool
goes_on [] c = starts_name c
goes_on (d ∷ s) c = in_name c

-- The matches of `\{([a-zA-Z_][a-zA-Z0-9_]*)\}`, by their group.
unfoldable pub variables_in : Mode → Text → List Text
variables_in mode [] = []
variables_in outside (c ∷ s) =
    let start = variables_in (inside []) s in
    let rest = variables_in outside s in if eqb c 123 then start else rest
variables_in (inside name) (c ∷ s) =
    let start = variables_in (inside []) s in
    let found = variables_in outside s in
    let longer = variables_in (inside (name ++ c ∷ [])) s in
    if eqb c 123
    then start
    else if eqb c 125
    then (if eqb (length name) 0 then found else name ∷ found)
    else if goes_on name c
    then longer
    else found

-- The loop of `extractSimpleVariables`, with the map `variableSet`.
unfoldable pub unique_from : GoMap Text Bool → List Text → List Text
unfolding GoMap.set
unique_from seen [] = []
unique_from seen (v ∷ vs) =
    let kept = v ∷ unique_from (GoMap.set v true seen) vs in
    let skipped = unique_from seen vs in elim (GoMap.get v seen) [ some true ↦ skipped | _ ↦ kept ]

-- `extractSimpleVariables`
unfoldable pub extract_simple_variables : Text → List Text
unfolding variables_in unique_from
extract_simple_variables text = unique_from [] (variables_in outside text)

pub data TemplateError : Type 0 where
  unmatched_closing : ℕ → TemplateError
  unmatched_opening empty_name : TemplateError
  invalid_name : Text → TemplateError

-- The loop over the braces, with the number of open ones and the position.
unfoldable pub check_braces : (depth position : ℕ) → Text → Option TemplateError
check_braces depth position [] = if ltb 0 depth then some unmatched_opening else none
check_braces depth position (c ∷ s) =
    let opened = check_braces (suc depth) (suc position) s in
    let closed = check_braces (depth - 1) (suc position) s in
    let rest = check_braces depth (suc position) s in
    if eqb c 123
    then opened
    else if eqb c 125
    then (if eqb depth 0 then some (unmatched_closing position) else closed)
    else rest

-- The matches of `\{([^}]*)\}`, by their group.
unfoldable pub groups_in : Mode → Text → List Text
groups_in mode [] = []
groups_in outside (c ∷ s) =
    let start = groups_in (inside []) s in
    let rest = groups_in outside s in if eqb c 123 then start else rest
groups_in (inside name) (c ∷ s) =
    let found = groups_in outside s in
    let longer = groups_in (inside (name ++ c ∷ [])) s in if eqb c 125 then name ∷ found else longer

unfoldable pub check_names : List Text → Option TemplateError
check_names [] = none
check_names (n ∷ ns) =
    let rest = check_names ns in
    if eqb (length n) 0
    then some empty_name
    else if not (is_name n)
    then some (invalid_name n)
    else rest

-- `validateSimpleTemplate`
unfoldable pub validate_simple_template : Text → Option TemplateError
unfolding check_braces groups_in check_names
validate_simple_template text = elim (check_braces 0 0 text) [
  | some e ↦ some e
  | none ↦ check_names (groups_in outside text)
]

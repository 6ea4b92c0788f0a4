-- ===== src/Instructions.antt =====
-- flow/llmflow/instructions.go: putting the values of the session state into an instruction. Letters,
-- digits, the decoding of runes and `strings.TrimSpace` are parameters, and so are the text that `%v`
-- prints and the artifact service, whose errors are only told by `none`.
pub mod Repeats
use adk_go.State.{app_prefix, user_prefix, temp_prefix}
use adk_go.GoMap
use adk_go.GoMap.{GoMap}
use adk_go.Base.{
  List, Text, ℕ, Bool, Option, take, trim_prefix, ◌∷◌, codes, drop, false, if◌then◌else◌, none, ◌-◌,
  eqb, has_prefix, some, ◌++◌, ◌||◌, [], length, not, ◌&&◌, all, text_comparable, text_eq,
}

pub record Match : Type 0 where
  pub text : Text
  pub start : ℕ
  pub finish : ℕ

pub record Characters : Type 0 where
  pub is_letter : ℕ → Bool
  pub is_digit : ℕ → Bool
  pub runes : Text → List ℕ
  pub trim_space : Text → Text

-- What the template is filled from: the artifact service, if there is one, and the session state.
pub record Values (V A : Type 0) : Type 0 where
  pub state : GoMap Text V
  pub show : V → Text
  pub load : Option (Text → Option A)
  pub show_artifact : A → Text

-- `strings.TrimSuffix` and `strings.HasSuffix` for a suffix of one byte.
abbrev pub trim_last : ℕ → Text → Text
trim_last c [] = []
trim_last c (x ∷ []) = if eqb x c then [] else x ∷ []
trim_last c (x ∷ y ∷ s) = x ∷ trim_last c (y ∷ s)

abbrev pub ends_with : ℕ → Text → Bool
ends_with c [] = false
ends_with c (x ∷ []) = eqb x c
ends_with c (x ∷ y ∷ s) = ends_with c (y ∷ s)

-- `strings.Split(s, ":")`: the first part and the others.
abbrev pub split_colon : Text → Text × List Text
split_colon [] = ([], [])
split_colon (c ∷ s) =
    let (part, parts) = split_colon s in if eqb c 58 then ([], part ∷ parts) else (c ∷ part, parts)

-- `isIdentifier`; the first byte is taken for a rune.
unfoldable pub is_identifier : Characters → Text → Bool
is_identifier p [] = false
is_identifier p (c ∷ s) =
    (p.is_letter c || eqb c 95) && all (λ r. p.is_letter r || p.is_digit r || eqb r 95) (p.runes s)

-- `isValidStateName`
unfoldable pub is_valid_state_name : Characters → Text → Bool
unfolding is_identifier
is_valid_state_name p name =
    let (part, parts) = split_colon name in
    let prefix = part ++ codes ":" in
    elim parts [
      | [] ↦ is_identifier p name
      | rest ∷ [] ↦
          (text_eq app_prefix prefix || text_eq user_prefix prefix || text_eq temp_prefix prefix)
          && is_identifier p rest
      | rest ∷ more ∷ others ↦ false
    ]

-- The name between the braces, with its question mark.
abbrev pub raw_name : Characters → Text → Text
raw_name p text = p.trim_space (trim_prefix (trim_last 125 text) (codes "{"))

-- The name of the variable.
unfoldable pub variable_name : Characters → Text → Text
variable_name p text = trim_last 63 (raw_name p text)

module _ {V A : Type 0} where
  -- The branch of `replaceMatch` for an artifact.
  unfoldable pub replace_artifact : Values V A → Text → Option Text
  replace_artifact v name = elim v.load [
    | none ↦ none
    | some load ↦ elim (load name) [
      | none ↦ none
      | some a ↦ if eqb (length name) 0 then some (v.show_artifact a) else none
    ]
  ]

  -- `replaceMatch`
  unfoldable pub replace_match : Characters → Values V A → Text → Option Text
  unfolding replace_artifact is_valid_state_name variable_name
  replace_match p v text =
      let name = variable_name p text in
      if has_prefix name (codes "artifact.")
      then replace_artifact v (trim_prefix name (codes "artifact."))
      else if not (is_valid_state_name p name)
      then some text
      else elim (GoMap.get name v.state) [
        | some value ↦ some (v.show value)
        | none ↦ if ends_with 63 (raw_name p text) then some [] else none
      ]

-- `src[from:to]`, for bounds in order.
abbrev pub slice : Text → ℕ → ℕ → Text
slice src from to = take (to - from) (drop from src)

-- The loop of `sub`, from the end of the last match that was replaced: after an error it goes on with
-- the next match.
unfoldable pub substitute : (replace : Text → Option Text) → Text → ℕ → List Match → Text
substitute replace src last [] = drop last src
substitute replace src last (m ∷ ms) =
    let replaced = substitute replace src m.finish ms in
    let skipped = substitute replace src last ms in
    slice src last m.start
    ++ (elim (replace m.text) [ some text ↦ text ++ replaced | none ↦ skipped ])

-- `populateValues`, with the matches of the pattern in the template.
unfoldable pub populate_values :
    {V A : Type 0} → Characters → Values V A → (matches : Text → List Match) → Text → Text
unfolding replace_match substitute
populate_values p v matches template = substitute (replace_match p v) template 0 (matches template)

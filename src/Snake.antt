-- ===== src/Snake.antt =====
-- tool/tools/gemini_schema_util.go: `ToSnakeCase`, on the runes of the text. What package unicode tells of
-- a rune is a parameter.
pub mod Shape
use adk_go.Base.{
  ℕ, Bool, true, false, not, ◌&&◌, ◌||◌, Option, none, some, List, [], ◌∷◌, ◌++◌, eqb, length,
  if◌then◌else◌,
}

pub record Unicode : Type 0 where
  pub is_letter : ℕ → Bool
  pub is_digit : ℕ → Bool
  pub is_upper : ℕ → Bool
  pub is_lower : ℕ → Bool
  pub to_lower : ℕ → ℕ

-- The builder `result` and `lastWasUnderscore`.
pub record Builder : Type 0 where
  pub result : List ℕ
  pub after_underscore : Bool

abbrev pub underscore : ℕ
underscore = 95

abbrev pub is_empty : List ℕ → Bool
is_empty [] = true
is_empty (c ∷ s) = false

-- An underscore, unless it were the first rune or stood behind another one.
unfoldable pub separate : Builder → Builder
separate b =
    if not (is_empty b.result) && not b.after_underscore
    then record { result = b.result ++ underscore ∷ []; after_underscore = true }
    else b

abbrev pub write : ℕ → Builder → Builder
write r b = record { result = b.result ++ r ∷ []; after_underscore = false }

module _ (u : Unicode) where
  -- `unicode.IsLower(runes[i+1])`, where there is one.
  abbrev pub lower_next : List ℕ → Bool
  lower_next [] = false
  lower_next (r ∷ rs) = u.is_lower r

  -- `needsUnderscore`, with the rune before and those behind.
  unfoldable pub needs_underscore : Option ℕ → List ℕ → Bool
  needs_underscore none rs = false
  needs_underscore (some prev) rs =
      u.is_lower prev || u.is_digit prev || (u.is_upper prev && lower_next rs)

  -- The body of the loop.
  unfoldable pub take_rune : Option ℕ → ℕ → List ℕ → Builder → Builder
  unfolding separate needs_underscore
  take_rune prev r rs b =
      if u.is_letter r || u.is_digit r
      then (if u.is_upper r
          then write (u.to_lower r) (if needs_underscore prev rs then separate b else b)
          else write r b)
      else separate b

  unfoldable pub each_rune : Option ℕ → List ℕ → Builder → Builder
  unfolding take_rune
  each_rune prev [] b = b
  each_rune prev (r ∷ rs) b = each_rune (some r) rs (take_rune prev r rs b)

-- `strings.Trim(s, "_")`
unfoldable pub trim_left : List ℕ → List ℕ
trim_left [] = []
trim_left (c ∷ s) = if eqb c underscore then trim_left s else c ∷ s

unfoldable pub trim_right : List ℕ → List ℕ
trim_right [] = []
trim_right (c ∷ s) =
    let rest = trim_right s in if eqb c underscore && is_empty rest then [] else c ∷ rest

-- `ToSnakeCase`
unfoldable pub to_snake_case : Unicode → List ℕ → List ℕ
unfolding each_rune trim_left trim_right
to_snake_case u runes =
    trim_right
      (trim_left (each_rune u none runes (record { result = []; after_underscore = false })).result)

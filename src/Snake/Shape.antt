-- ===== src/Snake/Shape.antt =====
-- The shape of what `ToSnakeCase` returns (tool/tools/gemini_schema_util.go).
use adk_go.Snake.{
  Unicode, Builder, is_empty, underscore, separate, write, needs_underscore, take_rune, each_rune,
  trim_left, trim_right, to_snake_case,
}
use adk_go.Base.{
  ℕ, Bool, true, false, not, ◌&&◌, ◌||◌, Option, none, some, List, [], ◌∷◌, ◌++◌, eqb, eqb_iff,
  if◌then◌else◌, ◌≡◌, refl, ◌⊎◌, inl, inr, Bool-cases, arith,
}

-- What is behind a rune: whether it was an underscore, unless two of them are next to each other. At
-- the start `b` is true, so that an underscore is no first rune.
abbrev pub scan : Bool → List ℕ → Option Bool
scan b [] = some b
scan b (c ∷ s) =
    let after = scan true s in
    let other = scan false s in if eqb c underscore then (if b then none else after) else other

-- No underscore is first, last, or next to another one.
abbrev pub IsSnake : List ℕ → Type 0
IsSnake s = (s ≡ []) ⊎ (scan true s ≡ some false)

scan-append_underscore :
    (b : Bool) (s : List ℕ) → scan b s ≡ some false → scan b (s ++ underscore ∷ []) ≡ some true
scan-append_underscore b [] h = ground arith
scan-append_underscore b (c ∷ s) h =
    ground (arith, scan-append_underscore true s, scan-append_underscore false s)

scan-append_other :
    (b : Bool) (s : List ℕ) (c : ℕ) (e : Bool)
    → eqb c underscore ≡ false
    → scan b s ≡ some e
    → scan b (s ++ c ∷ []) ≡ some false
scan-append_other b [] c e other h = ground arith
scan-append_other b (d ∷ s) c e other h =
    ground (arith, scan-append_other true s c e other, scan-append_other false s c e other)

-- The builder is clean, and knows whether its last rune is an underscore.
abbrev IsClean : Builder → Type 0
IsClean b = scan true b.result ≡ some (b.after_underscore || is_empty b.result)

clear : (a e : Bool) → not e && not a ≡ true → a || e ≡ false
clear false false h = refl
clear true false h = absurd (cc)
clear false true h = absurd (cc)
clear true true h = absurd (cc)

append-is_empty : (s : List ℕ) (c : ℕ) → is_empty (s ++ c ∷ []) ≡ false
append-is_empty [] c = refl
append-is_empty (d ∷ s) c = refl

separate-IsClean : (b : Builder) → IsClean b → IsClean (separate b)
unfolding separate
separate-IsClean b h =
    let fits = not (is_empty b.result) && not b.after_underscore in
    elim (Bool-cases fits) [
      | inl holds ↦ rw holds (
          scan-append_underscore true b.result
            (cc (h, clear b.after_underscore (is_empty b.result) holds)))
      | inr fails ↦ rw fails h
    ]

write-IsClean : (r : ℕ) (b : Builder) → eqb r underscore ≡ false → IsClean b → IsClean (write r b)
write-IsClean r b other h =
    rw (append-is_empty b.result r)
      (scan-append_other true b.result r (b.after_underscore || is_empty b.result) other h)

scan-trim_right :
    (b e : Bool) (s : List ℕ)
    → scan b s ≡ some e
    → (trim_right s ≡ []) ⊎ (scan b (trim_right s) ≡ some false)
unfolding trim_right
scan-trim_right b e [] h = inl refl
scan-trim_right b e (c ∷ s) h = ground (arith, scan-trim_right true e s, scan-trim_right false e s)

trim_left-clean : (e : Bool) (s : List ℕ) → scan true s ≡ some e → trim_left s ≡ s
unfolding trim_left
trim_left-clean e [] h = refl
trim_left-clean e (c ∷ s) h = ground arith

either-IsClean : (c : Bool) (b : Builder) → IsClean b → IsClean (if c then separate b else b)
either-IsClean true b h = separate-IsClean b h
either-IsClean false b h = h

module _ (u : Unicode) where
  -- An underscore is no letter and no digit, and no letter or digit is lowered to it.
  pub record IsSound : Type 0 where
    pub no_letter : u.is_letter underscore ≡ false
    pub no_digit : u.is_digit underscore ≡ false
    pub lowers :
        (r : ℕ) → u.is_letter r || u.is_digit r ≡ true → eqb (u.to_lower r) underscore ≡ false

  other_rune : IsSound → (r : ℕ) → u.is_letter r || u.is_digit r ≡ true → eqb r underscore ≡ false
  other_rune sound r h = elim (Bool-cases (eqb r underscore)) [
    | inr fails ↦ fails
    | inl holds ↦
        let same = (eqb_iff r underscore).0 holds in
        absurd (cc (same, sound.no_letter, sound.no_digit, h))
  ]

  take_rune-IsClean :
      IsSound
      → (prev : Option ℕ) (r : ℕ) (rs : List ℕ) (b : Builder) → IsClean b
      → IsClean (take_rune u prev r rs b)
  unfolding take_rune
  take_rune-IsClean sound prev r rs b h = elim (Bool-cases (u.is_letter r || u.is_digit r)) [
    | inr fails ↦ rw fails (separate-IsClean b h)
    | inl holds ↦ elim (Bool-cases (u.is_upper r)) [
      | inr low ↦ rw (holds, low) (write-IsClean r b (other_rune sound r holds) h)
      | inl up ↦
          rw (holds, up)
            (write-IsClean (u.to_lower r) (if needs_underscore u prev rs then separate b else b)
              (sound.lowers r holds) (either-IsClean (needs_underscore u prev rs) b h))
    ]
  ]

  each_rune-IsClean :
      IsSound
      → (prev : Option ℕ) (rs : List ℕ) (b : Builder) → IsClean b
      → IsClean (each_rune u prev rs b)
  unfolding each_rune
  each_rune-IsClean sound prev [] b h = h
  each_rune-IsClean sound prev (r ∷ rs) b h =
      each_rune-IsClean sound (some r) rs (take_rune u prev r rs b)
        (take_rune-IsClean sound prev r rs b h)

  -- Whatever the text, no underscore is the first or the last rune of what `ToSnakeCase` returns, and
  -- no two are next to each other, if an underscore is no letter and no digit and no letter or digit is
  -- lowered to it.
  pub to_snake_case-IsSnake : IsSound → (runes : List ℕ) → IsSnake (to_snake_case u runes)
  unfolding to_snake_case
  to_snake_case-IsSnake sound runes =
      let b = each_rune u none runes (record { result = []; after_underscore = false }) in
      let clean =
        each_rune-IsClean sound none runes (record { result = []; after_underscore = false })
          refl in
      rw (trim_left-clean (b.after_underscore || is_empty b.result) b.result clean)
        (scan-trim_right true (b.after_underscore || is_empty b.result) b.result clean)

-- ===== src/Prompt/Missing.antt =====
-- What applying a simple template reports (internal/vertexai/prompt/template.go).
use adk_go.Prompt.Apply.{
  apply_each, apply_simple_variables, Progress, ValidationMode, is_strict, is_set, apply_one,
}
use adk_go.Prompt.Scan.{extract_simple_variables}
use adk_go.GoMap
use adk_go.GoMap.{GoMap, keys}
use adk_go.GoMap.Laws.{get-set}
use adk_go.Base.{
  refl, Bool, Text, List, not, any, text_comparable, ◌≡◌, keep, ◌++◌, ◌==◌, ◌||◌, arith, sym, ◌&&◌,
  ◌∷◌, Option-cases, [], append-nil, inl, inr, if◌then◌else◌, ltb, none, append_assoc, length, some,
  ap, true,
}

keep-cong :
    {A : Type 0} (p q : A → Bool) (xs : List A) → ((x : A) → p x ≡ q x) → keep p xs ≡ keep q xs
keep-cong p q [] h = refl
keep-cong p q (x ∷ xs) h = ground (arith, h x, keep-cong p q xs h)

module _ {V : Type 0} (show : V → Text) (variables : GoMap Text V) where
  abbrev pub lacks : Text → Bool
  lacks v = not (GoMap.has v variables)

  -- The variable is in the template and has a value.
  abbrev pub is_applied : List Text → Text → Bool
  is_applied vs key = any (λ v. (v == key) && GoMap.has v variables) vs

  each-missing :
      (vs : List Text) (p : Progress V)
      → (apply_each show variables vs p).missing ≡ p.missing ++ keep lacks vs
  unfolding apply_each
  each-missing [] p = sym (append-nil p.missing)
  each-missing (v ∷ vs) p = elim (Option-cases (GoMap.get v variables)) [
    | inl none_there ↦ ground (
      arith,
      none_there,
      each-missing vs (apply_one show v none p),
      append_assoc p.missing (v ∷ []) (keep lacks vs),
    )
    | inr (value, there) ↦ ground (arith, there, each-missing vs (apply_one show v (some value) p))
  ]

  each-used :
      (vs : List Text) (p : Progress V) (key : Text)
      → is_set key (apply_each show variables vs p).used ≡ is_set key p.used || is_applied vs key
  unfolding apply_each
  each-used [] p key = ground arith
  each-used (v ∷ vs) p key = elim (Option-cases (GoMap.get v variables)) [
    | inl none_there ↦ ground (arith, none_there, each-used vs (apply_one show v none p) key)
    | inr (value, there) ↦ ground (
      arith,
      there,
      each-used vs (apply_one show v (some value) p) key,
      get-set v key true p.used,
    )
  ]

  -- Whatever the mode: the missing variables are those of the template that have no value, in the order
  -- of the template; the unused ones are the names of the values that the template does not mention; and
  -- there is an error, which is the missing variables, just in strict mode and when some are missing.
  pub apply_simple_variables_lem :
      (mode : ValidationMode) (text : Text)
      → let vs = extract_simple_variables text in
        let (r, e) = apply_simple_variables show mode text variables in
        (r.missing_variables ≡ keep lacks vs)
        × (r.unused_variables ≡ keep (λ key. not (is_applied vs key)) (keys variables))
        × (e ≡ (
            if is_strict mode && ltb 0 (length (keep lacks vs))
            then some (keep lacks vs)
            else none))
  unfolding apply_simple_variables GoMap.get
  apply_simple_variables_lem mode text =
      let vs = extract_simple_variables text in
      let start : Progress V = record { result = text; applied = []; used = []; missing = [] } in
      let missing = each-missing vs start in
      (
        missing,
        keep-cong _ _ (keys variables) (λ key. ap not (each-used vs start key)),
        ap (λ ms. if is_strict mode && ltb 0 (length ms) then some ms else none) missing,
      )

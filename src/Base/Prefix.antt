-- ===== src/Base/Prefix.antt =====
-- Byte strings: literals, prefixes and `strings.TrimPrefix`.
use Prim.Native.Char.{code}
use Prim.Native.String.{String}
use mathlib.Core.Path.{◌≡◌, refl}
use mathlib.Core.Bool.{true, false, ◌&&◌, Bool}
use mathlib.Core.Logic.{inl, inr}
use mathlib.Core.List.{List, [], ◌∷◌, ◌++◌}
use native.Mathlib.Omega.{arith}
use adk_go.Base.Tests.{eqb, if◌then◌else◌, Bool-cases}
use adk_go.Base.Equality.{Text, text_eq, text_eq_iff}
use adk_go.Base.Lists.{length, drop}

-- The bytes of an ASCII literal.
abbrev pub codes : String → Text
codes String.[] = []
codes (String.◌∷◌ c s) = code c ∷ codes s

-- `strings.HasPrefix(s, prefix)`, with its arguments in Go's order.
abbrev pub has_prefix : Text → Text → Bool
has_prefix s [] = true
has_prefix [] (p ∷ ps) = false
has_prefix (c ∷ s) (p ∷ ps) = eqb c p && has_prefix s ps

abbrev pub trim_prefix : Text → Text → Text
trim_prefix s p = if has_prefix s p then drop (length p) s else s

pub has_prefix-append : (p s : Text) → has_prefix (p ++ s) p ≡ true
has_prefix-append [] s = refl
has_prefix-append (c ∷ p) s = ground (arith, has_prefix-append p s)

pub drop-append {ℓ} : {A : Type ℓ} (p s : List A) → drop (length p) (p ++ s) ≡ s
drop-append [] s = refl
drop-append (c ∷ p) s = drop-append p s

trim_prefix-append : (p s : Text) → trim_prefix (p ++ s) p ≡ s
trim_prefix-append p s = rw has_prefix-append (drop-append p s)

-- A text with a prefix is the prefix and what `TrimPrefix` leaves.
append-trim_prefix : (s p : Text) → has_prefix s p ≡ true → p ++ trim_prefix s p ≡ s
append-trim_prefix s [] h = refl
append-trim_prefix [] (c ∷ p) h = cc
append-trim_prefix (d ∷ s) (c ∷ p) h = ground (arith, append-trim_prefix s p)

pub append_cancel : (p s t : Text) → p ++ s ≡ p ++ t → s ≡ t
append_cancel [] s t h = h
append_cancel (c ∷ p) s t h = append_cancel p s t (cc)

-- The test by which a prefixed key is read: the rest is `k` exactly when the key is the prefix and
-- then `k`.
pub trimmed-eq :
    (s p k : Text) → (has_prefix s p && text_eq (trim_prefix s p) k) ≡ text_eq s (p ++ k)
trimmed-eq s p k = elim (Bool-cases (has_prefix s p)) [
  | inl inside ↦ ground (
    arith,
    inside,
    append-trim_prefix s p,
    append_cancel p (trim_prefix s p) k,
    text_eq_iff (trim_prefix s p) k,
    text_eq_iff s (p ++ k),
  )
  | inr outside ↦ ground (arith, outside, has_prefix-append p k, text_eq_iff s (p ++ k))
]

-- ===== src/GoMap.antt =====
-- Go's built-in map over comparable keys: an association list, whose order is the order in which
-- `range` visits the entries. A map that the program can build has distinct keys (`Distinct`).
pub mod Laws
use adk_go.Base.{
  ℕ, ◌≡◌, Bool, true, false, Option, none, some, List, [], ◌∷◌, map, Comparable, ◌==◌,
  if◌then◌else◌, is_some, length,
}

abbrev pub GoMap {ℓ κ} : Type ℓ → Type κ → Type (ℓ ⊔ κ)
GoMap K V = List (K × V)

module _ {ℓ κ} {K : Type ℓ} {V : Type κ} ⦃e : Comparable K⦄ where
  -- `v, ok := m[k]`
  unfoldable pub get : K → GoMap K V → Option V
  get k [] = none
  get k ((j, v) ∷ m) = if j == k then some v else get k m

  -- `_, ok := m[k]`
  abbrev pub has : K → GoMap K V → Bool
  has k m = is_some (get k m)

  -- `m[k] = v`
  unfoldable pub set : K → V → GoMap K V → GoMap K V
  set k v [] = (k, v) ∷ []
  set k v ((j, w) ∷ m) = if j == k then (k, v) ∷ m else (j, w) ∷ set k v m

  -- `delete(m, k)`
  unfoldable pub delete : K → GoMap K V → GoMap K V
  delete k [] = []
  delete k ((j, w) ∷ m) = let rest = delete k m in if j == k then rest else (j, w) ∷ rest

  -- `maps.Copy(dst, src)`
  unfoldable pub copy : GoMap K V → GoMap K V → GoMap K V
  unfolding set
  copy dst [] = dst
  copy dst ((k, v) ∷ src) = copy (set k v dst) src

  abbrev pub Distinct : GoMap K V → Type κ
  Distinct [] = Unit
  Distinct ((k, v) ∷ m) = (get k m ≡ none) × Distinct m

abbrev pub keys {ℓ κ} : {K : Type ℓ} {V : Type κ} → GoMap K V → List K
keys = map (λ e. e.0)

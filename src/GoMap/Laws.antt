-- ===== src/GoMap/Laws.antt =====
-- What reads of a Go map return after each operation, and its keys.
use adk_go.Base.{
  ◌≤◌, ◌<◌, ◌≡◌, refl, true, none, some, [], ◌∷◌, arith, Comparable, ◌==◌, ==_iff, if◌then◌else◌,
  length, or_else, ◌+◌,
}
use adk_go.GoMap.{GoMap, get, has, set, delete, copy, Distinct}

module _ {ℓ κ} {K : Type ℓ} {V : Type κ} ⦃e : Comparable K⦄ where
  pub get-nil : (k : K) → get {V = V} k [] ≡ none
  unfolding get
  get-nil k = refl

  pub get-set :
      (k j : K) (v : V) (m : GoMap K V) → get j (set k v m) ≡ (if k == j then some v else get j m)
  unfolding get set
  get-set k j v [] = refl
  get-set k j v ((i, w) ∷ m) = ground (arith, ==_iff k j, ==_iff i k, ==_iff i j, get-set k j v m)

  pub get-delete :
      (k j : K) (m : GoMap K V) → get j (delete k m) ≡ (if k == j then none else get j m)
  unfolding get delete
  get-delete k j [] = ground arith
  get-delete k j ((i, w) ∷ m) = ground (arith, ==_iff k j, ==_iff i k, ==_iff i j, get-delete k j m)

  pub set-Distinct : (k : K) (v : V) (m : GoMap K V) → Distinct m → Distinct (set k v m)
  unfolding get set
  set-Distinct k v [] d = (refl, tt)
  set-Distinct k v ((i, w) ∷ m) d =
      ground (arith, ==_iff i k, ==_iff k i, get-set k i v m, set-Distinct k v m d.1)

  pub delete-Distinct : (k : K) (m : GoMap K V) → Distinct m → Distinct (delete k m)
  unfolding get delete
  delete-Distinct k [] d = tt
  delete-Distinct k ((i, w) ∷ m) d =
      ground (arith, ==_iff k i, get-delete k i m, delete-Distinct k m d.1)

  pub copy-Distinct : (m n : GoMap K V) → Distinct m → Distinct (copy m n)
  unfolding copy
  copy-Distinct m [] d = d
  copy-Distinct m ((k, v) ∷ n) d = copy-Distinct (set k v m) n (set-Distinct k v m d)

  -- The copied entries win.
  pub get-copy :
      (k : K) (m n : GoMap K V) → Distinct n → get k (copy m n) ≡ or_else (get k n) (get k m)
  unfolding get copy
  get-copy k m [] d = refl
  get-copy k m ((j, v) ∷ n) d =
      ground (arith, get-copy k (set j v m) n d.1, get-set j k v m, ==_iff j k)

  length-delete-le : (k : K) (m : GoMap K V) → length (delete k m) ≤ length m
  unfolding delete
  length-delete-le k [] = omega arith
  length-delete-le k ((i, w) ∷ m) = ground (arith, length-delete-le k m)

  -- Deleting a key that is there makes the map smaller.
  pub length-delete-lt : (k : K) (m : GoMap K V) → has k m ≡ true → length (delete k m) < length m
  unfolding get delete
  length-delete-lt k [] h = cc
  length-delete-lt k ((i, w) ∷ m) h = ground (arith, length-delete-le k m, length-delete-lt k m)

  -- A write adds at most one entry.
  pub length-set-le : (k : K) (v : V) (m : GoMap K V) → length (set k v m) ≤ length m + 1
  unfolding set
  length-set-le k v [] = omega arith
  length-set-le k v ((i, w) ∷ m) = ground (arith, length-set-le k v m)

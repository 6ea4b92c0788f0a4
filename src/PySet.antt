-- ===== src/PySet.antt =====
-- pkg/py/set.go: `Set[T]`, a Go map to the empty struct. A method that changes its receiver returns
-- the new set; what it returns beside that is the same set.
pub mod Membership
pub mod Equality
pub mod Invariant
use adk_go.Base.{
  ℕ, zero, suc, Bool, true, false, not, ◌&&◌, Option, none, some, List, [], ◌∷◌, ◌++◌, map,
  Comparable, if◌then◌else◌, ltb, eqb, length, any, all,
}
use adk_go.GoMap
use adk_go.GoMap.{GoMap, keys}

-- `Empty`
pub record Empty : Type 0 where

abbrev pub empty_struct : Empty
empty_struct = record {}

abbrev pub Set {ℓ} : Type ℓ → Type ℓ
Set T = GoMap T Empty

abbrev pub len {ℓ} : {T : Type ℓ} → Set T → ℕ
len s = length s

module _ {ℓ} {T : Type ℓ} ⦃e : Comparable T⦄ where
  -- `s.Insert(items...)`
  unfoldable pub insert : Set T → List T → Set T
  insert s [] = s
  insert s (item ∷ items) = insert (GoMap.set item empty_struct s) items

  -- `NewSet(items...)`
  unfoldable pub new_set : List T → Set T
  unfolding insert
  new_set items = insert [] items

  -- `KeySet(theMap)`
  unfoldable pub key_set {κ} : {V : Type κ} → GoMap T V → Set T
  unfolding insert
  key_set the_map = insert [] (keys the_map)

  -- `s.Delete(items...)`
  unfoldable pub delete : Set T → List T → Set T
  delete s [] = s
  delete s (item ∷ items) = delete (GoMap.delete item s) items

  -- `s.Has(item)`
  abbrev pub has : Set T → T → Bool
  has s item = GoMap.has item s

  -- `s.HasAll(items...)`
  unfoldable has_all : Set T → List T → Bool
  has_all s items = all (has s) items

  -- `s.HasAny(items...)`
  unfoldable has_any : Set T → List T → Bool
  has_any s items = any (has s) items

  -- `s.Clone()`
  unfoldable pub clone : Set T → Set T
  unfolding insert
  clone s = insert [] (keys s)

  -- The loop of `Difference` over the keys of `s1`.
  unfoldable pub difference_from : Set T → Set T → List T → Set T
  unfolding insert
  difference_from s2 result [] = result
  difference_from s2 result (key ∷ rest) =
      difference_from s2 (if not (has s2 key) then insert result (key ∷ []) else result) rest

  -- `s1.Difference(s2)`
  unfoldable pub difference : Set T → Set T → Set T
  unfolding difference_from new_set
  difference s1 s2 = difference_from s2 (new_set []) (keys s1)

  -- `s1.Union(s2)`
  unfoldable pub union : Set T → Set T → Set T
  unfolding clone insert
  union s1 s2 = insert (clone s1) (keys s2)

  -- `s1.SymmetricDifference(s2)`
  unfoldable pub symmetric_difference : Set T → Set T → Set T
  unfolding difference union
  symmetric_difference s1 s2 = union (difference s1 s2) (difference s2 s1)

  -- The loop of `Intersection` over the keys of `walk`.
  unfoldable pub intersection_from : Set T → Set T → List T → Set T
  unfolding insert
  intersection_from other result [] = result
  intersection_from other result (key ∷ rest) =
      intersection_from other (if has other key then insert result (key ∷ []) else result) rest

  -- `s1.Intersection(s2)`: walks the smaller set.
  unfoldable pub intersection : Set T → Set T → Set T
  unfolding intersection_from new_set
  intersection s1 s2 =
      if ltb (len s1) (len s2)
      then intersection_from s2 (new_set []) (keys s1)
      else intersection_from s1 (new_set []) (keys s2)

  -- `s1.IsSuperset(s2)`
  unfoldable pub is_superset : Set T → Set T → Bool
  is_superset s1 s2 = all (has s1) (keys s2)

  -- `s1.Equal(s2)`
  unfoldable pub equal : Set T → Set T → Bool
  unfolding is_superset
  equal s1 s2 = eqb (len s1) (len s2) && is_superset s1 s2

  -- `s.PopAny()`: the new set, and the key if there was one.
  unfoldable pub pop_any : Set T → Set T × Option T
  unfolding delete
  pop_any [] = ([], none)
  pop_any ((key, v) ∷ s) = (delete ((key, v) ∷ s) (key ∷ []), some key)

  -- `s.Clear()`
  unfoldable clear : Set T → Set T
  clear s = []

  -- `s.UnsortedList()`
  unfoldable pub unsorted_list : Set T → List T
  unsorted_list s = keys s

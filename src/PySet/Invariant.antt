-- ===== src/PySet/Invariant.antt =====
-- The keys of the map behind a set (pkg/py/set.go), and `PopAny`.
use adk_go.Base.{
  ◌≡◌, refl, inl, inr, true, not, ◌&&◌, Option, some, none, List, [], ◌∷◌, arith, Comparable,
  ==_iff, ◌==◌, Bool-cases,
}
use adk_go.GoMap
use adk_go.GoMap.{GoMap, keys, Distinct}
use adk_go.GoMap.Laws.{set-Distinct, delete-Distinct}
use adk_go.PySet.{
  empty_struct, Set, insert, delete, clone, has, difference_from, difference, union,
  intersection_from, intersection, pop_any,
}
use adk_go.PySet.Membership.{has-delete}

module _ {ℓ} {T : Type ℓ} ⦃e : Comparable T⦄ where
  insert-Distinct : (s : Set T) (items : List T) → Distinct s → Distinct (insert s items)
  unfolding insert
  insert-Distinct s [] d = d
  insert-Distinct s (y ∷ items) d =
      insert-Distinct (GoMap.set y empty_struct s) items (set-Distinct y empty_struct s d)

  delete_items-Distinct : (s : Set T) (items : List T) → Distinct s → Distinct (delete s items)
  unfolding delete
  delete_items-Distinct s [] d = d
  delete_items-Distinct s (y ∷ items) d =
      delete_items-Distinct (GoMap.delete y s) items (delete-Distinct y s d)

  difference_from-Distinct :
      (s2 result : Set T) (items : List T)
      → Distinct result
      → Distinct (difference_from s2 result items)
  unfolding difference_from
  difference_from-Distinct s2 result [] d = d
  difference_from-Distinct s2 result (k ∷ items) d = elim (Bool-cases (has s2 k)) [
    | inl inside ↦ rw inside (difference_from-Distinct s2 result items d)
    | inr outside ↦ rw outside (
        difference_from-Distinct s2 (insert result (k ∷ [])) items
          (insert-Distinct result (k ∷ []) d))
  ]

  intersection_from-Distinct :
      (other result : Set T) (items : List T)
      → Distinct result
      → Distinct (intersection_from other result items)
  unfolding intersection_from
  intersection_from-Distinct other result [] d = d
  intersection_from-Distinct other result (k ∷ items) d = elim (Bool-cases (has other k)) [
    | inl inside ↦ rw inside (
        intersection_from-Distinct other (insert result (k ∷ [])) items
          (insert-Distinct result (k ∷ []) d))
    | inr outside ↦ rw outside (intersection_from-Distinct other result items d)
  ]

  difference-Distinct : (s1 s2 : Set T) → Distinct (difference s1 s2)
  unfolding difference
  difference-Distinct s1 s2 = difference_from-Distinct s2 [] (keys s1) tt

  union-Distinct : (s1 s2 : Set T) → Distinct (union s1 s2)
  unfolding union
  union-Distinct s1 s2 = insert-Distinct (clone s1) (keys s2) (insert-Distinct [] (keys s1) tt)

  intersection-Distinct : (s1 s2 : Set T) → Distinct (intersection s1 s2)
  unfolding intersection
  intersection-Distinct s1 s2 = ground (
    arith,
    intersection_from-Distinct s2 [] (keys s1) tt,
    intersection_from-Distinct s1 [] (keys s2) tt,
  )

  abbrev pub IsPopped : Set T → Set T × Option T → Type ℓ
  IsPopped s (rest, none) = (s ≡ []) × (rest ≡ [])
  IsPopped s (rest, some k) = (has s k ≡ true) × ((x : T) → has rest x ≡ (has s x && not (k == x)))

  -- `PopAny` of any set: it returns no key exactly from the empty set, and otherwise a member of
  -- the set, which is the one member that the set then lacks.
  pub pop_any-IsPopped : (s : Set T) → IsPopped s (pop_any s)
  unfolding pop_any GoMap.get
  pop_any-IsPopped [] = (refl, refl)
  pop_any-IsPopped ((k, v) ∷ s) =
      (ground (arith, ==_iff k k), λ x. ground (arith, has-delete ((k, v) ∷ s) (k ∷ []) x))

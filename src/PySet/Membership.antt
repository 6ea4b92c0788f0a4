-- ===== src/PySet/Membership.antt =====
-- What `Has` answers after each operation of a set.
use adk_go.Base.{
  ◌≡◌, refl, inl, inr, Bool, not, ◌&&◌, ◌||◌, List, [], ◌∷◌, arith, Comparable, ◌==◌, ==_iff, ◌∙◌,
  Bool-cases, any,
}
use adk_go.GoMap
use adk_go.GoMap.{GoMap, keys}
use adk_go.GoMap.Laws.{get-set, get-delete}
use adk_go.PySet.{
  empty_struct, Set, insert, new_set, key_set, delete, has, clone, difference_from, difference,
  union, symmetric_difference, intersection_from, intersection,
}

module _ {ℓ} {T : Type ℓ} ⦃e : Comparable T⦄ where
  -- Membership in a slice.
  abbrev contains : T → List T → Bool
  contains x items = any (λ y. y == x) items

  has-set : (s : Set T) (y x : T) → has (GoMap.set y empty_struct s) x ≡ (has s x || (y == x))
  has-set s y x = rw get-set (ground arith)

  has-delete_one : (s : Set T) (y x : T) → has (GoMap.delete y s) x ≡ (has s x && not (y == x))
  has-delete_one s y x = rw get-delete (ground arith)

  pub has-insert :
      (s : Set T) (items : List T) (x : T) → has (insert s items) x ≡ (has s x || contains x items)
  unfolding insert
  has-insert s [] x = ground arith
  has-insert s (y ∷ items) x =
      ground (arith, has-insert (GoMap.set y empty_struct s) items x, has-set s y x)

  pub has-delete :
      (s : Set T) (items : List T) (x : T)
      → has (delete s items) x ≡ (has s x && not (contains x items))
  unfolding delete
  has-delete s [] x = ground arith
  has-delete s (y ∷ items) x =
      ground (arith, has-delete (GoMap.delete y s) items x, has-delete_one s y x)

  has-keys {κ} : {V : Type κ} (m : GoMap T V) (x : T) → contains x (keys m) ≡ GoMap.has x m
  unfolding GoMap.get
  has-keys [] x = refl
  has-keys ((k, v) ∷ m) x = ground (arith, has-keys m x)

  has-difference_from :
      (s2 result : Set T) (items : List T) (x : T)
      → has (difference_from s2 result items) x
        ≡ (has result x || (contains x items && not (has s2 x)))
  unfolding difference_from
  has-difference_from s2 result [] x = ground arith
  has-difference_from s2 result (k ∷ items) x = elim (Bool-cases (has s2 k)) [
    | inl inside ↦ rw inside (ground (arith, has-difference_from s2 result items x, ==_iff k x))
    | inr outside ↦ rw outside (
        ground (
          arith,
          has-difference_from s2 (insert result (k ∷ [])) items x,
          has-insert result (k ∷ []) x,
          ==_iff k x,
        ))
  ]

  has-intersection_from :
      (other result : Set T) (items : List T) (x : T)
      → has (intersection_from other result items) x
        ≡ (has result x || (contains x items && has other x))
  unfolding intersection_from
  has-intersection_from other result [] x = ground arith
  has-intersection_from other result (k ∷ items) x = elim (Bool-cases (has other k)) [
    | inl inside ↦ rw inside (
        ground (
          arith,
          has-intersection_from other (insert result (k ∷ [])) items x,
          has-insert result (k ∷ []) x,
          ==_iff k x,
        ))
    | inr outside ↦
        rw outside (ground (arith, has-intersection_from other result items x, ==_iff k x))
  ]

  pub has-new_set : (items : List T) (x : T) → has (new_set items) x ≡ contains x items
  unfolding new_set GoMap.get
  has-new_set items x = has-insert [] items x

  -- A cloned set has the members of the original.
  has-clone : (s : Set T) (x : T) → has (clone s) x ≡ has s x
  unfolding clone GoMap.get
  has-clone s x = has-insert [] (keys s) x ∙ has-keys s x

  -- The members of `KeySet(m)` are the keys of the map.
  has-key_set {κ} : {V : Type κ} (m : GoMap T V) (x : T) → has (key_set m) x ≡ GoMap.has x m
  unfolding key_set GoMap.get
  has-key_set m x = has-insert [] (keys m) x ∙ has-keys m x

  -- The members of a difference are those of the first set that the second one lacks.
  has-difference : (s1 s2 : Set T) (x : T) → has (difference s1 s2) x ≡ (has s1 x && not (has s2 x))
  unfolding difference GoMap.get
  has-difference s1 s2 x = ground (arith, has-difference_from s2 [] (keys s1) x, has-keys s1 x)

  -- The members of a union are those of either set.
  has-union : (s1 s2 : Set T) (x : T) → has (union s1 s2) x ≡ (has s1 x || has s2 x)
  unfolding union
  has-union s1 s2 x =
      ground (arith, has-insert (clone s1) (keys s2) x, has-clone s1 x, has-keys s2 x)

  -- The members of a symmetric difference are those of exactly one set.
  pub has-symmetric_difference :
      (s1 s2 : Set T) (x : T)
      → has (symmetric_difference s1 s2) x
        ≡ ((has s1 x && not (has s2 x)) || (has s2 x && not (has s1 x)))
  unfolding symmetric_difference
  has-symmetric_difference s1 s2 x = ground (
    arith,
    has-union (difference s1 s2) (difference s2 s1) x,
    has-difference s1 s2 x,
    has-difference s2 s1 x,
  )

  -- The members of an intersection are those of both sets, whichever set the loop walks.
  pub has-intersection :
      (s1 s2 : Set T) (x : T) → has (intersection s1 s2) x ≡ (has s1 x && has s2 x)
  unfolding intersection GoMap.get
  has-intersection s1 s2 x = ground (
    arith,
    has-intersection_from s2 [] (keys s1) x,
    has-intersection_from s1 [] (keys s2) x,
    has-keys s1 x,
    has-keys s2 x,
  )

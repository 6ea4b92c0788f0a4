-- ===== src/PySet/Equality.antt =====
-- `IsSuperset` and `Equal` (pkg/py/set.go) against membership.
use adk_go.Base.{
  ◌≤◌, ◌≡◌, refl, ◌↔◌, inl, inr, true, false, [], ◌∷◌, arith, Comparable, ==_iff, Bool-cases, all,
}
use adk_go.GoMap
use adk_go.GoMap.{keys, Distinct}
use adk_go.GoMap.Laws.{get-delete, length-delete-lt}
use adk_go.PySet.{Empty, Set, len, has, is_superset, equal}

module _ {ℓ} {T : Type ℓ} ⦃e : Comparable T⦄ where
  abbrev Subset : Set T → Set T → Type ℓ
  Subset s t = (x : T) → has s x ≡ true → has t x ≡ true

  has-of-all :
      (s : Set T) (items : Set T) (x : T)
      → all (has s) (keys items) ≡ true
      → has items x ≡ true
      → has s x ≡ true
  unfolding GoMap.get
  has-of-all s [] x h m = cc
  has-of-all s ((k, v) ∷ r) x h m = ground (arith, ==_iff k x, has-of-all s r x)

  Subset-tail : (k : T) (v : Empty) (r s : Set T) → Subset ((k, v) ∷ r) s → Subset r s
  unfolding GoMap.get
  Subset-tail k v r s h x m = ground (arith, h x, ==_iff k x)

  head-has : (k : T) (v : Empty) (r : Set T) → has ((k, v) ∷ r) k ≡ true
  unfolding GoMap.get
  head-has k v r = ground (arith, ==_iff k k)

  all-of-has : (s items : Set T) → Distinct items → Subset items s → all (has s) (keys items) ≡ true
  unfolding GoMap.get
  all-of-has s [] d h = refl
  all-of-has s ((k, v) ∷ r) d h =
      ground (arith, head-has k v r, h k, all-of-has s r d.1 (Subset-tail k v r s h))

  -- `IsSuperset` decides inclusion.
  is_superset_iff : (s1 s2 : Set T) → Distinct s2 → (is_superset s1 s2 ≡ true) ↔ Subset s2 s1
  unfolding is_superset
  is_superset_iff s1 s2 d = (λ h x m. has-of-all s1 s2 x h m, all-of-has s1 s2 d)

  -- Removing the head of a distinct list leaves an inclusion in the set without that key.
  Subset-delete : (k : T) (r s : Set T) → has r k ≡ false → Subset r s → Subset r (GoMap.delete k s)
  Subset-delete k r s out h x m = ground (arith, get-delete k x s, h x m, ==_iff k x)

  length-le-of-Subset : (s t : Set T) → Distinct s → Subset s t → len s ≤ len t
  length-le-of-Subset [] t d h = omega arith
  length-le-of-Subset ((k, v) ∷ r) t d h =
      let rest =
        length-le-of-Subset r (GoMap.delete k t) d.1
          (Subset-delete k r t (ground (arith, d.0)) (Subset-tail k v r t h)) in
      omega (arith, rest, length-delete-lt k t (h k (head-has k v r)))

  Subset-of-equal : (s1 s2 : Set T) → Distinct s2 → len s1 ≡ len s2 → Subset s2 s1 → Subset s1 s2
  Subset-of-equal s1 s2 d same h x m = elim (Bool-cases (has s2 x)) [
    | inl inside ↦ inside
    | inr outside ↦ absurd (
        omega (
          arith,
          same,
          length-delete-lt x s1 m,
          length-le-of-Subset s2 (GoMap.delete x s1) d (Subset-delete x s2 s1 outside h),
        ))
  ]

  same-of-both : (s1 s2 : Set T) → Subset s1 s2 → Subset s2 s1 → (x : T) → has s1 x ≡ has s2 x
  same-of-both s1 s2 to from x = elim (Bool-cases (has s1 x)) [
    | inl inside ↦ ground (arith, inside, to x inside)
    | inr outside ↦ ground (arith, outside, from x)
  ]

  equal_sound : (s1 s2 : Set T) → Distinct s2 → equal s1 s2 ≡ true → (x : T) → has s1 x ≡ has s2 x
  unfolding equal
  equal_sound s1 s2 d h =
      let sub = (is_superset_iff s1 s2 d).0 (ground arith) in
      same-of-both s1 s2 (Subset-of-equal s1 s2 d (ground arith) sub) sub

  equal_complete :
      (s1 s2 : Set T)
      → Distinct s1
      → Distinct s2
      → ((x : T) → has s1 x ≡ has s2 x)
      → equal s1 s2 ≡ true
  unfolding equal
  equal_complete s1 s2 d1 d2 h =
      let to : Subset s1 s2 = λ x m. cc (h x, m) in
      let from : Subset s2 s1 = λ x m. cc (h x, m) in
      ground (
        arith,
        length-le-of-Subset s1 s2 d1 to,
        length-le-of-Subset s2 s1 d2 from,
        (is_superset_iff s1 s2 d2).1 from,
      )

  -- For sets with distinct keys, `Equal` returns true exactly when both have the same members.
  pub equal_iff :
      (s1 s2 : Set T)
      → Distinct s1
      → Distinct s2
      → (equal s1 s2 ≡ true) ↔ ((x : T) → has s1 x ≡ has s2 x)
  equal_iff s1 s2 d1 d2 = (equal_sound s1 s2 d2, equal_complete s1 s2 d1 d2)

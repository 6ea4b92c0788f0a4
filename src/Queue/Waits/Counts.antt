-- ===== src/Queue/Waits/Counts.antt =====
-- How many goroutines wait on a condition variable or have been woken by it, and how an effect changes
-- these numbers.
use adk_go.Queue.Waits.{waits_on, woken_by, wake, wake_any, Signalled, Settled}
use adk_go.Queue.Goroutine.{
  Condition, not_empty, not_full, all_tasks_done, same_condition, Goroutine, woken, Effect, quiet,
  signals, broadcasts, broadcasts_all, condition_of,
}
use adk_go.Base.{
  ℕ, ◌+◌, ◌≤◌, ◌<◌, ◌≡◌, ◌⊎◌, inl, inr, refl, Bool, true, false, List, [], ◌∷◌, ◌++◌, map, any,
  arith, Bool-cases, ap,
}

abbrev pub bit : Bool → ℕ
bit true = 1
bit false = 0

-- The effect wakes a waiter of the condition variable, or all of them.
abbrev pub raises : Effect → Condition → Bool
raises quiet c = false
raises (signals d) c = same_condition d c
raises (broadcasts d) c = same_condition d c
raises broadcasts_all c = true

abbrev pub clears : Effect → Condition → Bool
clears quiet c = false
clears (signals d) c = false
clears (broadcasts d) c = same_condition d c
clears broadcasts_all c = true

same_condition-third :
    (e d c : Condition) → same_condition e d ≡ true → same_condition e c ≡ same_condition d c
same_condition-third not_empty not_empty c h = refl
same_condition-third not_empty not_full c h = cc
same_condition-third not_empty all_tasks_done c h = cc
same_condition-third not_full not_empty c h = cc
same_condition-third not_full not_full c h = refl
same_condition-third not_full all_tasks_done c h = cc
same_condition-third all_tasks_done not_empty c h = cc
same_condition-third all_tasks_done not_full c h = cc
same_condition-third all_tasks_done all_tasks_done c h = refl

same_condition-eq : (d c : Condition) → same_condition d c ≡ true → d ≡ c
same_condition-eq not_empty not_empty h = refl
same_condition-eq not_empty not_full h = cc
same_condition-eq not_empty all_tasks_done h = cc
same_condition-eq not_full not_empty h = cc
same_condition-eq not_full not_full h = refl
same_condition-eq not_full all_tasks_done h = cc
same_condition-eq all_tasks_done not_empty h = cc
same_condition-eq all_tasks_done not_full h = cc
same_condition-eq all_tasks_done all_tasks_done h = refl

module _ {ℓ} {T : Type ℓ} where
  abbrev pub count : (Goroutine T → Bool) → List (Goroutine T) → ℕ
  count p [] = 0
  count p (g ∷ gs) = bit (p g) + count p gs

  abbrev pub waiters : Condition → List (Goroutine T) → ℕ
  waiters c gs = count (waits_on c) gs

  abbrev pub awake : Condition → List (Goroutine T) → ℕ
  awake c gs = count (woken_by c) gs

  pub count-replaced :
      (p : Goroutine T → Bool) (pre post : List (Goroutine T)) (g g' : Goroutine T)
      → count p (pre ++ g' ∷ post) + bit (p g) ≡ count p (pre ++ g ∷ post) + bit (p g')
  count-replaced p [] post g g' = omega arith
  count-replaced p (h ∷ pre) post g g' = omega (arith, count-replaced p pre post g g')

  count-none :
      (p : Goroutine T → Bool) (gs : List (Goroutine T)) → any p gs ≡ false → count p gs ≡ 0
  count-none p [] h = refl
  count-none p (g ∷ gs) h = ground (arith, count-none p gs)

  pub count_pos :
      (p : Goroutine T → Bool) (gs : List (Goroutine T))
      → 0 < count p gs
      → (pre post : List (Goroutine T)) × (g : Goroutine T) × (gs ≡ pre ++ g ∷ post) × (p g ≡ true)
  count_pos p [] h = absurd (omega arith)
  count_pos p (g ∷ gs) h = elim (Bool-cases (p g)) [
    | inl yes_g ↦ ([], gs, g, refl, yes_g)
    | inr no_g ↦
        let (pre, post, x, e, found) = count_pos p gs (ground arith) in
        (g ∷ pre, post, x, ap (λ l. g ∷ l) e, found)
  ]

  wake-bits :
      (c d : Condition) (g : Goroutine T)
      → (bit (waits_on c (wake d g)) + bit (woken_by c (wake d g))
          ≡ bit (waits_on c g) + bit (woken_by c g))
        × (bit (waits_on c (wake d g)) ≤ bit (waits_on c g))
        × ((same_condition d c ≡ false) ⊎ (bit (waits_on c (wake d g)) ≡ 0))
  unfolding wake
  wake-bits c d g = ground (arith, same_condition-third (condition_of g.request) d c)

  wake_any-bits :
      (c : Condition) (g : Goroutine T)
      → (bit (waits_on c (wake_any g)) + bit (woken_by c (wake_any g))
          ≡ bit (waits_on c g) + bit (woken_by c g))
        × (bit (waits_on c (wake_any g)) ≡ 0)
  unfolding wake_any
  wake_any-bits c g = ground arith

  -- What an effect does to the two numbers of a condition variable.
  abbrev pub Shifted : Effect → Condition → List (Goroutine T) → List (Goroutine T) → Type 0
  Shifted e c gs after =
      (waiters c after + awake c after ≡ waiters c gs + awake c gs)
      × (waiters c after ≤ waiters c gs)
      × ((raises e c ≡ false) ⊎ (waiters c gs ≡ 0) ⊎ (waiters c after < waiters c gs))
      × ((clears e c ≡ false) ⊎ (waiters c after ≡ 0))

  map-wake :
      (c d : Condition) (gs : List (Goroutine T))
      → (waiters c (map (wake d) gs) + awake c (map (wake d) gs) ≡ waiters c gs + awake c gs)
        × (waiters c (map (wake d) gs) ≤ waiters c gs)
        × ((same_condition d c ≡ false) ⊎ (waiters c (map (wake d) gs) ≡ 0))
  map-wake c d [] = (refl, omega arith, inr refl)
  map-wake c d (g ∷ gs) = ground (arith, wake-bits c d g, map-wake c d gs)

  map-wake_any :
      (c : Condition) (gs : List (Goroutine T))
      → (waiters c (map wake_any gs) + awake c (map wake_any gs) ≡ waiters c gs + awake c gs)
        × (waiters c (map wake_any gs) ≡ 0)
  map-wake_any c [] = (refl, refl)
  map-wake_any c (g ∷ gs) = ground (arith, wake_any-bits c g, map-wake_any c gs)

  woken-bits :
      (c d : Condition) (g : Goroutine T)
      → waits_on d g ≡ true
      → (bit (woken_by c g) ≡ 0)
        × (bit (waits_on c (record g { phase = woken })) ≡ 0)
        × (bit (woken_by c (record g { phase = woken })) ≡ bit (waits_on c g))
        × (bit (waits_on c g) ≡ bit (same_condition d c))
  woken-bits c d g h = ground (arith, same_condition-third (condition_of g.request) d c)

  waiters-none :
      (d c : Condition) (gs : List (Goroutine T))
      → any (waits_on d) gs ≡ false
      → (same_condition d c ≡ false) ⊎ (waiters c gs ≡ 0)
  waiters-none d c gs h = elim (Bool-cases (same_condition d c)) [
    | inl same ↦ inr (rw (← same_condition-eq d c same) (count-none (waits_on d) gs h))
    | inr other ↦ inl other
  ]

  Signalled-Shifted :
      (d c : Condition) (gs after : List (Goroutine T))
      → Signalled d gs after
      → Shifted (signals d) c gs after
  Signalled-Shifted d c gs after (inl (nobody, same)) =
      rw same (ground (arith, waiters-none d c gs nobody))
  Signalled-Shifted d c gs after (inr (pre, post, g, at, waits, same)) =
      rw (at, same)
        (ground (
          arith,
          count-replaced (waits_on c) pre post g (record g { phase = woken }),
          count-replaced (woken_by c) pre post g (record g { phase = woken }),
          woken-bits c d g waits,
        ))

  pub Settled-Shifted :
      (e : Effect) (c : Condition) (gs after : List (Goroutine T))
      → Settled e gs after
      → Shifted e c gs after
  Settled-Shifted quiet c gs after s = rw s (refl, omega arith, inl refl, inl refl)
  Settled-Shifted (signals d) c gs after s = Signalled-Shifted d c gs after s
  Settled-Shifted (broadcasts d) c gs after s = rw s (ground (arith, map-wake c d gs))
  Settled-Shifted broadcasts_all c gs after s = rw s (ground (arith, map-wake_any c gs))

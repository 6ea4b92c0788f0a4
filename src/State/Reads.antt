-- ===== src/State/Reads.antt =====
-- What reads of a session state return after each operation.
use adk_go.Base.{
  ◌≡◌, refl, none, some, [], ◌∷◌, arith, Text, ==_iff, ◌==◌, if◌then◌else◌, or_else,
  text_comparable, Option, false, is_some,
}
use adk_go.GoMap
use adk_go.GoMap.{GoMap, Distinct}
use adk_go.GoMap.Laws.{get-set, get-copy, get-nil, set-Distinct, copy-Distinct}
use adk_go.State.{
  get_with_default, has, has_delta, clear_delta, apply_delta, new_state, State, get, set, update,
  to_map,
}

abbrev get_or_value : {V : Type 0} → Option V → V → V
get_or_value none d = d
get_or_value (some v) d = v

module _ {V : Type 0} where
  -- The two maps have distinct keys, and each pending entry is also the committed one.
  pub record IsCoherent (s : State V) : Type 0 where
    pub value_distinct : Distinct s.value
    pub delta_distinct : Distinct s.delta
    pub pending :
        (k : Text) → or_else (GoMap.get k s.delta) (GoMap.get k s.value) ≡ GoMap.get k s.value

  get-eq-or_else :
      (s : State V) (k : Text) → get s k ≡ or_else (GoMap.get k s.delta) (GoMap.get k s.value)
  unfolding get
  get-eq-or_else s k = ground arith

  -- Reading after a write returns the value written, and what was there at any other key.
  pub get-set-eq :
      (s : State V) (k j : Text) (v : V) → get (set s k v) j ≡ (if k == j then some v else get s j)
  unfolding get set
  get-set-eq s k j v = ground (arith, get-set k j v s.value, get-set k j v s.delta)

  -- Reading after `Update` with a map of distinct keys returns the entry of that map, or else what
  -- was there.
  pub get-update :
      (s : State V) (u : GoMap Text V) (k : Text)
      → Distinct u
      → get (update s u) k ≡ or_else (GoMap.get k u) (get s k)
  unfolding update GoMap.get
  get-update s [] k d = refl
  get-update s ((j, v) ∷ u) k d =
      ground (arith, get-update (set s j v) u k d.1, get-set-eq s j k v, ==_iff j k)

  -- Where both maps have distinct keys, `ToMap` agrees with `Get` at every key.
  pub get-to_map :
      (s : State V) (k : Text)
      → Distinct s.value
      → Distinct s.delta
      → GoMap.get k (to_map s) ≡ get s k
  unfolding to_map
  get-to_map s k dv dd = ground (
    arith,
    get-copy k (GoMap.copy [] s.value) s.delta dd,
    get-copy k [] s.value dv,
    get-eq-or_else s k,
    get-nil {V = V} k,
  )

  -- `Has` is true exactly where `Get` finds a value, and `GetWithDefault` is `Get` with the default
  -- for a missing key.
  has_and_default :
      (s : State V) (k : Text) (d : V)
      → (has s k ≡ is_some (get s k)) × (get_with_default s k d ≡ get_or_value (get s k) d)
  unfolding has get get_with_default
  has_and_default s k d = (ground arith, ground arith)

  set-IsCoherent : {s : State V} (k : Text) (v : V) → IsCoherent s → IsCoherent (set s k v)
  unfolding set
  set-IsCoherent {s} k v c = record {
    value_distinct = set-Distinct k v s.value c.value_distinct;
    delta_distinct = set-Distinct k v s.delta c.delta_distinct;
    pending = λ j. ground (arith, get-set k j v s.value, get-set k j v s.delta, c.pending j);
  }

  update-IsCoherent : (s : State V) (u : GoMap Text V) → IsCoherent s → IsCoherent (update s u)
  unfolding update
  update-IsCoherent s [] c = c
  update-IsCoherent s ((k, v) ∷ u) c = update-IsCoherent (set s k v) u (set-IsCoherent k v c)

  clear_delta-IsCoherent : {s : State V} → IsCoherent s → IsCoherent (clear_delta s)
  unfolding clear_delta
  clear_delta-IsCoherent {s} c = record {
    value_distinct = c.value_distinct;
    delta_distinct = tt;
    pending = λ k. rw get-nil;
  }

  apply_delta-IsCoherent : {s : State V} → IsCoherent s → IsCoherent (apply_delta s)
  unfolding apply_delta
  apply_delta-IsCoherent {s} c = record {
    value_distinct = copy-Distinct s.value s.delta c.value_distinct;
    delta_distinct = tt;
    pending = λ k. rw get-nil;
  }

  -- Every method that writes keeps a coherent state coherent.
  pub writes-IsCoherent :
      (s : State V) (k : Text) (v : V) (u : GoMap Text V)
      → IsCoherent s
      → IsCoherent (set s k v)
        × IsCoherent (update s u)
        × IsCoherent (clear_delta s)
        × IsCoherent (apply_delta s)
  writes-IsCoherent s k v u c = (
    set-IsCoherent k v c,
    update-IsCoherent s u c,
    clear_delta-IsCoherent c,
    apply_delta-IsCoherent c,
  )

  -- A state built from a map with no pending delta is coherent.
  pub new_state-IsCoherent : (m : GoMap Text V) → Distinct m → IsCoherent (new_state (some m) none)
  unfolding new_state
  new_state-IsCoherent m d = record {
    value_distinct = d;
    delta_distinct = tt;
    pending = λ k. rw get-nil;
  }

  -- `ApplyDelta` of a delta with distinct keys commits: every key reads as before, and nothing is
  -- pending.
  pub get-apply_delta :
      (s : State V) (k : Text)
      → Distinct s.delta
      → (get (apply_delta s) k ≡ get s k) × (has_delta (apply_delta s) ≡ false)
  unfolding apply_delta has_delta
  get-apply_delta s k d = (
    ground (
      arith,
      get-eq-or_else s k,
      get-eq-or_else (apply_delta s) k,
      get-copy k s.value s.delta d,
      get-nil {V = V} k,
    ),
    refl,
  )

  -- In a coherent state `ClearDelta` forgets what was pending and changes no read.
  pub get-clear_delta :
      (s : State V) (k : Text)
      → IsCoherent s
      → (get (clear_delta s) k ≡ get s k) × (has_delta (clear_delta s) ≡ false)
  unfolding clear_delta has_delta
  get-clear_delta s k c = (
    ground (
      arith,
      get-eq-or_else s k,
      get-eq-or_else (clear_delta s) k,
      c.pending k,
      get-nil {V = V} k,
    ),
    refl,
  )

-- ===== src/Registry/Resolve.antt =====
-- What `ResolveLLM` (model/registry.go) returns, and its cache.
use Prim.Native.Nat.{max}
use adk_go.GoMap
use adk_go.GoMap.Laws.{get-set, get-nil, length-set-le}
use adk_go.Registry.{Registry, register, first_match, remember, resolve}
use adk_go.Base.{
  Text, Bool, Option, length, ◌≡◌, Option-cases, Outcome, some, ◌≤◌, fail, if◌then◌else◌, inr, ok,
  text_comparable, arith, leb, model_not_found, [], inl, none, ==_iff, refl, Bool-cases, ◌==◌,
}

module _ {C : Type 0} (matches : Text → Text → Bool) where
  -- What is cached, if anything is, is what is found.
  abbrev pub IsCurrent : Option C → Option C → Type 0
  IsCurrent none found = Unit
  IsCurrent (some c) found = found ≡ some c

  -- Each cached creator is the one that the entries give now.
  abbrev pub IsCoherent : Registry C → Type 0
  IsCoherent r =
      (name : Text) → IsCurrent (GoMap.get name r.model_cache) (first_match matches r.registry name)

  abbrev found_or_fail : Text → Option C → Outcome C
  found_or_fail name none = fail (model_not_found name)
  found_or_fail name (some c) = ok c

  remember-IsCoherent :
      (r : Registry C) (name : Text) (c : C)
      → IsCoherent r
      → first_match matches r.registry name ≡ some c
      → IsCoherent (remember matches r name c)
  unfolding remember
  remember-IsCoherent r name c h found other =
      let old = if leb r.cache_size (length r.model_cache) then [] else r.model_cache in
      rw (get-set name other c old) (elim (Bool-cases (name == other)) [
        | inl same ↦ rw same (ground (arith, same, ==_iff name other, found))
        | inr apart ↦ rw apart (elim (Bool-cases (leb r.cache_size (length r.model_cache))) [
          | inl full ↦ rw (full, get-nil {V = C} other) tt
          | inr room ↦ rw room (h other)
        ])
      ])

  -- On a coherent registry `ResolveLLM` returns the creator of the first entry whose pattern matches,
  -- or the error that the model is not found if there is none; it changes no entry, and the registry
  -- stays coherent.
  pub resolve_lem :
      (r : Registry C) (name : Text)
      → IsCoherent r
      → ((resolve matches r name).1 ≡ found_or_fail name (first_match matches r.registry name))
        × ((resolve matches r name).0.registry ≡ r.registry)
        × IsCoherent (resolve matches r name).0
  unfolding resolve
  resolve_lem r name h = elim (Option-cases (GoMap.get name r.model_cache)) [
    | inr (c, hit) ↦ rw (hit, resolve) (ground (arith, rw hit at (h name)), refl, h)
    | inl miss ↦ elim (Option-cases (first_match matches r.registry name)) [
      | inl nothing ↦ rw (miss, nothing, resolve) (refl, refl, h)
      | inr (c, found) ↦
          rw (miss, found, resolve)
            (refl, unfold remember in refl, remember-IsCoherent r name c h found)
    ]
  ]

  remember-bound :
      (r : Registry C) (name : Text) (c : C)
      → length r.model_cache ≤ max 1 r.cache_size
      → length (remember matches r name c).model_cache ≤ max 1 r.cache_size
  unfolding remember
  remember-bound r name c h =
      ground (arith, length-set-le name c [], length-set-le name c r.model_cache)

  -- A cache that holds at most its size, or one entry if its size is zero, still does after
  -- `ResolveLLM`.
  pub resolve-cache_bound :
      (r : Registry C) (name : Text)
      → length r.model_cache ≤ max 1 r.cache_size
      → length (resolve matches r name).0.model_cache ≤ max 1 (resolve matches r name).0.cache_size
  unfolding resolve
  resolve-cache_bound r name h = elim (Option-cases (GoMap.get name r.model_cache)) [
    | inr (c, hit) ↦ rw (hit, resolve) h
    | inl miss ↦ elim (Option-cases (first_match matches r.registry name)) [
      | inl nothing ↦ rw (miss, nothing, resolve) h
      | inr (c, found) ↦ rw (miss, found, resolve) (remember-bound r name c h)
    ]
  ]

  -- What is cached for a name is returned whatever is registered after it: registering does not
  -- touch the cache.
  pub resolve-register :
      (compiles : Text → Bool) (r : Registry C) (name pattern : Text) (old new : C)
      → GoMap.get name r.model_cache ≡ some old
      → (resolve matches (register compiles r pattern new) name).1 ≡ ok old
  unfolding resolve register
  resolve-register compiles r name pattern old new h = ground arith

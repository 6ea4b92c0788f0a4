-- ===== src/Registry.antt =====
-- model/registry.go: the registry of model patterns and its cache. Whether a pattern compiles and
-- whether it matches a name is up to Go's `regexp`, and is given by the arguments `compiles` and
-- `matches`; a creator function is a value of the parameter `C`, never nil. `ResolveLLM` takes its
-- lock three times, and is one step here: no other call comes between its parts.
pub mod Resolve
use adk_go.GoMap
use adk_go.GoMap.{GoMap}
use adk_go.Base.{
  List, Text, ℕ, Bool, [], ◌∷◌, Option, Outcome, if◌then◌else◌, leb, none, some, ◌==◌, length, ok,
  text_comparable, fail, model_not_found,
}

pub record ModelEntry (C : Type 0) : Type 0 where
  pub pattern : Text
  pub creator : C

pub record Registry (C : Type 0) : Type 0 where
  pub registry : List (ModelEntry C)
  pub cache_size : ℕ
  pub model_cache : GoMap Text C

module _ {C : Type 0} where
  -- `NewLLMRegistry(cacheSize)`
  unfoldable new_registry : ℕ → Registry C
  new_registry cache_size = record { registry = []; cache_size = cache_size; model_cache = [] }

  -- The loop of `RegisterLLM` that updates the entry of the pattern, or else the entry at the end.
  unfoldable put_entry : List (ModelEntry C) → Text → C → List (ModelEntry C)
  put_entry [] pattern creator = record { pattern = pattern; creator = creator } ∷ []
  put_entry (e ∷ es) pattern creator =
      if e.pattern == pattern
      then record e { creator = creator } ∷ es
      else e ∷ put_entry es pattern creator

  module _ (compiles : Text → Bool) where
    -- `RegisterLLM`
    unfoldable pub register : Registry C → Text → C → Registry C
    unfolding put_entry
    register r pattern creator =
        if compiles pattern then record r { registry = put_entry r.registry pattern creator } else r

    -- The loop of `RegisterLLMType`, on the registry that it is given.
    unfoldable register_type : Registry C → List Text → C → Registry C
    unfolding register
    register_type r [] creator = r
    register_type r (pattern ∷ patterns) creator =
        register_type (register r pattern creator) patterns creator

  module _ (matches : Text → Text → Bool) where
    -- The loop of `ResolveLLM` over the entries.
    unfoldable pub first_match : List (ModelEntry C) → Text → Option C
    first_match [] name = none
    first_match (e ∷ es) name =
        if matches e.pattern name then some e.creator else first_match es name

    -- The cache after a miss: a full cache is cleared first.
    unfoldable pub remember : Registry C → Text → C → Registry C
    remember r name creator =
        let old = if leb r.cache_size (length r.model_cache) then [] else r.model_cache in
        record r { model_cache = GoMap.set name creator old }

    -- `ResolveLLM`
    unfoldable pub resolve : Registry C → Text → Registry C × Outcome C
    unfolding first_match remember
    resolve r name = elim (GoMap.get name r.model_cache) [
      | some creator ↦ (r, ok creator)
      | none ↦ elim (first_match r.registry name) [
        | none ↦ (r, fail (model_not_found name))
        | some creator ↦ (remember r name creator, ok creator)
      ]
    ]

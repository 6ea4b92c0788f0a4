-- ===== src/State.antt =====
-- types/session_state.go: the session state with its uncommitted delta. A value of Go's type `any`
-- is a value of the parameter `V`; a nil map passed to `NewState` is `none`. Each method holds the
-- mutex for its whole body, so a call is one step.
pub mod Reads
pub mod Prefixes
use adk_go.Base.{
  Bool, true, false, ◌||◌, Option, none, some, List, [], ◌∷◌, ◌++◌, Text, codes, ltb, length,
  or_else, text_comparable,
}
use adk_go.GoMap
use adk_go.GoMap.{GoMap}

abbrev pub app_prefix : Text
app_prefix = codes "app:"

abbrev pub user_prefix : Text
user_prefix = codes "user:"

abbrev pub temp_prefix : Text
temp_prefix = codes "temp:"

pub record State (V : Type 0) : Type 0 where
  pub value : GoMap Text V
  pub delta : GoMap Text V

-- A nil map is replaced by an empty one.
abbrev pub or_empty {ℓ} : {V : Type ℓ} → Option (GoMap Text V) → GoMap Text V
or_empty none = []
or_empty (some m) = m

module _ {V : Type 0} where
  -- `NewState(value, delta)`
  unfoldable pub new_state : Option (GoMap Text V) → Option (GoMap Text V) → State V
  new_state value delta = record { value = or_empty value; delta = or_empty delta }

  -- `s.Get(key)`: the delta is read first.
  unfoldable pub get : State V → Text → Option V
  get s key = elim (GoMap.get key s.delta) [ some val ↦ some val | none ↦ GoMap.get key s.value ]

  -- `s.GetWithDefault(key, defaultVal)`
  unfoldable pub get_with_default : State V → Text → V → V
  get_with_default s key default = elim (GoMap.get key s.delta) [
    | some val ↦ val
    | none ↦ elim (GoMap.get key s.value) [ some val ↦ val | none ↦ default ]
  ]

  -- `s.Set(key, val)`
  unfoldable pub set : State V → Text → V → State V
  set s key val = record { value = GoMap.set key val s.value; delta = GoMap.set key val s.delta }

  -- `s.Has(key)`
  unfoldable pub has : State V → Text → Bool
  has s key = GoMap.has key s.value || GoMap.has key s.delta

  -- `s.HasDelta()`
  unfoldable pub has_delta : State V → Bool
  has_delta s = ltb 0 (length s.delta)

  -- `s.Update(update)`
  unfoldable pub update : State V → GoMap Text V → State V
  unfolding set
  update s [] = s
  update s ((k, v) ∷ rest) = update (set s k v) rest

  -- `s.ToMap()`: the values, with the delta laid over them.
  unfoldable pub to_map : State V → GoMap Text V
  to_map s = GoMap.copy (GoMap.copy [] s.value) s.delta

  -- `s.ClearDelta()`
  unfoldable pub clear_delta : State V → State V
  clear_delta s = record s { delta = [] }

  -- `s.GetDelta()`: a copy.
  unfoldable get_delta : State V → GoMap Text V
  get_delta s = GoMap.copy [] s.delta

  -- `s.ApplyDelta()`
  unfoldable pub apply_delta : State V → State V
  apply_delta s = record { value = GoMap.copy s.value s.delta; delta = [] }

  -- `s.GetApp(key)`, `s.SetApp(key, val)` and the two other pairs.
  unfoldable pub get_app : State V → Text → Option V
  unfolding get
  get_app s key = get s (app_prefix ++ key)

  unfoldable pub set_app : State V → Text → V → State V
  unfolding set
  set_app s key val = set s (app_prefix ++ key) val

  unfoldable pub get_user : State V → Text → Option V
  unfolding get
  get_user s key = get s (user_prefix ++ key)

  unfoldable pub set_user : State V → Text → V → State V
  unfolding set
  set_user s key val = set s (user_prefix ++ key) val

  unfoldable pub get_temp : State V → Text → Option V
  unfolding get
  get_temp s key = get s (temp_prefix ++ key)

  unfoldable pub set_temp : State V → Text → V → State V
  unfolding set
  set_temp s key val = set s (temp_prefix ++ key) val

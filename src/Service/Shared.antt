-- ===== src/Service/Shared.antt =====
-- The state that sessions share (session/in_memory_service.go): one entry of a committed delta, and
-- the entries that `mergeState` lays over a session.
use adk_go.Base.{
  [], ◌∷◌, none, some, Text, Option, ◌≡◌, or_else, ◌++◌, arith, has_prefix, false, trim_prefix,
  trimmed-eq, ==_iff, text_comparable, if◌then◌else◌, ◌==◌, ◌&&◌,
}
use adk_go.GoMap
use adk_go.GoMap.{GoMap, Distinct}
use adk_go.GoMap.Laws.{get-set, get-nil}
use adk_go.State.{app_prefix, user_prefix}
use adk_go.Service.{Service, inner, app_value, user_value, merge_entries, apply_entry}

-- What a map of unprefixed keys says of a prefixed key.
abbrev pub under : {V : Type 0} → Text → Text → GoMap Text V → Option V
under prefix key m = if has_prefix key prefix then GoMap.get (trim_prefix key prefix) m else none

-- A key behind the user prefix is not behind the app prefix.
not_app : (key k : Text) → key ≡ user_prefix ++ k → has_prefix key app_prefix ≡ false
not_app key k e = rw e

module _ {V : Type 0} where
  -- The merged entries win over those of the session.
  pub get-merge_entries :
      (prefix : Text) (target m : GoMap Text V) (key : Text)
      → Distinct m
      → GoMap.get key (merge_entries prefix target m)
        ≡ or_else (under prefix key m) (GoMap.get key target)
  unfolding merge_entries GoMap.get
  get-merge_entries prefix target [] key d =
      ground (arith, get-nil {V = V} (trim_prefix key prefix))
  get-merge_entries prefix target ((k, v) ∷ m) key d = ground (
    arith,
    get-merge_entries prefix (GoMap.set (prefix ++ k) v target) m key d.1,
    get-set (prefix ++ k) key v target,
    d.0,
    trimmed-eq key prefix k,
    ==_iff k (trim_prefix key prefix),
    ==_iff (trim_prefix key prefix) k,
    ==_iff (prefix ++ k) key,
    ==_iff key (prefix ++ k),
  )

  pub app_value-apply_entry :
      (s : Service V) (app user key : Text) (value : V) (app' k : Text)
      → app_value (apply_entry s app user key value) app' k
        ≡ (if (app == app') && (key == app_prefix ++ k) then some value else app_value s app' k)
  unfolding apply_entry app_value
  app_value-apply_entry s app user key value app' k =
      let t = trim_prefix key app_prefix in
      ground (
        arith,
        get-set app app' (GoMap.set t value (inner app s.app_state)) s.app_state,
        get-set t k value (inner app s.app_state),
        trimmed-eq key app_prefix k,
        ==_iff app app',
      )

  pub user_value-apply_entry :
      (s : Service V) (app user key : Text) (value : V) (app' user' k : Text)
      → user_value (apply_entry s app user key value) app' user' k ≡ (
          if (app == app') && (user == user') && (key == user_prefix ++ k)
          then some value
          else user_value s app' user' k)
  unfolding apply_entry user_value
  user_value-apply_entry s app user key value app' user' k =
      let t = trim_prefix key user_prefix in
      let users = inner app s.user_state in
      let values = inner user users in
      ground (
        arith,
        get-set app app' (GoMap.set user (GoMap.set t value values) users) s.user_state,
        get-set user user' (GoMap.set t value values) users,
        get-set t k value values,
        trimmed-eq key user_prefix k,
        not_app key k,
        ==_iff app app',
        ==_iff user user',
        ==_iff key (user_prefix ++ k),
      )

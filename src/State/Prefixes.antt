-- ===== src/State/Prefixes.antt =====
-- The three namespaces of the session state (types/session_state.go).
use adk_go.Base.{
  ◌≡◌, Text, ==_iff, ◌==◌, if◌then◌else◌, some, arith, ◌++◌, append_cancel, text_comparable,
}
use adk_go.State.{
  State, app_prefix, user_prefix, temp_prefix, get_app, set_app, get_user, set_user, get_temp,
  set_temp,
}
use adk_go.State.Reads.{get-set-eq}

module _ {V : Type 0} (s : State V) (k j : Text) (v : V) where
  same_key : (p : Text) → (p ++ k == p ++ j) ≡ (k == j)
  same_key p = ground (arith, ==_iff (p ++ k) (p ++ j), ==_iff k j, append_cancel p k j)

  -- A namespace returns the value last written to a key, and what was there at any other key.
  namespace_reads :
      (get_app (set_app s k v) j ≡ (if k == j then some v else get_app s j))
      × (get_user (set_user s k v) j ≡ (if k == j then some v else get_user s j))
      × (get_temp (set_temp s k v) j ≡ (if k == j then some v else get_temp s j))
  unfolding get_app set_app get_user set_user get_temp set_temp
  namespace_reads = (
    rw (get-set-eq, same_key app_prefix),
    rw (get-set-eq, same_key user_prefix),
    rw (get-set-eq, same_key temp_prefix),
  )

  -- A write to one namespace changes no read of another.
  pub namespaces_separate :
      (get_app (set_user s k v) j ≡ get_app s j)
      × (get_app (set_temp s k v) j ≡ get_app s j)
      × (get_user (set_app s k v) j ≡ get_user s j)
      × (get_user (set_temp s k v) j ≡ get_user s j)
      × (get_temp (set_app s k v) j ≡ get_temp s j)
      × (get_temp (set_user s k v) j ≡ get_temp s j)
  unfolding get_app set_app get_user set_user get_temp set_temp
  namespaces_separate =
      (rw get-set-eq, rw get-set-eq, rw get-set-eq, rw get-set-eq, rw get-set-eq, rw get-set-eq)

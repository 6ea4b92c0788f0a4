-- ===== src/Tests/States.antt =====
-- Runs of the session state.
use adk_go.GoMap
use adk_go.GoMap.{GoMap}
use adk_go.Tests.{prices}
use adk_go.State.{State, new_state, set, get, update, apply_delta, clear_delta}
use adk_go.State.Reads.{IsCoherent, get-set-eq, writes-IsCoherent, new_state-IsCoherent}
use adk_go.Base.{ℕ, ◌≡◌, refl, some, none, codes, [], ◌∷◌, text_comparable}

-- A committed entry under a pending one.
abbrev draft : State ℕ
draft = record {
  value = (codes "total", 5) ∷ (codes "tax", 1) ∷ [];
  delta = (codes "total", 6) ∷ [];
}

abbrev fresh : State ℕ
fresh = new_state (some prices) none

fresh-IsCoherent : IsCoherent fresh
unfolding GoMap.get
fresh-IsCoherent = new_state-IsCoherent prices (refl, (refl, (refl, (refl, tt))))

writes-IsCoherent_example :
    IsCoherent (set fresh (codes "tax") 2)
    × IsCoherent (update fresh prices)
    × IsCoherent (clear_delta fresh)
    × IsCoherent (apply_delta fresh)
writes-IsCoherent_example = writes-IsCoherent fresh (codes "tax") 2 prices fresh-IsCoherent

get-set-eq_example : get (set draft (codes "total") 9) (codes "total") ≡ some 9
get-set-eq_example = get-set-eq draft (codes "total") (codes "total") 9

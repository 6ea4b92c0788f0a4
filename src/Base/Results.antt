-- ===== src/Base/Results.antt =====
-- What a Go call comes to: results, a non-nil error, or a run-time panic (a nil pointer, a nil map
-- that is written, an index out of range, a failed type assertion).
use Prim.Native.Nat.{ℕ}
use mathlib.Core.Path.{◌≡◌, refl}
use mathlib.Core.Logic.{◌⊎◌, inl, inr}
use adk_go.Base.Equality.{Text}

-- The errors that the modelled code makes, by the place that makes them.
pub data Error : Type 0 where
  app_not_found : Text → Error
  user_not_found session_not_found : Text → Text → Error
  list_events_not_implemented : Error
  queue_closed queue_empty queue_full task_done_too_often cancelled : Error
  no_function_call_event no_response_event no_response_part : Error
  tool_not_found model_not_found : Text → Error
  result_is_no_map not_supported : Error
  agent_not_found : Text → Error
  nil_function group_finished llm_calls_limit_exceeded deadline_exceeded : Error
  -- An error of code that is not modelled, such as a tool, and one that a callback's index is put to.
  foreign : ℕ → Error
  in_callback : ℕ → Error → Error

pub data Outcome {ℓ} (A : Type ℓ) : Type ℓ where
  ok : A → Outcome A
  fail : Error → Outcome A
  panic : Outcome A

infixl 5 ◌>>=◌
abbrev pub ◌>>=◌ {ℓ κ} : {A : Type ℓ} {B : Type κ} → Outcome A → (A → Outcome B) → Outcome B
ok a >>= f = f a
fail e >>= f = fail e
panic >>= f = panic

pub Outcome-cases {ℓ} :
    {A : Type ℓ} (o : Outcome A)
    → ((a : A) × (o ≡ ok a)) ⊎ (((e : Error) × (o ≡ fail e)) ⊎ (o ≡ panic))
Outcome-cases (ok a) = inl (a, refl)
Outcome-cases (fail e) = inr (inl (e, refl))
Outcome-cases panic = inr (inr refl)

-- ===== src/Calls/Ids.antt =====
-- The IDs that the client gives to function calls.
use adk_go.GoMap
use adk_go.GoMap.{GoMap}
use adk_go.PySet
use adk_go.PySet.Membership.{has-insert, has-new_set}
use adk_go.Genai.{Part, Content, FunctionCall}
use adk_go.Event.{calls_of, responses_of}
use adk_go.Calls.{
  remove_from_part, remove_client_function_call_id, populate_parts, is_client_id,
  function_call_id_prefix, get_long_running_function_calls, long_running_from,
}
use adk_go.Base.{
  List, Text, ℕ, ◌≡◌, All, Option, if◌then◌else◌, map, some, Bool, [], text_eq, ◌∷◌, ◌≢◌, any,
  arith, none, refl, true, ◌||◌, false, ◌&&◌, ◌++◌, text_comparable, ◌==◌, ◌∙◌, suc, text_eq_iff,
  Option-cases, inl, inr, Bool-cases,
}

-- A client's ID is replaced by the empty one, and every other ID is kept.
abbrev without_client_id : Text → Text
without_client_id id = if is_client_id id then [] else id

module _ {V : Type 0} where
  abbrev pub call_ids : List (Part V) → List Text
  call_ids ps = map (λ c. c.id) (calls_of ps)

  abbrev pub response_ids : List (Part V) → List Text
  response_ids ps = map (λ r. r.id) (responses_of ps)

  call_ids-remove :
      (ps : List (Part V))
      → call_ids (map remove_from_part ps) ≡ map without_client_id (call_ids ps)
  unfolding calls_of remove_from_part
  call_ids-remove [] = refl
  call_ids-remove (p ∷ ps) = ground (arith, call_ids-remove ps)

  response_ids-remove :
      (ps : List (Part V))
      → response_ids (map remove_from_part ps) ≡ map without_client_id (response_ids ps)
  unfolding responses_of remove_from_part
  response_ids-remove [] = refl
  response_ids-remove (p ∷ ps) = ground (arith, response_ids-remove ps)

  -- `RemoveClientFunctionCallID` replaces the IDs that begin with `adk-` by the empty ID, in the
  -- function calls and the function responses, and keeps every other ID and their order.
  pub remove_client_function_call_id_lem :
      (c : Content V)
      → (call_ids (remove_client_function_call_id c).parts
          ≡ map without_client_id (call_ids c.parts))
        × (response_ids (remove_client_function_call_id c).parts
            ≡ map without_client_id (response_ids c.parts))
  unfolding remove_client_function_call_id
  remove_client_function_call_id_lem c = (call_ids-remove c.parts, response_ids-remove c.parts)

  -- The part has no ID of the client's.
  abbrev IsForeign : Part V → Type 0
  IsForeign p = remove_from_part p ≡ p

  stamped-removed :
      (p : Part V) (c : FunctionCall V) (u : Text)
      → p.function_call ≡ some c
      → text_eq c.id [] ≡ true
      → IsForeign p
      → remove_from_part
          (record p { function_call = some (record c { id = function_call_id_prefix ++ u }) })
        ≡ p
  unfolding remove_from_part
  stamped-removed p c u has_call no_id own = ground (arith, text_eq_iff c.id [])

  -- Every function call has an ID after `PopulateClientFunctionCallID`, and
  -- `RemoveClientFunctionCallID` then gives back the parts as they were, if none had a client's ID.
  pub remove-populate :
      (uuid : ℕ → Text) (n : ℕ) (ps : List (Part V))
      → All IsForeign ps
      → All (λ id. id ≢ []) (call_ids (populate_parts uuid n ps))
        × (map remove_from_part (populate_parts uuid n ps) ≡ ps)
  unfolding populate_parts calls_of
  remove-populate uuid n [] _ = (tt, refl)
  remove-populate uuid n (p ∷ ps) (own, rest) =
      let (named, back) = remove-populate uuid n ps rest in
      let (named', back') = remove-populate uuid (suc n) ps rest in
      elim (Option-cases p.function_call) [
        | inl no_call ↦
            rw (no_call, populate_parts, calls_of) (rw (no_call, calls_of) named, cc (own, back))
        | inr (c, has_call) ↦ elim (Bool-cases (text_eq c.id [])) [
          | inl no_id ↦
              rw (has_call, no_id, populate_parts, calls_of)
                ((cc, named'), cc (stamped-removed p c (uuid n) has_call no_id own, back'))
          | inr has_id ↦
              rw (has_call, has_id, populate_parts, calls_of)
                (
                  rw (has_call, calls_of) (ground (arith, text_eq_iff c.id []), named),
                  cc (own, back),
                )
        ]
      ]

  -- The tool of a call is known and long running.
  abbrev is_long_running : GoMap Text (Option Bool) → FunctionCall V → Bool
  is_long_running tools c = elim (GoMap.get c.name tools) [
    | none ↦ false
    | some none ↦ false
    | some (some long) ↦ long
  ]

  has-long_running_from :
      (tools : GoMap Text (Option Bool)) (ids : PySet.Set Text) (cs : List (FunctionCall V))
      (x : Text)
      → PySet.has (long_running_from tools ids cs) x
        ≡ (PySet.has ids x || any (λ c. is_long_running tools c && (c.id == x)) cs)
  unfolding long_running_from
  has-long_running_from tools ids [] x = ground arith
  has-long_running_from tools ids (c ∷ cs) x = ground (
    arith,
    has-long_running_from tools ids cs x,
    has-long_running_from tools (PySet.insert ids (c.id ∷ [])) cs x,
    has-insert ids (c.id ∷ []) x,
  )

  -- `GetLongRunningFunctionCalls` collects the IDs of the calls whose tool is known, not nil and long
  -- running, and no other.
  pub get_long_running_function_calls_lem :
      (cs : List (FunctionCall V)) (tools : GoMap Text (Option Bool)) (x : Text)
      → PySet.has (get_long_running_function_calls cs tools) x
        ≡ any (λ c. is_long_running tools c && (c.id == x)) cs
  unfolding get_long_running_function_calls
  get_long_running_function_calls_lem cs tools x =
      has-long_running_from tools (PySet.new_set []) cs x
      ∙ ground (arith, has-new_set {T = Text} [] x)

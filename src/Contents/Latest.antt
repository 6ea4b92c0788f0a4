-- ===== src/Contents/Latest.antt =====
-- What `rearrangeEventsForLatestFunctionResponse` (flow/llmflow/contents.go) returns.
use mathlib.Core.Path.{subst}
use mathlib.Core.List.{reverse}
use mathlib.Core.Option.{some-injective}
use adk_go.PySet.{Set, new_set}
use adk_go.PySet.Membership.{has-new_set}
use adk_go.Event.{
  Event, LlmResponse, content_of, parts_of, calls_of, responses_of, get_function_calls,
  get_function_responses,
}
use adk_go.Contents.Rearrange.{
  rearrange_for_latest, rearrange_responses, search_back, before_last, any_called, ids_of,
  note_calls,
}
use adk_go.Base.{
  List, Option, ℕ, Text, ◌≡◌, panic, ◌∷◌, [], refl, All, Bool, inl, ok, some, ◌⊎◌, Option-cases,
  any, arith, if◌then◌else◌, inr, last?, none, text_comparable, true, ◌==◌, false, length, drop,
}
use adk_go.Genai.{FunctionCall, FunctionResponse, Part}

module _ {V : Type 0} where
  call_cases :
      (e : Event V)
      → (get_function_calls e ≡ panic)
        ⊎ ((cs : List (FunctionCall V)) × (get_function_calls e ≡ ok cs))
  unfolding get_function_calls content_of
  call_cases e = elim (Option-cases e.llm_response) [
    | inl missing ↦ inl (ground (arith, missing))
    | inr (r, there) ↦ inr (calls_of (parts_of r.content), ground (arith, there))
  ]

  search_back-step :
      (e : Event V) (es : List (Event V)) (st : Option ℕ × Set Text)
      → ((st' : Option ℕ × Set Text) → search_back es st' ≡ panic)
      → search_back (e ∷ es) st ≡ panic
  unfolding search_back
  search_back-step e es st rest = elim (call_cases e) [
    | inl missing ↦ rw missing
    | inr (cs, there) ↦ rw (there, rest (note_calls (length es) cs st))
  ]

  search_back-panics : (es : List (Event V)) (st : Option ℕ × Set Text) → search_back es st ≡ panic
  search_back-panics [] st = unfold search_back in refl
  search_back-panics (e ∷ es) st = search_back-step e es st (search_back-panics es)

  -- The function calls and responses of an event, none where it has no response of the model.
  abbrev own_parts : Event V → List (Part V)
  own_parts e = elim e.llm_response [ none ↦ [] | some r ↦ parts_of r.content ]

  abbrev HasResponse : Event V → Type 0
  HasResponse e = (r : LlmResponse V) × (e.llm_response ≡ some r)

  -- A call of the one list has the ID of a response of the other.
  abbrev is_answered : List (FunctionCall V) → List (FunctionResponse V) → Bool
  is_answered cs rs = any (λ c. any (λ id. id == c.id) (ids_of rs)) cs

  -- The last event has no responses, or answers a call of the event before it.
  abbrev is_settled : List (Event V) → Bool
  is_settled events = elim (last? events) [
    | none ↦ true
    | some last ↦ elim (responses_of (own_parts last)) [
      | [] ↦ true
      | r ∷ rs ↦ elim (before_last events) [
        | none ↦ false
        | some previous ↦ is_answered (calls_of (own_parts previous)) (r ∷ rs)
      ]
    ]
  ]

  any_called-eq :
      (rs : List (FunctionResponse V)) (cs : List (FunctionCall V))
      → any_called (new_set (ids_of rs)) cs ≡ is_answered cs rs
  any_called-eq rs [] = refl
  any_called-eq rs (c ∷ cs) = rw (has-new_set (ids_of rs) c.id, any_called-eq rs cs)

  pub All-last :
      (P : Event V → Type 0) (es : List (Event V)) (e : Event V)
      → All P es
      → last? es ≡ some e
      → P e
  All-last P [] e h q = cc
  All-last P (x ∷ []) e (h, _) q = subst P (some-injective x e q) h
  All-last P (x ∷ y ∷ es) e (h, hs) q = All-last P (y ∷ es) e hs q

  All-before_last :
      (P : Event V → Type 0) (es : List (Event V)) (e : Event V)
      → All P es
      → before_last es ≡ some e
      → P e
  unfolding before_last
  All-before_last P [] e h q = cc
  All-before_last P (x ∷ []) e h q = cc
  All-before_last P (x ∷ y ∷ []) e (h, _) q = subst P (some-injective x e q) h
  All-before_last P (x ∷ y ∷ z ∷ es) e (h, hs) q = All-before_last P (y ∷ z ∷ es) e hs q

  responses_there :
      (e : Event V) → HasResponse e → get_function_responses e ≡ ok (responses_of (own_parts e))
  unfolding get_function_responses content_of
  responses_there e (r, there) = ground (arith, there)

  calls_there : (e : Event V) → HasResponse e → get_function_calls e ≡ ok (calls_of (own_parts e))
  unfolding get_function_calls content_of
  calls_there e (r, there) = ground (arith, there)

  rearrange_responses-eq :
      (events : List (Event V)) (last : Event V) (rs : List (FunctionResponse V))
      → All HasResponse events
      → rearrange_responses events last (new_set (ids_of rs)) ≡ (
          if (elim (before_last events) [
            | none ↦ false
            | some previous ↦ is_answered (calls_of (own_parts previous)) rs
          ])
          then ok events
          else panic)
  unfolding rearrange_responses
  rearrange_responses-eq events last rs h = elim (Option-cases (before_last events)) [
    | inl missing ↦ rw (missing, rearrange_responses)
    | inr (previous, there) ↦ rw (
      there,
      rearrange_responses,
      calls_there previous (All-before_last HasResponse events previous h there),
      any_called-eq rs (calls_of (own_parts previous)),
      search_back-panics (drop 1 (reverse events)) (none, new_set (ids_of rs)),
    )
  ]

  by_responses :
      (events : List (Event V)) (last : Event V)
      → All HasResponse events
      → (rs : List (FunctionResponse V))
      → (elim rs [
        | [] ↦ ok events
        | r ∷ rest ↦ rearrange_responses events last (new_set (ids_of (r ∷ rest)))
      ])
        ≡ (if (elim rs [
          | [] ↦ true
          | r ∷ rest ↦ elim (before_last events) [
            | none ↦ false
            | some previous ↦ is_answered (calls_of (own_parts previous)) (r ∷ rest)
          ]
        ])
            then ok events
            else panic)
  by_responses events last h [] = refl
  by_responses events last h (r ∷ rs) = rearrange_responses-eq events last (r ∷ rs) h

  -- On events that have a response of the model, `rearrangeEventsForLatestFunctionResponse` returns
  -- its argument where the last event has no function response or answers a call of the event before
  -- it, and panics everywhere else: it never merges or drops an event.
  pub rearrange_for_latest_lem :
      (events : List (Event V))
      → All HasResponse events
      → rearrange_for_latest events ≡ (if is_settled events then ok events else panic)
  unfolding rearrange_for_latest
  rearrange_for_latest_lem events h = elim (Option-cases (last? events)) [
    | inl missing ↦ rw (missing, rearrange_for_latest, is_settled)
    | inr (last, there) ↦
        rw
          (
            there,
            rearrange_for_latest,
            is_settled,
            responses_there last (All-last HasResponse events last h there),
          )
          (by_responses events last h (responses_of (own_parts last)))
  ]

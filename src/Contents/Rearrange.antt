-- ===== src/Contents/Rearrange.antt =====
-- The two rearrangements of flow/llmflow/contents.go. A pointer to an event is its position in the
-- list that is rearranged. The order in which `range` visits a set of pointers is the argument
-- `visit`.
use mathlib.Core.List.{reverse}
use adk_go.GoMap
use adk_go.GoMap.{GoMap}
use adk_go.PySet
use adk_go.PySet.{Set, new_set}
use adk_go.Genai.{FunctionCall, FunctionResponse, Part}
use adk_go.Event.{Event, content_of, get_function_calls, get_function_responses}
use adk_go.Base.{
  List, Text, ℕ, Bool, Option, Outcome, map, none, ◌∷◌, [], any, fail, if◌then◌else◌, last?, ok,
  panic, some, suc, ◌++◌, ◌>>=◌, drop, is_some, length, no_function_call_event, no_response_event,
  no_response_part, text_comparable, zero, ℕ_comparable, take,
}

module _ {V : Type 0} where
  -- The loop of `mergeFunctionResponseEvents` over the parts of one further event: the local slice
  -- and the index of the part for each call ID. `slices.Insert` shifts and keeps the part there.
  unfoldable insert_at : ℕ → Part V → List (Part V) → List (Part V)
  insert_at zero p ps = p ∷ ps
  insert_at (suc i) p [] = p ∷ []
  insert_at (suc i) p (q ∷ ps) = q ∷ insert_at i p ps

  unfoldable merge_part : List (Part V) × GoMap Text ℕ → Part V → List (Part V) × GoMap Text ℕ
  unfolding insert_at
  merge_part (parts, indices) p = elim p.function_response [
    | none ↦ (parts ++ p ∷ [], indices)
    | some r ↦ elim (GoMap.get r.id indices) [
      | some i ↦ (insert_at i p parts, indices)
      | none ↦ (parts ++ p ∷ [], GoMap.set r.id (length parts) indices)
    ]
  ]

  unfoldable merge_parts_of :
      List (Part V) × GoMap Text ℕ → List (Part V) → List (Part V) × GoMap Text ℕ
  unfolding merge_part
  merge_parts_of st [] = st
  merge_parts_of st (p ∷ ps) = merge_parts_of (merge_part st p) ps

  -- `part_indices_in_merged_event`: the last index of each call ID.
  unfoldable index_parts : ℕ → GoMap Text ℕ → List (Part V) → GoMap Text ℕ
  index_parts i indices [] = indices
  index_parts i indices (p ∷ ps) =
      let next : GoMap Text ℕ = elim p.function_response [
        | none ↦ indices
        | some r ↦ GoMap.set r.id i indices
      ] in
      index_parts (suc i) next ps

  -- The loop over the further events. A nil content is read through.
  unfoldable merge_rest : List (Part V) × GoMap Text ℕ → List (Event V) → Outcome (List (Part V))
  unfolding merge_parts_of
  merge_rest (parts, indices) [] = ok parts
  merge_rest st (e ∷ es) = do
    content ← content_of e
    elim content [
      | none ↦ panic
      | some c ↦ elim c.parts [
        | [] ↦ fail no_response_part
        | p ∷ ps ↦ merge_rest (merge_parts_of st (p ∷ ps)) es
      ]
    ]

  -- `mergeFunctionResponseEvents`: the merged parts stay in a local variable, and the event returned
  -- is the copy of the first one.
  unfoldable pub merge_function_response_events : List (Event V) → Outcome (Event V)
  unfolding merge_rest index_parts
  merge_function_response_events [] = fail no_response_event
  merge_function_response_events (e ∷ es) = do
    content ← content_of e
    elim content [
      | none ↦ panic
      | some c ↦ elim c.parts [
        | [] ↦ fail no_response_part
        | p ∷ ps ↦ do parts ← merge_rest (p ∷ ps, index_parts 0 [] (p ∷ ps)) es; ok e
      ]
    ]

  -- `events[len(events)-2]`
  unfoldable pub before_last : List (Event V) → Option (Event V)
  before_last [] = none
  before_last (e ∷ []) = none
  before_last (e ∷ e' ∷ []) = some e
  before_last (e ∷ e' ∷ e'' ∷ es) = before_last (e' ∷ e'' ∷ es)

  abbrev pub ids_of : List (FunctionResponse V) → List Text
  ids_of rs = map (λ r. r.id) rs

  abbrev pub any_called : Set Text → List (FunctionCall V) → Bool
  any_called ids cs = any (λ c. PySet.has ids c.id) cs

  -- The body of the backward loop at index `idx`: the index found, and the IDs looked for. The second
  -- inner loop stops after the first call.
  unfoldable pub note_calls : ℕ → List (FunctionCall V) → Option ℕ × Set Text → Option ℕ × Set Text
  note_calls idx [] st = st
  note_calls idx (c ∷ cs) (found, ids) =
      let found' = if any_called ids (c ∷ cs) then some idx else found in
      (found', if is_some found' then PySet.insert ids (c.id ∷ []) else ids)

  -- The loop `for idx := len(events) - 2; idx >= -1; idx--`, over the events before the last one,
  -- latest first. It ends only by reading `events[-1]`.
  unfoldable pub search_back : List (Event V) → Option ℕ × Set Text → Outcome (Option ℕ × Set Text)
  unfolding note_calls
  search_back [] st = panic
  search_back (e ∷ before) st = do
    calls ← get_function_calls e
    search_back before (note_calls (length before) calls st)

  -- The forward loop that collects the response events behind the call.
  unfoldable pub collect_responses : Set Text → List (Event V) → Outcome (List (Event V))
  collect_responses ids [] = ok []
  collect_responses ids (e ∷ es) = do
    responses ← get_function_responses e
    rest ← collect_responses ids es
    elim responses [ [] ↦ ok rest | r ∷ rs ↦ if PySet.has ids r.id then ok (e ∷ rest) else ok rest ]

  -- What follows the backward loop.
  unfoldable pub merge_latest :
      List (Event V) → Event V → Option ℕ × Set Text → Outcome (List (Event V))
  merge_latest events last (none, ids) = fail no_function_call_event
  merge_latest events last (some idx, ids) = do
    collected ← collect_responses ids (drop (suc idx) events)
    merged ← merge_function_response_events (collected ++ last ∷ [])
    ok (take (suc idx) events ++ merged ∷ [])

  -- `rearrangeEventsForLatestFunctionResponse` where the last event has responses.
  unfoldable pub rearrange_responses :
      List (Event V) → Event V → Set Text → Outcome (List (Event V))
  rearrange_responses events last ids = elim (before_last events) [
    | none ↦ panic
    | some previous ↦ do
      calls ← get_function_calls previous
      let searched : Outcome (List (Event V)) =
          search_back (drop 1 (reverse events)) (none, ids) >>= merge_latest events last
      if any_called ids calls then ok events else searched
  ]

  -- `rearrangeEventsForLatestFunctionResponse`
  unfoldable pub rearrange_for_latest : List (Event V) → Outcome (List (Event V))
  rearrange_for_latest events = elim (last? events) [
    | none ↦ ok events
    | some last ↦ do
      responses ← get_function_responses last
      elim responses [
        | [] ↦ ok events
        | r ∷ rs ↦ rearrange_responses events last (new_set (ids_of (r ∷ rs)))
      ]
  ]

  -- `append(index[id], events[i])` for each response of the event at position `i`.
  unfoldable pub index_event :
      ℕ → Event V → List Text → GoMap Text (List (ℕ × Event V)) → GoMap Text (List (ℕ × Event V))
  index_event i e [] index = index
  index_event i e (id ∷ ids) index =
      let old : List (ℕ × Event V) = elim (GoMap.get id index) [ none ↦ [] | some es ↦ es ] in
      index_event i e ids (GoMap.set id (old ++ (i, e) ∷ []) index)

  -- The first loop of `rearrangeEventsForAsyncFunctionResponsesInHistory`.
  unfoldable pub index_responses :
      ℕ
      → GoMap Text (List (ℕ × Event V))
      → List (Event V)
      → Outcome (GoMap Text (List (ℕ × Event V)))
  unfolding index_event
  index_responses i index [] = ok index
  index_responses i index (e ∷ es) = do
    responses ← get_function_responses e
    index_responses (suc i) (index_event i e (ids_of responses) index) es

  -- `set.Insert(ev)` for each event of a slice: a set of pointers, as a map to what they point to.
  unfoldable insert_all : GoMap ℕ (Event V) → List (ℕ × Event V) → GoMap ℕ (Event V)
  insert_all found [] = found
  insert_all found ((i, e) ∷ es) = insert_all (GoMap.set i e found) es

  unfoldable responses_to :
      GoMap Text (List (ℕ × Event V))
      → List (FunctionCall V)
      → GoMap ℕ (Event V)
      → GoMap ℕ (Event V)
  unfolding insert_all
  responses_to index [] found = found
  responses_to index (c ∷ cs) found =
      let next : GoMap ℕ (Event V) = elim (GoMap.get c.id index) [
        | none ↦ found
        | some es ↦ insert_all found es
      ] in
      responses_to index cs next

  abbrev targets : GoMap ℕ (Event V) → List (Event V)
  targets = map (λ e. e.1)

  module _ (visit : List (Event V) → List (Event V)) where
    -- The switch on the number of response events.
    unfoldable pub answers : List (Event V) → Outcome (List (Event V))
    unfolding merge_function_response_events
    answers [] = ok []
    answers (e ∷ []) = ok (e ∷ [])
    answers (e ∷ e' ∷ es) = do
      merged ← merge_function_response_events (visit (e ∷ e' ∷ es))
      ok (merged ∷ [])

    -- The body of the second loop, for an event with these calls and responses.
    unfoldable pub arrange_event :
        GoMap Text (List (ℕ × Event V))
        → Event V
        → List (FunctionCall V)
        → List (FunctionResponse V)
        → Outcome (List (Event V))
    unfolding answers responses_to
    arrange_event index e calls (r ∷ rs) = ok []
    arrange_event index e [] [] = ok (e ∷ [])
    arrange_event index e (c ∷ cs) [] = do
      found ← answers (targets (responses_to index (c ∷ cs) []))
      ok (e ∷ found)

    unfoldable pub arrange :
        GoMap Text (List (ℕ × Event V)) → List (Event V) → Outcome (List (Event V))
    unfolding arrange_event
    arrange index [] = ok []
    arrange index (e ∷ es) = do
      responses ← get_function_responses e
      calls ← get_function_calls e
      here ← arrange_event index e calls responses
      rest ← arrange index es
      ok (here ++ rest)

    -- `rearrangeEventsForAsyncFunctionResponsesInHistory`
    unfoldable pub rearrange_for_async : List (Event V) → Outcome (List (Event V))
    rearrange_for_async events = do index ← index_responses 0 [] events; arrange index events

-- ===== src/Contents/Talk.antt =====
-- `getContents` on a conversation without function calls, by what the code makes of each event
-- (flow/llmflow/contents.go).
use adk_go.GoMap.{GoMap}
use adk_go.Genai.{Part, Content, text_part}
use adk_go.Event.{
  Event, content_of, parts_of, calls_of, responses_of, get_function_calls, get_function_responses,
}
use adk_go.Calls.{remove_client_function_call_id, remove_from_part}
use adk_go.Contents.{
  foreign_part, foreign_event, convert_foreign_event, role_user, is_kept, is_other_agent_reply,
  filter_events, build_contents, get_contents, copy_content,
}
use adk_go.Contents.Rearrange.{
  rearrange_for_latest, rearrange_for_async, index_responses, arrange, arrange_event, index_event,
}
use adk_go.Contents.Latest.{All-last}
use adk_go.Base.{
  Text, List, Option, map, ◌≡◌, All, ok, none, some, [], ◌∷◌, ◌++◌, ℕ, length, if◌then◌else◌,
  Outcome, Option-cases, arith, codes, true, last?, refl, suc, inl, inr, ap, Bool, false,
}

module _ {V : Type 0} where
  -- No part is a function call or a function response.
  abbrev pub NoFunctions : List (Part V) → Type 0
  NoFunctions = All (λ p. (p.function_call ≡ none) × (p.function_response ≡ none))

  -- The event has a response of the model, whose content, if there is one, is no function call.
  abbrev pub IsTalk : Event V → Type 0
  IsTalk e = (o : Option (Content V)) × (content_of e ≡ ok o) × NoFunctions (parts_of o)

  -- The same of an event that has a content.
  abbrev IsTold : Event V → Type 0
  IsTold e = (c : Content V) × (content_of e ≡ ok (some c)) × NoFunctions c.parts

  NoFunctions-calls_of : (ps : List (Part V)) → NoFunctions ps → calls_of ps ≡ []
  unfolding calls_of
  NoFunctions-calls_of [] _ = refl
  NoFunctions-calls_of (p ∷ ps) ((call, _), rest) =
      ground (arith, call, NoFunctions-calls_of ps rest)

  NoFunctions-responses_of : (ps : List (Part V)) → NoFunctions ps → responses_of ps ≡ []
  unfolding responses_of
  NoFunctions-responses_of [] _ = refl
  NoFunctions-responses_of (p ∷ ps) ((_, response), rest) =
      ground (arith, response, NoFunctions-responses_of ps rest)

  get_function_calls-IsTold : (e : Event V) → IsTold e → get_function_calls e ≡ ok []
  unfolding get_function_calls
  get_function_calls-IsTold e (c, there, plain) =
      ground (arith, there, NoFunctions-calls_of c.parts plain)

  get_function_responses-IsTold : (e : Event V) → IsTold e → get_function_responses e ≡ ok []
  unfolding get_function_responses
  get_function_responses-IsTold e (c, there, plain) =
      ground (arith, there, NoFunctions-responses_of c.parts plain)

  remove_from_parts : (ps : List (Part V)) → NoFunctions ps → map remove_from_part ps ≡ ps
  unfolding remove_from_part
  remove_from_parts [] _ = refl
  remove_from_parts (p ∷ ps) ((call, response), rest) =
      ground (arith, call, response, remove_from_parts ps rest)

  index_responses-IsTold :
      (i : ℕ) (index : GoMap Text (List (ℕ × Event V))) (es : List (Event V))
      → All IsTold es
      → index_responses i index es ≡ ok index
  unfolding index_responses index_event
  index_responses-IsTold i index [] _ = refl
  index_responses-IsTold i index (e ∷ es) (told, rest) =
      ground
        (arith, get_function_responses-IsTold e told, index_responses-IsTold (suc i) index es rest)

  arrange-IsTold :
      (visit : List (Event V) → List (Event V)) (index : GoMap Text (List (ℕ × Event V)))
      (es : List (Event V))
      → All IsTold es
      → arrange visit index es ≡ ok es
  unfolding arrange arrange_event
  arrange-IsTold visit index [] _ = refl
  arrange-IsTold visit index (e ∷ es) (told, rest) = ground (
    arith,
    get_function_responses-IsTold e told,
    get_function_calls-IsTold e told,
    arrange-IsTold visit index es rest,
  )

  rearrange_for_async-IsTold :
      (visit : List (Event V) → List (Event V)) (es : List (Event V))
      → All IsTold es
      → rearrange_for_async visit es ≡ ok es
  unfolding rearrange_for_async
  rearrange_for_async-IsTold visit es h =
      rw (index_responses-IsTold 0 [] es h) (arrange-IsTold visit [] es h)

  rearrange_for_latest-IsTold :
      (es : List (Event V)) → All IsTold es → rearrange_for_latest es ≡ ok es
  unfolding rearrange_for_latest
  rearrange_for_latest-IsTold es h = elim (Option-cases (last? es)) [
    | inl missing ↦ rw (missing, rearrange_for_latest)
    | inr (e, there) ↦ rw (
      there,
      rearrange_for_latest,
      get_function_responses-IsTold e (All-last IsTold es e h there),
    )
  ]

  module _ (show : GoMap Text V → Text) (event_ids : ℕ → Text) (branch : Text) where
    -- What the code makes of an event.
    abbrev pub heard : Event V → Option (Content V) → List (Content V)
    heard e none = []
    heard e (some c) =
        if is_kept branch e (some c)
        then (if is_other_agent_reply branch e
            then record {
              role = role_user;
              parts = text_part (codes "For context:") ∷ map (foreign_part show e.author) c.parts;
            }
            else c)
          ∷ []
        else []

    abbrev pub heard_all : (es : List (Event V)) → All IsTalk es → List (Content V)
    heard_all [] _ = []
    heard_all (e ∷ es) ((o, _, _), rest) = heard e o ++ heard_all es rest

    -- The events that the loop of `getContents` keeps.
    abbrev kept_event : ℕ → Event V → Option (Content V) → List (Event V)
    kept_event n e none = []
    kept_event n e (some c) =
        if is_kept branch e (some c)
        then (if is_other_agent_reply branch e
            then foreign_event show (event_ids n) e c.parts
            else e)
          ∷ []
        else []

    abbrev kept : (es : List (Event V)) → All IsTalk es → List (Event V)
    kept [] _ = []
    kept (e ∷ es) ((o, _, _), rest) = kept_event (length es) e o ++ kept es rest

    convert_foreign_event-kept :
        (id : Text) (e : Event V) (c : Content V)
        → content_of e ≡ ok (some c)
        → is_kept branch e (some c) ≡ true
        → convert_foreign_event show id e ≡ ok (foreign_event show id e c.parts)
    unfolding convert_foreign_event is_kept
    convert_foreign_event-kept id e c there keeps = ground (arith, there, keeps)

    filter_events-kept :
        (es : List (Event V)) (h : All IsTalk es)
        → filter_events show event_ids branch es ≡ ok (kept es h)
    unfolding filter_events
    filter_events-kept [] _ = refl
    filter_events-kept (e ∷ es) ((none, there, plain), rest) =
        rw (there, filter_events-kept es rest) (unfold is_kept in refl)
    filter_events-kept (e ∷ es) ((some c, there, plain), rest) = ground (
      arith,
      there,
      filter_events-kept es rest,
      convert_foreign_event-kept (event_ids (length es)) e c there,
    )

    NoFunctions-foreign :
        (author : Text) (ps : List (Part V))
        → NoFunctions ps
        → NoFunctions (map (foreign_part show author) ps)
    unfolding foreign_part
    NoFunctions-foreign author [] _ = tt
    NoFunctions-foreign author (p ∷ ps) ((call, response), rest) = (
      (ground (arith, call, response), ground (arith, call, response)),
      NoFunctions-foreign author ps rest,
    )

    -- What the rest of `getContents` makes of a list of events that have contents.
    abbrev contents_of : (es : List (Event V)) → All IsTold es → List (Content V)
    contents_of [] _ = []
    contents_of (e ∷ es) ((c, _, _), rest) = c ∷ contents_of es rest

    kept_foreign :
        (id : Text) (e : Event V) (c : Content V)
        → NoFunctions c.parts
        → (told : IsTold (foreign_event show id e c.parts)) × (told.0 ≡ record {
          role = role_user;
          parts = text_part (codes "For context:") ∷ map (foreign_part show e.author) c.parts;
        })
    unfolding foreign_event content_of
    kept_foreign id e c plain =
        ((_, refl, ((refl, refl), NoFunctions-foreign e.author c.parts plain)), refl)

    -- One event before others, whether it is kept and converted or not.
    contents_of-kept_event :
        (keeps foreign : Bool) (id : Text) (e : Event V) (c : Content V)
        → content_of e ≡ ok (some c)
        → NoFunctions c.parts
        → (es : List (Event V)) (k : All IsTold es) (cs : List (Content V)) → contents_of es k ≡ cs
        → (k' : All IsTold (
            (if keeps then (if foreign then foreign_event show id e c.parts else e) ∷ [] else [])
            ++ es))
          × (contents_of
                ((if keeps
                    then (if foreign then foreign_event show id e c.parts else e) ∷ []
                    else [])
                  ++ es)
                k'
              ≡ (if keeps
                  then (if foreign
                      then record {
                        role = role_user;
                        parts =
                            text_part (codes "For context:")
                            ∷ map (foreign_part show e.author) c.parts;
                      }
                      else c)
                    ∷ []
                  else [])
                ++ cs)
    contents_of-kept_event false foreign id e c there plain es k cs same = (k, same)
    contents_of-kept_event true false id e c there plain es k cs same =
        (((c, there, plain), k), ap (◌∷◌ c) same)
    contents_of-kept_event true true id e c there plain es k cs same =
        let (told_event, content) = kept_foreign id e c plain in
        ((told_event, k), cc (content, same))

    -- The kept events have contents, which are those told.
    kept-IsTold :
        (es : List (Event V)) (h : All IsTalk es)
        → (k : All IsTold (kept es h)) × (contents_of (kept es h) k ≡ heard_all es h)
    kept-IsTold [] _ = (tt, refl)
    kept-IsTold (e ∷ es) ((none, there, plain), rest) = kept-IsTold es rest
    kept-IsTold (e ∷ es) ((some c, there, plain), rest) =
        let (k, same) = kept-IsTold es rest in
        contents_of-kept_event (is_kept branch e (some c)) (is_other_agent_reply branch e)
          (event_ids (length es)) e c there plain (kept es rest) k (heard_all es rest) same

    module _ (copy_nil : Outcome (Content V)) (visit : List (Event V) → List (Event V)) where
      build_contents-IsTold :
          (es : List (Event V)) (h : All IsTold es)
          → build_contents show copy_nil es ≡ ok (contents_of es h)
      unfolding build_contents copy_content remove_client_function_call_id
      build_contents-IsTold [] _ = refl
      build_contents-IsTold (e ∷ es) ((c, there, plain), rest) =
          rw (there, build_contents-IsTold es rest, remove_from_parts c.parts plain)

      -- Where no event has a function call or response, `getContents` makes what the code tells of each.
      pub get_contents-heard :
          (es : List (Event V)) (h : All IsTalk es)
          → get_contents show copy_nil visit event_ids branch es ≡ ok (heard_all es h)
      unfolding get_contents
      get_contents-heard es h =
          let (k, same) = kept-IsTold es h in
          rw (
            filter_events-kept es h,
            rearrange_for_latest-IsTold (kept es h) k,
            rearrange_for_async-IsTold visit (kept es h) k,
            build_contents-IsTold (kept es h) k,
            same,
          )

-- ===== src/Memory.antt =====
-- memory/in_memory.go: the in-memory memory service. `strings.ToLower` is the argument `lower`; the
-- order in which `range` visits a map is that of its entries.
pub mod Reachable
use adk_go.GoMap
use adk_go.GoMap.{GoMap}
use adk_go.PySet
use adk_go.PySet.{Set, new_set, unsorted_list}
use adk_go.Genai.{Part, Content}
use adk_go.Event.{Event, content_of, parts_of}
use adk_go.Session.{Session}
use adk_go.Base.{
  List, Option, Outcome, Text, [], Bool, none, ok, some, ℕ, ◌++◌, ◌∷◌, codes, eqb, if◌then◌else◌,
  panic, text_comparable, ◌>>=◌, length, true, false,
}

pub record Memories (V : Type 0) : Type 0 where
  pub session_events : GoMap Text (GoMap Text (List (Event V)))

-- `MemoryEntry`
pub record MemoryEntry (V : Type 0) : Type 0 where
  pub content : Option (Content V)
  pub author : Text
  pub timestamp : ℕ

-- `userKey`
unfoldable pub user_key : Text → Text → Text
user_key app user = app ++ (codes "/" ++ user)

-- `strings.Split(s, " ")`: the parts before each space, and the last.
unfoldable split_space : Text → Text → List Text
split_space current [] = current ∷ []
split_space current (c ∷ s) = elim (eqb c b' ') [
  | true ↦ current ∷ split_space [] s
  | false ↦ split_space (current ++ c ∷ []) s
]

-- `extractWordsLower`: a set of one word, the whole text.
unfoldable extract_words_lower : (lower : Text → Text) → Text → Set Text
unfolding new_set
extract_words_lower lower text = new_set (lower text ∷ [])

module _ {V : Type 0} where
  -- `NewInMemoryService()`
  abbrev pub new_memories : Memories V
  new_memories = record { session_events = [] }

  -- The test `event.Content != nil || len(event.Content.Parts) > 0`: a nil content is read through.
  unfoldable has_content : Option (Content V) → Outcome Bool
  has_content none = panic
  has_content (some c) = ok true

  -- `s.sessionEvents[key][id] = append(…)`: a write to the nil map of a missing key panics.
  unfoldable append_memory : Memories V → Text → Text → Event V → Outcome (Memories V)
  append_memory s key id event = elim (GoMap.get key s.session_events) [
    | none ↦ panic
    | some sessions ↦
        let old : List (Event V) = elim (GoMap.get id sessions) [ none ↦ [] | some evs ↦ evs ] in
        ok (record {
          session_events =
              GoMap.set key (GoMap.set id (old ++ event ∷ []) sessions) s.session_events;
        })
  ]

  -- The loop of `AddSessionToMemory`.
  unfoldable pub add_events : Memories V → Text → Text → List (Event V) → Outcome (Memories V)
  unfolding has_content append_memory content_of
  add_events s key id [] = ok s
  add_events s key id (event ∷ events) = do
    content ← content_of event
    wanted ← has_content content
    s' ← (if wanted then append_memory s key id event else ok s)
    add_events s' key id events

  -- `AddSessionToMemory`
  unfoldable pub add_session_to_memory : Memories V → Session V → Outcome (Memories V)
  unfolding add_events user_key
  add_session_to_memory s session =
      add_events s (user_key session.app_name session.user_id) session.id session.events

  unfoldable join_texts : List (Part V) → Text
  join_texts [] = []
  join_texts (p ∷ ps) = p.text ++ join_texts ps

  -- One entry for each word of the query that the event has.
  unfoldable match_words : Set Text → MemoryEntry V → List Text → List (MemoryEntry V)
  match_words words entry [] = []
  match_words words entry (w ∷ ws) =
      let rest = match_words words entry ws in if PySet.has words w then entry ∷ rest else rest

  module _ (lower : Text → Text) where
    -- The body of the loop over the events.
    unfoldable search_event : List Text → Event V → Option (Content V) → List (MemoryEntry V)
    unfolding extract_words_lower match_words join_texts
    search_event query event none = []
    search_event query event (some content) =
        if eqb (length content.parts) 0
        then []
        else let words = extract_words_lower lower (join_texts content.parts) in
          if eqb (PySet.len words) 0
          then []
          else match_words words
              (record {
                content = some content;
                author = event.author;
                timestamp = event.timestamp;
              })
              query

    unfoldable search_events : List Text → List (Event V) → Outcome (List (MemoryEntry V))
    unfolding search_event content_of
    search_events query [] = ok []
    search_events query (event ∷ events) = do
      content ← content_of event
      rest ← search_events query events
      ok (search_event query event content ++ rest)

    unfoldable search_sessions :
        List Text → GoMap Text (List (Event V)) → Outcome (List (MemoryEntry V))
    unfolding search_events
    search_sessions query [] = ok []
    search_sessions query ((id, events) ∷ sessions) = do
      here ← search_events query events
      rest ← search_sessions query sessions
      ok (here ++ rest)

    -- `SearchMemory`
    unfoldable pub search_memory : Memories V → Text → Text → Text → Outcome (List (MemoryEntry V))
    unfolding search_sessions user_key split_space new_set unsorted_list
    search_memory s app user query = elim (GoMap.get (user_key app user) s.session_events) [
      | none ↦ ok []
      | some sessions ↦ search_sessions (unsorted_list (new_set (split_space [] query))) sessions
    ]

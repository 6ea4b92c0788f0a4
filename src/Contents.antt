-- ===== src/Contents.antt =====
-- flow/llmflow/contents.go: how the contents of a request are made from the events of a session. The
-- text that `%v` prints for a map is the argument `show`, the random IDs of the new events are
-- `event_ids`, and what go-deepcopy makes of a nil source is `copy_nil`; of any other source it makes an equal
-- value that shares nothing with it.
pub mod Rearrange
pub mod Foreign
pub mod Latest
pub mod Talk
pub mod Told
use Rearrange.{rearrange_for_latest, rearrange_for_async}
use adk_go.GoMap.{GoMap}
use adk_go.Genai.{Part, Content, text_part}
use adk_go.Event.{Event, content_of, parts_of}
use adk_go.Calls.{remove_client_function_call_id, request_euc_function_call_name}
use adk_go.Base.{
  Bool, List, Text, Option, Outcome, any, codes, if◌then◌else◌, none, not, some, false, ok, text_eq,
  ◌++◌, ◌>>=◌, ◌||◌, ◌∷◌, [], map, true, ◌&&◌, has_prefix, ℕ, length,
}

-- `model.RoleUser` is the role "user".
abbrev pub role_user : Text
role_user = codes "user"

module _ {V : Type 0} where
  -- `isEventBelongsToBranch`
  unfoldable pub is_event_belongs_to_branch : Text → Event V → Bool
  is_event_belongs_to_branch branch event =
      if text_eq branch [] || text_eq event.branch [] then true else has_prefix branch event.branch

  abbrev names_auth_call : Part V → Bool
  names_auth_call p = elim p.function_call [
    | none ↦ false
    | some c ↦ text_eq c.name request_euc_function_call_name
  ]

  abbrev names_auth_response : Part V → Bool
  names_auth_response p = elim p.function_response [
    | none ↦ false
    | some r ↦ text_eq r.name request_euc_function_call_name
  ]

  -- `isAuthEvent`, on the parts of a content that is not nil.
  unfoldable pub is_auth_event : List (Part V) → Bool
  is_auth_event ps = any (λ p. names_auth_call p || names_auth_response p) ps

  -- `isOtherAgentReply`
  unfoldable pub is_other_agent_reply : Text → Event V → Bool
  is_other_agent_reply current event =
      not (text_eq current [])
      && not (text_eq event.author current)
      && not (text_eq event.author (codes "user"))

  -- The four conditions of `getContents` on an event whose content may be nil.
  unfoldable pub is_kept : Text → Event V → Option (Content V) → Bool
  unfolding is_event_belongs_to_branch is_auth_event
  is_kept branch event none = false
  is_kept branch event (some c) = elim c.parts [
    | [] ↦ false
    | p ∷ ps ↦
        not (text_eq c.role [])
        && not (text_eq p.text [])
        && is_event_belongs_to_branch branch event
        && not (is_auth_event (p ∷ ps))
  ]

  module _ (show : GoMap Text V → Text) where
    -- The switch of `convertForeignEvent`.
    unfoldable pub foreign_part : Text → Part V → Part V
    foreign_part author p =
        let head = codes "[" ++ author in
        if not (text_eq p.text [])
        then text_part (head ++ (codes "] said: " ++ p.text))
        else elim p.function_call [
          | some c ↦ text_part (
              head
              ++ (codes "] called tool `"
                  ++ (c.name ++ (codes "` with parameters: " ++ show c.args))))
          | none ↦ elim p.function_response [
            | some r ↦ text_part (
                head
                ++ (codes "] `" ++ (r.name ++ (codes "` returned result: " ++ show r.response))))
            | none ↦ p
          ]
        ]

    -- The event that `convertForeignEvent` makes of parts that are not empty.
    unfoldable pub foreign_event : Text → Event V → List (Part V) → Event V
    unfolding foreign_part
    foreign_event event_id event parts = record {
      llm_response = some (record {
        content = some (record {
          role = role_user;
          parts = text_part (codes "For context:") ∷ map (foreign_part event.author) parts;
        });
        partial = false;
      });
      invocation_id = [];
      author = codes "user";
      actions = none;
      long_running_tool_ids = none;
      branch = event.branch;
      id = event_id;
      timestamp = event.timestamp;
    }

    -- `convertForeignEvent`
    unfoldable pub convert_foreign_event : Text → Event V → Outcome (Event V)
    convert_foreign_event event_id event = do
      content ← content_of event
      elim (parts_of content) [
        | [] ↦ ok event
        | p ∷ ps ↦ ok (foreign_event event_id event (p ∷ ps))
      ]

    -- The loop of `getContents` over the events.
    unfoldable pub filter_events :
        (event_ids : ℕ → Text) → Text → List (Event V) → Outcome (List (Event V))
    filter_events event_ids branch [] = ok []
    filter_events event_ids branch (event ∷ events) = do
      content ← content_of event
      let tail = filter_events event_ids branch events
      let converted : Outcome (Event V) =
          if is_other_agent_reply branch event
          then convert_foreign_event (event_ids (length events)) event
          else ok event
      if is_kept branch event content
          then (converted >>= λ ev. tail >>= λ rest. ok (ev ∷ rest))
          else tail

    module _ (copy_nil : Outcome (Content V)) where
      -- The copy of one content.
      unfoldable pub copy_content : Option (Content V) → Outcome (Content V)
      copy_content none = copy_nil
      copy_content (some c) = ok c

      -- The last loop of `getContents`.
      unfoldable pub build_contents : List (Event V) → Outcome (List (Content V))
      build_contents [] = ok []
      build_contents (event ∷ events) = do
        content ← content_of event
        copied ← copy_content content
        rest ← build_contents events
        ok (remove_client_function_call_id copied ∷ rest)

      -- `getContents`; it does not read its last argument, the agent's name.
      unfoldable pub get_contents :
          (visit : List (Event V) → List (Event V)) (event_ids : ℕ → Text)
          → Text
          → List (Event V)
          → Outcome (List (Content V))
      get_contents visit event_ids branch events = do
        filtered ← filter_events event_ids branch events
        latest ← rearrange_for_latest filtered
        arranged ← rearrange_for_async visit latest
        build_contents arranged

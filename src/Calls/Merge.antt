-- ===== src/Calls/Merge.antt =====
-- Merging the responses of parallel function calls.
use adk_go.GoMap
use adk_go.GoMap.{GoMap, Distinct}
use adk_go.GoMap.Laws.{get-copy, get-nil}
use adk_go.Genai.{Part, Content}
use adk_go.Event.{Event, EventActions, parts_of, new_event_actions}
use adk_go.Calls.{merge_parts, merge_auth_configs, merge_parallel_function_response_events}
use adk_go.Base.{
  List, Option, Text, All, Bool, none, ◌∷◌, ◌≡◌, ok, or_else, some, ◌++◌, arith, codes,
  text_comparable, [], false, refl,
}

module _ {V : Type 0} where
  -- The event has a response and actions, so that neither is read through a nil pointer; the map of
  -- its requested auth configs has distinct keys.
  pub record IsWhole (e : Event V) : Type 0 where
    pub content : Option (Content V)
    pub has_response :
        (partial : Bool) × (e.llm_response ≡ some (record { content = content; partial = partial }))
    pub actions : EventActions V
    pub has_actions : e.actions ≡ some actions
    pub distinct : Distinct actions.requested_auth_configs

  -- The parts of the events, one event after the other.
  abbrev pub all_parts : (es : List (Event V)) → All IsWhole es → List (Part V)
  all_parts [] _ = []
  all_parts (e ∷ es) (w, ws) = parts_of w.content ++ all_parts es ws

  -- The config of the last event that requests one for the call.
  abbrev pub last_config : Text → (es : List (Event V)) → All IsWhole es → Option V
  last_config key [] _ = none
  last_config key (e ∷ es) (w, ws) =
      or_else (last_config key es ws) (GoMap.get key w.actions.requested_auth_configs)

  merge_parts-ok :
      (es : List (Event V)) (ws : All IsWhole es) → merge_parts es ≡ ok (all_parts es ws)
  unfolding merge_parts
  merge_parts-ok [] _ = refl
  merge_parts-ok (e ∷ es) (w, ws) = ground (arith, w.has_response, merge_parts-ok es ws)

  merge_auth_configs-ok :
      (configs : GoMap Text V) (es : List (Event V)) (ws : All IsWhole es)
      → (m : GoMap Text V) × (merge_auth_configs configs es ≡ ok m)
        × ((key : Text) → GoMap.get key m ≡ or_else (last_config key es ws) (GoMap.get key configs))
  unfolding merge_auth_configs
  merge_auth_configs-ok configs [] _ = (configs, refl, λ key. refl)
  merge_auth_configs-ok configs (e ∷ es) (w, ws) =
      let next = GoMap.copy configs w.actions.requested_auth_configs in
      let (m, made, reads) = merge_auth_configs-ok next es ws in
      (
        m,
        ground (arith, w.has_actions, made),
        λ key.
            ground
              (arith, reads key, get-copy key configs w.actions.requested_auth_configs w.distinct),
      )

  abbrev merged_event : Text → Text → Event V → List (Part V) → GoMap Text V → Event V
  merged_event id invocation_id e parts configs = record e {
    llm_response = some (record {
      content = some (record { role = codes "user"; parts = parts });
      partial = false;
    });
    invocation_id = invocation_id;
    actions = some (record new_event_actions { requested_auth_configs = configs });
    long_running_tool_ids = none;
    id = id;
  }

  -- Two or more response events with a response and actions are merged into one: its parts are those
  -- of all events in order, its author, branch and time are those of the first, and for each call it
  -- requests the auth config of the last event that requests one.
  pub merge_parallel_function_response_events_lem :
      (id invocation_id : Text) (e e' : Event V) (es : List (Event V))
      (ws : All IsWhole (e ∷ e' ∷ es))
      → (m : Event V) × (a : EventActions V) × (merge_parallel_function_response_events id
            invocation_id
            (e ∷ e' ∷ es)
          ≡ ok m)
        × (m.llm_response
            ≡ some (record {
              content = some (record { role = codes "user"; parts = all_parts (e ∷ e' ∷ es) ws });
              partial = false;
            }))
        × (m.author ≡ e.author)
        × (m.branch ≡ e.branch)
        × (m.timestamp ≡ e.timestamp)
        × (m.actions ≡ some a)
        × ((key : Text) → GoMap.get key a.requested_auth_configs ≡ last_config key (e ∷ e' ∷ es) ws)
  unfolding merge_parallel_function_response_events
  merge_parallel_function_response_events_lem id invocation_id e e' es ws =
      let (configs, made, reads) = merge_auth_configs-ok [] (e ∷ e' ∷ es) ws in
      let actions : EventActions V = record new_event_actions {
        requested_auth_configs = configs;
      } in
      (
        merged_event id invocation_id e (all_parts (e ∷ e' ∷ es) ws) configs,
        actions,
        rw (merge_parts-ok (e ∷ e' ∷ es) ws, made),
        refl,
        refl,
        refl,
        refl,
        refl,
        λ key. ground (arith, reads key, get-nil {V = V} key),
      )

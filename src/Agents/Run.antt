-- ===== src/Agents/Run.antt =====
-- types/agent_base.go: `Run` and `Execute` of `BaseAgent`. `Run` of every kind of agent is `Run` of its
-- base (agent/llm_agent.go, agent/loop_agents.go, agent/parallel_agents.go, agent/sequential_agents.go).
use adk_go.Event.{Event, EventActions, new_event, with_content, new_event_actions}
use adk_go.Agents.Stream.{Stream, finished, crashed, yields, acts, relay}
use adk_go.Base.{
  List, Option, Outcome, Text, [], fail, some, suc, Bool, if◌then◌else◌, ok, ℕ, eqb, is_some, none,
  ◌∷◌, length, panic, true, ◌++◌, codes,
}
use adk_go.GoMap.{GoMap}
use adk_go.Genai.{Content}

-- The invocation context, which all agents of a run share through a pointer, the events made so far,
-- and what else the agents and their callbacks change.
pub record Invocation (W : Type 0) : Type 0 where
  pub agent : Text
  pub branch : Text
  pub invocation_id : Text
  pub end_invocation : Bool
  pub made : ℕ
  pub world : W

-- The `CallbackContext`: the actions for its event, and the delta of its state.
pub record CallbackContext (V : Type 0) : Type 0 where
  pub actions : EventActions V
  pub delta : GoMap Text V

abbrev pub AgentCallback : Type 0 → Type 0 → Type 0
AgentCallback W V =
    Invocation W
    → CallbackContext V
    → Invocation W × CallbackContext V × Outcome (Option (Content V))

-- The fields of `BaseAgent`, with the ID and the time of the n-th event that is made.
pub record BaseAgent (W V : Type 0) : Type 0 where
  pub name : Text
  pub before : List (AgentCallback W V)
  pub after : List (AgentCallback W V)
  pub event_id : ℕ → Text
  pub now : ℕ → ℕ

-- `createInvocationContext`
unfoldable pub create_invocation_context : {W : Type 0} → Text → Invocation W → Invocation W
create_invocation_context name s = record s {
  agent = name;
  branch = if eqb (length s.branch) 0 then s.branch else s.branch ++ codes "." ++ name;
}

-- `NewCallbackContext`
abbrev pub new_callback_context : {V : Type 0} → CallbackContext V
new_callback_context = record { actions = new_event_actions; delta = [] }

abbrev pub count_event : {W : Type 0} → Invocation W → Invocation W
count_event s = record s { made = suc s.made }

module _ {W V : Type 0} where
  -- The event of a callback, without its content and its invocation ID.
  abbrev pub callback_event : BaseAgent W V → Invocation W → CallbackContext V → Event V
  callback_event a s c = record (new_event (a.event_id s.made) (a.now s.made)) {
    author = a.name;
    branch = s.branch;
    actions = some c.actions;
  }

  -- `handleBeforeAgentCallbacks`: its loop, and what follows the loop.
  unfoldable pub before_callbacks :
      BaseAgent W V
      → List (AgentCallback W V)
      → Invocation W
      → CallbackContext V
      → Invocation W × Outcome (Option (Event V))
  unfolding with_content
  before_callbacks a [] s c = if eqb (length c.delta) 0 then (s, ok none) else (
    count_event s,
    ok (some (record (callback_event a s c) { invocation_id = s.invocation_id })),
  )
  before_callbacks a (callback ∷ rest) s c =
      let (s', c', o) = callback s c in
      elim o [
        | ok (some content) ↦ (
          record (count_event s') { end_invocation = true },
          ok (
              some (record (with_content (callback_event a s' c') (some content)) {
                invocation_id = s'.invocation_id;
              })),
        )
        | ok none ↦ before_callbacks a rest s' c'
        | fail e ↦ (s', fail e)
        | panic ↦ (s', panic)
      ]

  unfoldable pub handle_before_agent_callbacks :
      BaseAgent W V → Invocation W → Invocation W × Outcome (Option (Event V))
  unfolding before_callbacks
  handle_before_agent_callbacks a s =
      if eqb (length a.before) 0
      then (s, ok none)
      else before_callbacks a a.before s new_callback_context

  -- `handleAfterAgentCallback`: its loop, with the event made so far.
  unfoldable pub after_callbacks :
      BaseAgent W V
      → List (AgentCallback W V)
      → Invocation W
      → CallbackContext V
      → Option (Event V)
      → Invocation W × Outcome (Option (Event V))
  unfolding with_content
  after_callbacks a [] s c event = (s, ok event)
  after_callbacks a (callback ∷ rest) s c event =
      let (s', c', o) = callback s c in
      elim o [
        | ok (some content) ↦
            (count_event s', ok (some (with_content (callback_event a s' c') (some content))))
        | ok none ↦
            if eqb (length c'.delta) 0
            then after_callbacks a rest s' c' event
            else after_callbacks a rest (count_event s') c' (
                some (record (with_content (callback_event a s' c') none) {
                  invocation_id = s'.invocation_id;
                }))
        | fail e ↦ (s', fail e)
        | panic ↦ (s', panic)
      ]

  unfoldable pub handle_after_agent_callback :
      BaseAgent W V → Invocation W → Invocation W × Outcome (Option (Event V))
  unfolding after_callbacks
  handle_after_agent_callback a s =
      if eqb (length a.after) 0
      then (s, ok none)
      else after_callbacks a a.after s new_callback_context none

  -- `BaseAgent.Execute`: the error that it is not implemented is made and dropped.
  unfoldable pub execute : BaseAgent W V → Stream (Invocation W) V
  execute a = finished

  -- The end of `Run`, after `Execute`; the pair is yielded if there was an event before.
  unfoldable pub after_execute : BaseAgent W V → Option (Event V) → Stream (Invocation W) V
  unfolding handle_after_agent_callback
  after_execute a before_event =
      acts (λ s. if s.end_invocation then s else (handle_after_agent_callback a s).0)
        (λ s. if s.end_invocation then finished else elim (handle_after_agent_callback a s).1 [
          | fail e ↦ finished
          | panic ↦ crashed
          | ok after_event ↦
              if is_some before_event then yields (after_event, none) finished else finished
        ])

  -- `BaseAgent.Run`
  unfoldable pub run : BaseAgent W V → Stream (Invocation W) V
  unfolding create_invocation_context handle_before_agent_callbacks execute after_execute relay
  run a = acts (create_invocation_context a.name) (λ _.
      acts (λ s. (handle_before_agent_callbacks a s).0)
        (λ s. elim (handle_before_agent_callbacks a s).1 [
          | fail e ↦ finished
          | panic ↦ crashed
          | ok none ↦ relay (execute a) (after_execute a none)
          | ok (some event) ↦
              yields (some event, none)
                (acts (λ s. s)
                  (λ s.
                    if s.end_invocation
                    then finished
                    else relay (execute a) (after_execute a (some event))))
        ]))

-- ===== src/Agents/Workflow/Branches.antt =====
-- What `Run` of an agent (types/agent_base.go) yields, and what it leaves in the invocation context that
-- the agents of a workflow share.
use adk_go.Agents.Run.{
  Invocation, BaseAgent, run, execute, after_execute, create_invocation_context,
  handle_before_agent_callbacks, handle_after_agent_callback,
}
use adk_go.Agents.Stream.{
  Item, finished, crashed, out_of_fuel, seen, relay, ending, state_after, pass_on, Stream, ends,
  yields, acts,
}
use adk_go.Base.{
  some, none, Outcome, ok, fail, panic, if◌then◌else◌, refl, Option, length, arith, List, ◌≡◌, Text,
  [], All, ◌∷◌, codes, ◌<◌, map, ◌++◌, sym, append-nil, ap, length-append, ◌∙◌, append_assoc,
}
use adk_go.Event.{Event}
use adk_go.Agents.Workflow.{sequential_execute}

module _ {W V : Type 0} where
  -- What is yielded behind the event before the agent: the event after it, nil or not.
  abbrev pub heard_after : BaseAgent W V → Invocation W → List (Item V)
  heard_after a s = if s.end_invocation then [] else elim (handle_after_agent_callback a s).1 [
    | ok event ↦ (event, none) ∷ []
    | fail e ↦ []
    | panic ↦ []
  ]

  -- What is yielded with this outcome of the callbacks before the agent.
  abbrev pub heard : BaseAgent W V → Invocation W → Outcome (Option (Event V)) → List (Item V)
  heard a s (ok (some event)) = (some event, none) ∷ heard_after a s
  heard a s (ok none) = []
  heard a s (fail e) = []
  heard a s panic = []

  after_execute-some :
      (a : BaseAgent W V) (event : Event V) (s : Invocation W)
      → seen s (after_execute a (some event)) ≡ heard_after a s
  unfolding after_execute seen
  after_execute-some a event s = ground arith

  after_execute-none : (a : BaseAgent W V) (s : Invocation W) → seen s (after_execute a none) ≡ []
  unfolding after_execute seen
  after_execute-none a s = ground arith

  -- What `Run` of the base of an agent yields, with any callbacks: nothing at all, if those before the
  -- agent have no event, fail or panic, and then an event of those after it is lost; otherwise their
  -- event, and behind it, unless they ended the invocation, what those after the agent return, be it
  -- nil, unless they fail or panic.
  pub run-seen :
      (a : BaseAgent W V) (s : Invocation W)
      → let started = handle_before_agent_callbacks a (create_invocation_context a.name s) in
        seen s (run a) ≡ heard a started.0 started.1
  unfolding run seen execute relay
  run-seen a s = ground (arith, after_execute-some a, after_execute-none a)

  pub record HasNoCallbacks (a : BaseAgent W V) : Type 0 where
    pub no_before : a.before ≡ []
    pub no_after : a.after ≡ []

  abbrev entered : BaseAgent W V → Invocation W → Invocation W
  entered a s = create_invocation_context a.name s

  run-Inert :
      (a : BaseAgent W V) (s : Invocation W)
      → HasNoCallbacks a
      → (ending s (run a) ≡ ends) × (state_after s (run a) ≡ entered a s)
  unfolding run ending state_after seen execute relay after_execute handle_before_agent_callbacks
      handle_after_agent_callback
  run-Inert a s none_set = ground (arith, none_set.no_before, none_set.no_after)

  state_after-pass_on :
      (g k : Stream (Invocation W) V) (s : Invocation W)
      → ending s g ≡ ends
      → state_after s (pass_on g k) ≡ state_after (state_after s g) k
  unfolding ending state_after pass_on
  state_after-pass_on finished k s e = refl
  state_after-pass_on crashed k s e = cc
  state_after-pass_on out_of_fuel k s e = cc
  state_after-pass_on (yields i g) k s e = state_after-pass_on g k s e
  state_after-pass_on (acts f g) k s e = state_after-pass_on (g s) k (f s) e

  -- The names of the agents, each after a dot.
  abbrev pub dotted : List (BaseAgent W V) → Text
  dotted [] = []
  dotted (a ∷ agents) = codes "." ++ a.name ++ dotted agents

  entered-branch :
      (a : BaseAgent W V) (s : Invocation W)
      → 0 < length s.branch
      → (entered a s).branch ≡ s.branch ++ (codes "." ++ a.name)
  unfolding create_invocation_context
  entered-branch a s below = ground (arith, append_assoc s.branch (codes ".") a.name)

  entered-below :
      (a : BaseAgent W V) (s : Invocation W) → 0 < length s.branch → 0 < length (entered a s).branch
  entered-below a s below = rw (entered-branch a s below, length-append) (omega (arith, below))

  -- The branch is never put back: when agents without callbacks run one after the other below a branch
  -- that is not empty, as the sub-agents of a `SequentialAgent` do, the shared invocation context ends
  -- with the names of all of them behind that branch.
  pub sequential_execute-branch :
      (agents : List (BaseAgent W V)) (s : Invocation W)
      → All HasNoCallbacks agents
      → 0 < length s.branch
      → (state_after s (sequential_execute (map run agents))).branch ≡ s.branch ++ dotted agents
  unfolding sequential_execute state_after create_invocation_context
  sequential_execute-branch [] s all below = sym (append-nil s.branch)
  sequential_execute-branch (a ∷ agents) s (none_set, all) below =
      let (e, after) = run-Inert a s none_set in
      let rest = sequential_execute (map run agents) in
      ap (λ t. t.branch) (state_after-pass_on (run a) rest s e ∙ ap (λ t. state_after t rest) after)
      ∙ sequential_execute-branch agents (entered a s) all (entered-below a s below)
      ∙ ap (λ b. b ++ dotted agents) (entered-branch a s below)
      ∙ append_assoc s.branch (codes "." ++ a.name) (dotted agents)

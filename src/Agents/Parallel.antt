-- ===== src/Agents/Parallel.antt =====
-- agent/parallel_agents.go: `setBranchForCurrentAgent`, `Execute` and `MergeAgentRun`. The goroutines of
-- a merge and its consumer are the parts of a state, and the steps of `Step` are what one of them does
-- between two points where another can do something. The sub-agents share their state through a
-- pointer, as `Run` does with the invocation context. A goroutine whose run panics makes no more steps;
-- the panic ends the program, so the model lets the others do more than they do.
use adk_go.Agents.Run.{Invocation}
use adk_go.Agents.Stream.{Stream, Item, finished, yields, acts}
use adk_go.Base.{
  ℕ, Text, Bool, true, false, List, [], ◌∷◌, ◌++◌, ◌≡◌, length, eqb, if◌then◌else◌, codes, All,
}
pub mod Order
pub mod Progress
pub mod Ahead

-- `eventResult`
pub record EventResult (V : Type 0) : Type 0 where
  pub item : Item V
  pub agent_id : ℕ

-- The goroutine that runs the iterator: at the receive of its loop, in a call of `yield`, or gone.
pub data Consumer : Type 0 where
  receiving yielding returned : Consumer

-- A goroutine for each agent, told by what is left of its run; whether the context is cancelled and
-- `eventCh` closed; and the pairs that `yield` has been called with, the last of which is still with
-- the consumer while that is `yielding`.
pub record Merge (S V : Type 0) : Type 0 where
  pub shared : S
  pub goroutines : List (Stream S V)
  pub cancelled : Bool
  pub closed : Bool
  pub consumer : Consumer
  pub yielded : List (EventResult V)

-- `setBranchForCurrentAgent`
unfoldable pub set_branch_for_current_agent : {W : Type 0} → Text → Invocation W → Invocation W
set_branch_for_current_agent name s = record s {
  branch = if eqb (length s.branch) 0 then name else s.branch ++ codes "." ++ name;
}

module _ {S V : Type 0} where
  -- `MergeAgentRun`, once its goroutines are started; without any agent it returns at once.
  unfoldable pub merge_agent_run : List (Stream S V) → S → Merge S V
  merge_agent_run runs s = record {
    shared = s;
    goroutines = runs;
    cancelled = false;
    closed = false;
    consumer = if eqb (length runs) 0 then returned else receiving;
    yielded = [];
  }

  -- The deferred `cancel()`, with the return.
  unfoldable pub return_from : Merge S V → Merge S V
  return_from m = record m { consumer = returned; cancelled = true }

  abbrev pub IsOver : Stream S V → Type 0
  IsOver r = r ≡ finished

  pub data Step (m : Merge S V) : Merge S V → Type 0 where
    -- The code of an agent between two of its yields.
    acts_on :
        (pre post : List (Stream S V)) (f : S → S) (g : S → Stream S V)
        → m.goroutines ≡ pre ++ acts f g ∷ post
        → Step m (record m { shared = f m.shared; goroutines = pre ++ g m.shared ∷ post })
    -- The first case of the `select`: the channel has no buffer, so the consumer receives with it.
    sends :
        (pre post : List (Stream S V)) (i : Item V) (r : Stream S V)
        → m.goroutines ≡ pre ++ yields i r ∷ post
        → m.consumer ≡ receiving
        → Step m (record m {
          goroutines = pre ++ r ∷ post;
          consumer = yielding;
          yielded = m.yielded ++ record { item = i; agent_id = length pre } ∷ [];
        })
    -- The second case of the `select`.
    gives_up :
        (pre post : List (Stream S V)) (i : Item V) (r : Stream S V)
        → m.goroutines ≡ pre ++ yields i r ∷ post
        → m.cancelled ≡ true
        → Step m (record m { goroutines = pre ++ finished ∷ post })
    -- `wg.Wait()` and `close(eventCh)`
    closes : All IsOver m.goroutines → m.closed ≡ false → Step m (record m { closed = true })
    -- `yield` returns true, or false.
    takes : m.consumer ≡ yielding → Step m (record m { consumer = receiving })
    stops : m.consumer ≡ yielding → Step m (return_from m)
    -- The loop over the channel ends.
    leaves : m.consumer ≡ receiving → m.closed ≡ true → Step m (return_from m)
    -- The context of the caller is cancelled.
    cancels : m.cancelled ≡ false → Step m (record m { cancelled = true })

  -- What a merge can come to.
  pub data Reaches (m : Merge S V) : Merge S V → Type 0 where
    here : Reaches m m
    next : {k l : Merge S V} → Reaches m k → Step k l → Reaches m l

-- `Execute`, which sets the branch when it is called, before its iterator runs.
unfoldable pub parallel_execute :
    {W V : Type 0} → Text → List (Stream (Invocation W) V) → Invocation W → Merge (Invocation W) V
unfolding merge_agent_run set_branch_for_current_agent
parallel_execute name runs s = merge_agent_run runs (set_branch_for_current_agent name s)

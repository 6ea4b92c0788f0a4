-- ===== src/Agents/Stream.antt =====
-- The iterators of events that running an agent returns (`iter.Seq2[*types.Event, error]`), as the
-- sequence of what they do: a consumer that stops takes no more of it, since the code returns wherever
-- `yield` is false. `xiter.Error` only makes an iterator, so a call of it does nothing.
use adk_go.Event.{Event}
use adk_go.Base.{List, Option, [], some, Error, ◌∷◌, none}

-- A pair that is yielded.
abbrev pub Item : Type 0 → Type 0
Item V = Option (Event V) × Option Error

pub data Stream (S V : Type 0) : Type 0 where
  finished : Stream S V
  -- A panic.
  crashed : Stream S V
  -- Nothing more happens: the fuel of a loop has been used up, or the code waits for good.
  out_of_fuel : Stream S V
  yields : Item V → Stream S V → Stream S V
  -- Code between two yields: what it makes of the shared state, and what it goes on with.
  acts : (S → S) → (S → Stream S V) → Stream S V

pub data Ending : Type 0 where
  ends crashes goes_on : Ending

module _ {S V : Type 0} where
  -- What a consumer that never stops sees, how the run ends, and the state that it leaves.
  unfoldable pub seen : S → Stream S V → List (Item V)
  seen s finished = []
  seen s crashed = []
  seen s out_of_fuel = []
  seen s (yields i g) = i ∷ seen s g
  seen s (acts f g) = seen (f s) (g s)

  unfoldable pub ending : S → Stream S V → Ending
  ending s finished = ends
  ending s crashed = crashes
  ending s out_of_fuel = goes_on
  ending s (yields i g) = ending s g
  ending s (acts f g) = ending (f s) (g s)

  unfoldable pub state_after : S → Stream S V → S
  state_after s finished = s
  state_after s crashed = s
  state_after s out_of_fuel = s
  state_after s (yields i g) = state_after s g
  state_after s (acts f g) = state_after (f s) (g s)

  -- `for event, err := range g { if !yield(event, err) { return } }` and what follows.
  unfoldable pub pass_on : Stream S V → Stream S V → Stream S V
  pass_on finished k = k
  pass_on crashed k = crashed
  pass_on out_of_fuel k = out_of_fuel
  pass_on (yields i g) k = yields i (pass_on g k)
  pass_on (acts f g) k = acts f (λ s. pass_on (g s) k)

  -- The same loop, which returns at an error.
  unfoldable pub relay : Stream S V → Stream S V → Stream S V
  relay finished k = k
  relay crashed k = crashed
  relay out_of_fuel k = out_of_fuel
  relay (yields (e, some err) g) k = finished
  relay (yields (e, none) g) k = yields (e, none) (relay g k)
  relay (acts f g) k = acts f (λ s. relay (g s) k)

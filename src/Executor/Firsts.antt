-- ===== src/Executor/Firsts.antt =====
-- `deduplicateBlocks` (codeexecutor/delimiters.go): which blocks it keeps.
use adk_go.Executor.Blocks.{CodeBlock, deduplicate_blocks, deduplicate_from, span_key, is_in}
use adk_go.GoMap
use adk_go.GoMap.{GoMap}
use adk_go.GoMap.Laws.{get-set}
use adk_go.Base.{
  ℕ, Text, Bool, List, ◌∷◌, ◌≡◌, [], if◌then◌else◌, arith, ◌==◌, ==_iff, text_comparable, true,
}

module _ (decimal : ℕ → Text) where
  -- The blocks with a span, by the text of the span.
  abbrev pub blocks_at : Text → List CodeBlock → List CodeBlock
  blocks_at key [] = []
  blocks_at key (b ∷ bs) =
      if span_key decimal b == key then b ∷ blocks_at key bs else blocks_at key bs

  abbrev pub first_of : List CodeBlock → List CodeBlock
  first_of [] = []
  first_of (b ∷ bs) = b ∷ []

  from-blocks_at :
      (key : Text) (seen : GoMap Text Bool) (bs : List CodeBlock)
      → blocks_at key (deduplicate_from decimal seen bs)
        ≡ (if is_in key seen then [] else first_of (blocks_at key bs))
  unfolding deduplicate_from
  from-blocks_at key seen [] = ground arith
  from-blocks_at key seen (b ∷ bs) =
      let at = span_key decimal b in
      ground (
        arith,
        ==_iff at key,
        get-set at key true seen,
        from-blocks_at key seen bs,
        from-blocks_at key (GoMap.set at true seen) bs,
      )

  -- Of the blocks with one span, as its key tells it, `deduplicateBlocks` keeps the first and no other.
  pub deduplicate_blocks_lem :
      (key : Text) (bs : List CodeBlock)
      → blocks_at key (deduplicate_blocks decimal bs) ≡ first_of (blocks_at key bs)
  unfolding deduplicate_blocks GoMap.get
  deduplicate_blocks_lem key bs = from-blocks_at key [] bs

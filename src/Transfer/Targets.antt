-- ===== src/Transfer/Targets.antt =====
-- The order of the transfer targets (flow/llmflow/agent_transfer.go).
use adk_go.Transfer.{add_peers, get_transfer_targets}
use mathlib.Core.List.{reverse, reverse-cons}
use adk_go.Base.{
  refl, Text, List, keep, some, ◌∷◌, ◌≡◌, not, true, ◌++◌, arith, false, text_eq, [], ok, ap, ◌∙◌,
  append_assoc, sym,
}

module _ {A : Type 0} (name : A → Text) where
  abbrev pub others : Text → List A → List A
  others own peers = keep (λ a. not (text_eq (name a) own)) peers

  reverse-cons_append : (a : A) (l r : List A) → reverse (a ∷ l) ++ r ≡ reverse l ++ a ∷ r
  reverse-cons_append a l r =
      ap (λ t. t ++ r) (reverse-cons a l) ∙ append_assoc (reverse l) (a ∷ []) r

  add_peers_lem :
      (own : Text) (agents peers : List A)
      → add_peers name own agents peers ≡ reverse (others own peers) ++ agents
  unfolding add_peers
  add_peers_lem own agents [] = refl
  add_peers_lem own agents (peer ∷ peers) = ground (
    arith,
    add_peers_lem own agents peers,
    add_peers_lem own (peer ∷ agents) peers,
    reverse-cons_append peer (others own peers) agents,
  )

  -- An agent whose parent is an LLM agent may transfer, where nothing is disallowed, to its peers, in
  -- the reverse of their order, then to its sub-agents, then to its parent; a peer is any sub-agent of
  -- the parent with another name.
  pub get_transfer_targets_lem :
      (own : Text) (sub_agents peers : List A) (parent : A)
      → get_transfer_targets name own sub_agents (some (parent, true, peers)) false false
        ≡ ok (reverse (others own peers) ++ sub_agents ++ parent ∷ [])
  unfolding get_transfer_targets
  get_transfer_targets_lem own sub_agents peers parent = ap ok (
      add_peers_lem own (sub_agents ++ parent ∷ []) peers
      ∙ sym (append_assoc (reverse (others own peers)) sub_agents (parent ∷ [])))

-- ===== src/Agents.antt =====
-- types/agent_base.go: the tree of agents and the search in it. An agent is what the search reads, its
-- name and its sub-agents; agents of every kind pass the search on to their base.
pub mod Search
pub mod Stream
pub mod Run
pub mod Workflow
pub mod Parallel
use adk_go.Base.{Text, List, Option, Bool, text_eq, if◌then◌else◌, none, some, [], ◌∷◌, or_else}

mutual
  -- An agent, with a handle that tells it from the others.
  pub data Agent (H : Type 0) : Type 0 where
    agent : H → Text → SubAgents H → Agent H

  pub data SubAgents (H : Type 0) : Type 0 where
    no_agents : SubAgents H
    more_agents : Agent H → SubAgents H → SubAgents H

unfoldable mutual
  -- `FindAgent`
  pub find_agent : {H : Type 0} → Text → Agent H → Option H
  find_agent name (agent h own subs) = if text_eq name own then some h else find_sub_agent name subs

  -- `FindSubAgent`, on the sub-agents.
  pub find_sub_agent : {H : Type 0} → Text → SubAgents H → Option H
  find_sub_agent name no_agents = none
  find_sub_agent name (more_agents a subs) = or_else (find_agent name a) (find_sub_agent name subs)

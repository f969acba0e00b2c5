-- ===== src/Forwarder/Choice/Winner.antt =====
-- The agent that a task goes to.
use agentcy.Prelude.{ℕ, ◌≤◌, ◌≡◌, ◌⊎◌, String, List, [], none, All}
use mathlib.Core.List.{Mem}
use agentcy.Tracker.Sequence.{SequenceStore}
use agentcy.Registry.Entry.{Entry}
use agentcy.Registry.Store.{Registry}
use agentcy.Registry.Store.Listing.{Shown}
use agentcy.Contracts.Awards.{ContractAward}
use agentcy.Forwarder.Choice.{able, Task, Env}

-- An agent that may be chosen among some: it is one of them, is shown for its capability, and where
-- there is no exploration no other of them has a greater score.
pub record IsChosen (env : Env) (warn old : ℕ) (capability : String) (agents : List Entry)
    (service_name : String) : Type 0 where
  pub agent : Entry
  pub registered : Mem agent agents
  pub shown : Shown warn old env.now (able capability) agent
  pub serves : service_name ≡ agent.service_name
  pub best : env.explore ≡ none → All (λ other. env.score other ≤ env.score agent) agents

module _ (env : Env) (warn old : ℕ) (task : Task) (capability : String) (sequences : SequenceStore)
    (awards : List ContractAward) where
  Named : List Entry → String → Type 0
  Named agents service =
      ((service ≡ capability) × (agents ≡ [])) ⊎ IsChosen env warn old capability agents service

-- ===== src/Forwarder/Choice.antt =====
-- `_resolve_competing_service` of src/agentcy/agent_runtime/forwarder.py: the service that a task
-- goes to when several agents offer its capability. The scores of the agents are floating-point and
-- given, in millionths, as are the agent that exploration moves to the front and the keys under
-- which the bids are stored. The registry and the graph marker store are configured and do not raise.
pub mod Winner
use agentcy.Prelude.{ℕ, zero, suc, String, List, [], ◌∷◌, ◌++◌, Option, none, some, map, get_elem?}
use agentcy.Tracker.Sequence.{Candidate, SequenceStore}
use agentcy.Registry.Entry.{Entry}
use agentcy.Registry.Policy.{Config}
use agentcy.Registry.Store.{Registry, Filter, list}
use agentcy.Contracts.Ranking.{sort_desc}
use agentcy.Contracts.Awards.{ContractAward}
use agentcy.Contracts.Drafts.{sequence_key, save_evaluation_sequence}

abbrev pub named : String → Filter
named service_name = record { service_name = service_name; capability = ""; status = ""; tags = [] }

abbrev pub able : String → Filter
able capability = record { service_name = ""; capability = capability; status = ""; tags = [] }

module _ {ℓ} {A : Type ℓ} where
  unfoldable pub set_at : ℕ → A → List A → List A
  set_at i x [] = []
  set_at zero x (y ∷ ys) = x ∷ ys
  set_at (suc i) x (y ∷ ys) = y ∷ set_at i x ys

  -- The first element and the one behind it at position `i` change places.
  unfoldable pub swap_first : ℕ → List A → List A
  swap_first i [] = []
  swap_first i (x ∷ xs) = elim (get_elem? xs i) [ none ↦ x ∷ xs | some y ↦ y ∷ set_at i x xs ]

pub record Task : Type 0 where
  pub username : String
  pub task_id : String
  pub pipeline_id : String
  pub pipeline_run_id : String

-- The clock, the scores, the position behind the first that exploration picks, and the keys of the
-- stored bids by bidder.
pub record Env : Type 0 where
  pub config : Config
  pub now : ℕ
  pub score : Entry → ℕ
  pub explore : Option ℕ
  pub bid_id : String → Option String

-- The service, the agents in the order of the sequence, and the stores.
pub record Resolved : Type 0 where
  pub service_name : String
  pub ranking : List Entry
  pub sequences : SequenceStore
  pub awards : List ContractAward

unfoldable pub rank_agents : Env → List Entry → List Entry
rank_agents env agents = elim env.explore [
  | none ↦ sort_desc env.score agents
  | some i ↦ swap_first i (sort_desc env.score agents)
]

abbrev pub candidate_of : Env → Entry → Candidate
candidate_of env agent = record {
  bidder_id = agent.agent_id;
  bid_score = env.score agent;
  bid_id = env.bid_id agent.agent_id;
  cfp_id = none;
}

abbrev pub award_of : Env → Task → Entry → ContractAward
award_of env task agent = record {
  task_id = task.task_id;
  bidder_id = agent.agent_id;
  bid_id = env.bid_id agent.agent_id;
  cfp_id = none;
  pipeline_id = some task.pipeline_id;
  pipeline_run_id = some task.pipeline_run_id;
  awarded_at = env.now;
}

-- The first of the ranking is awarded; the sequence is stored under the pipeline as its plan.
unfoldable pub bid_out :
    Env → Task → String → List Entry → SequenceStore → List ContractAward → Resolved
bid_out env task available_services [] sequences awards = record {
  service_name = available_services;
  ranking = [];
  sequences = sequences;
  awards = awards;
}
bid_out env task available_services (winner ∷ others) sequences awards = record {
  service_name = winner.service_name;
  ranking = winner ∷ others;
  sequences =
      save_evaluation_sequence (sequence_key task.username task.task_id task.pipeline_id)
        (record { candidates = map (candidate_of env) (winner ∷ others); current_index = 0 })
        sequences;
  awards = awards ++ award_of env task winner ∷ [];
}

-- One agent at most needs no bids.
unfoldable pub among :
    Env → Task → String → List Entry → SequenceStore → List ContractAward → Resolved
among env task available_services [] sequences awards = record {
  service_name = available_services;
  ranking = [];
  sequences = sequences;
  awards = awards;
}
among env task available_services (agent ∷ []) sequences awards = record {
  service_name = agent.service_name;
  ranking = [];
  sequences = sequences;
  awards = awards;
}
among env task available_services (a ∷ b ∷ agents) sequences awards =
    bid_out env task available_services (rank_agents env (a ∷ b ∷ agents)) sequences awards

unfoldable pub resolve_competing_service :
    Env → Task → String → Registry → SequenceStore → List ContractAward → Resolved
resolve_competing_service env task available_services registry sequences awards =
    elim (list env.config env.now (named available_services) registry) [
      | direct ∷ more ↦ record {
        service_name = available_services;
        ranking = [];
        sequences = sequences;
        awards = awards;
      }
      | [] ↦
          among env task available_services
            (list env.config env.now (able available_services) registry) sequences awards
    ]

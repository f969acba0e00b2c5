-- ===== src/Contracts/Witnesses.antt =====
-- The theorems on bids, awards, agents and cycles at two agents that bid for one task.
use agentcy.Prelude.{
  String, All, ℕ, suc, ◌+◌, ◌-◌, ◌≡◌, ◌↔◌, refl, true, none, some, [], ◌∷◌, ◌++◌, arith, string_eq,
  get, contains, ltb, if◌then◌else◌,
}
use agentcy.Registry.Entry.{Entry}
use agentcy.Registry.Policy.{has_expired}
use agentcy.Registry.Store.{get_raw, live}
use agentcy.Contracts.Ranking.{head?}
use agentcy.Contracts.Bids.{or_nil, best_bids, ranked_bids}
use agentcy.Contracts.Bids.Best.{best_bids-eq-head}
use agentcy.Contracts.Bids.Rankings.{IsRankingOf, ranked_bids-IsRankingOf}
use agentcy.Contracts.Agents.{min, awarded_metadata, update_cnp_metadata, increment_agent_load}
use agentcy.Contracts.Agents.Loads.{counters_of, award-completed, increment_agent_load-counters}
use agentcy.Contracts.Awards.{award_each, award_pass}
use agentcy.Contracts.Awards.Once.{award_after, get-award_each}
use agentcy.Contracts.Awards.Again.{award_pass_again}
use agentcy.Contracts.Cycle.{
  CycleState, bidding, awarding, completed, BidResult, Command, unbound_variable, rounds_of,
  first_state, run_rounds, handle_run_cnp_cycle,
}
use agentcy.Contracts.Cycle as Cycle
use agentcy.Contracts.Cycle.Rounds.{Ran}
use agentcy.Contracts.Cycle.Saves.{statuses, repeat, statuses-handle_run_cnp_cycle}
use agentcy.Contracts.Cycle.Ends.{Ended, handle_run_cnp_cycle-Ended}
use agentcy.Contracts.Drafts.Sequences.{Distinct}
use agentcy.Contracts.Drafts.Reoffers.{Placed, best_of, earlier_of}
use agentcy.Contracts.Specs.{StoredSpec, gather, build_from_stored}
use agentcy.Contracts.Specs.Sources.{spec_for, is_some}
use agentcy.Contracts.Specs.Once.{task_ids_of, Specified, build_from_stored-planned}
use agentcy.Contracts.Samples.{
  agent, registry, low, high, bids, env, rules, spec, board, stores, services,
}

ranked_bids-IsRankingOf_example :
    IsRankingOf rules "t1" bids (high ∷ low ∷ [])
    ↔ (high ∷ low ∷ [] ≡ or_nil (get "t1" (ranked_bids rules bids)))
ranked_bids-IsRankingOf_example = ranked_bids-IsRankingOf rules "t1" bids (high ∷ low ∷ [])

best_bids-eq-head_example :
    get "t1" (best_bids rules bids) ≡ head? (or_nil (get "t1" (ranked_bids rules bids)))
best_bids-eq-head_example = best_bids-eq-head rules "t1" bids

get-award_each_example :
    get "t1" (award_each env (("t1", high) ∷ []) (spec ∷ []) [] board).0
    ≡ award_after env "t1" none true (some high)
unfolding get contains
get-award_each_example = get-award_each env (("t1", high) ∷ []) "t1" (spec ∷ []) [] board

award_pass_again_example :
    (award_pass
      (record env { now = 60000000 })
      (best_bids rules bids)
      (spec ∷ [])
      (award_pass env (best_bids rules bids) (spec ∷ []) board).1).1
    ≡ (award_pass env (best_bids rules bids) (spec ∷ []) board).1
award_pass_again_example =
    award_pass_again env (best_bids rules bids) (spec ∷ []) board 60000000 rules bids (λ t e. e)

award-completed_example :
    counters_of 3 (record agent {
      metadata =
          update_cnp_metadata 3
            (λ state. 500000)
            "plan"
            true
            (record agent { metadata = awarded_metadata 3 "t1" agent });
    })
    ≡ (let c = counters_of 3 agent in
        record {
          received = c.received + 1;
          acquired = c.acquired + 1;
          completed = c.completed + 1;
          load = if ltb c.load c.capacity then c.load else c.capacity - 1;
          capacity = c.capacity;
        })
award-completed_example = award-completed 3 (λ state. 500000) "t1" "plan" true agent

increment_agent_load-counters_example :
    (after : Entry) × (get_raw 60000000 "agent-1"
        (increment_agent_load env.config 3 300 50000000 "agent-1" "t1" registry)
      ≡ some after)
    × (counters_of 3 after ≡ (
        let c = counters_of 3 agent in
        record c { received = c.received + 1; load = min (c.load + 1) c.capacity }))
unfolding get_raw live has_expired get
increment_agent_load-counters_example =
    increment_agent_load-counters env.config 3 300 50000000 "agent-1" "t1" registry agent 60000000
      refl (omega arith) (omega arith)

-- The second round brings the bid for the task.
abbrev cycle_env : Cycle.Env
cycle_env = record {
  bid_round =
      λ round. some (record { bids_created = 1; cfps_created = 1; cfp_ids = []; stimulus = 0 });
  bids_after = λ round. some (if ltb 1 round then "t1" ∷ [] else []);
  task_specs = some 1;
  built = some (record { plan_id = "plan-1"; assignments = 0 });
  default_rounds = 3;
}

abbrev command : Command
command = record { task_ids = "t1" ∷ []; max_rounds = 0 }

statuses-handle_run_cnp_cycle_example :
    (n : ℕ) × Ran cycle_env command
      (rounds_of cycle_env command)
      1
      (first_state cycle_env command)
      (run_rounds cycle_env command
        (rounds_of cycle_env command)
        1
        (first_state cycle_env command)).0
      n
    × (statuses (handle_run_cnp_cycle cycle_env command).1
        ≡ repeat (suc n) bidding ++ awarding ∷ completed ∷ [])
statuses-handle_run_cnp_cycle_example = statuses-handle_run_cnp_cycle cycle_env command

handle_run_cnp_cycle-Ended_example :
    (c : CycleState) × Ended
      (rounds_of cycle_env command)
      completed
      (handle_run_cnp_cycle cycle_env command).0
      (handle_run_cnp_cycle cycle_env command).1
      c
handle_run_cnp_cycle-Ended_example = handle_run_cnp_cycle-Ended cycle_env command

-- The spec as it is stored; the configuration has it as well.
abbrev stored : StoredSpec
stored = record {
  task_id = some "t1";
  pipeline_id = some "p1";
  pipeline_run_id = none;
  validated = some spec;
}

build_from_stored-planned_example :
    Distinct (
      task_ids_of
        (build_from_stored env "ada" "plan-1" (stored ∷ []) (spec ∷ []) bids services [] stores).0)
    × ((t : String)
        → contains t (
            task_ids_of
              (build_from_stored env "ada" "plan-1"
                (stored ∷ [])
                (spec ∷ [])
                bids
                services
                []
                stores).0)
          ≡ is_some (spec_for env (stored ∷ []) (spec ∷ []) t))
    × All
        (Specified env (stored ∷ []) (spec ∷ []))
        (build_from_stored env "ada" "plan-1"
          (stored ∷ [])
          (spec ∷ [])
          bids
          services
          []
          stores).0.tasks
    × All
        (Placed env
          (best_of env "ada" "plan-1"
            (gather env (stored ∷ []) (spec ∷ []))
            bids
            services
            []
            stores)
          (earlier_of env "ada" "plan-1"
            (gather env (stored ∷ []) (spec ∷ []))
            bids
            services
            []
            stores)
          [])
        (build_from_stored env "ada" "plan-1"
          (stored ∷ [])
          (spec ∷ [])
          bids
          services
          []
          stores).0.tasks
build_from_stored-planned_example =
    build_from_stored-planned env "ada" "plan-1" bids services [] stores (stored ∷ []) (spec ∷ [])

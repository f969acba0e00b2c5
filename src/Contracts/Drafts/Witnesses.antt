-- ===== src/Contracts/Drafts/Witnesses.antt =====
-- The theorems on builds at two agents that bid for one task of a run.
use agentcy.Prelude.{
  All, map, keep, ◌≡◌, refl, true, none, some, [], ◌∷◌, string_eq, get, put, take, contains,
}
use agentcy.Contracts.Ranking.{sort_desc, insert_desc}
use agentcy.Contracts.Bids.{
  entrant, is_allowed, min_score, note_bid, group_from, sort_each, ranked_bids,
}
use agentcy.Contracts.Awards.{counts, open_cfps, call_ids, min_scores, rules_of}
use agentcy.Contracts.Drafts.{to_candidate, sequence_key, Stores, build_plan_draft}
use agentcy.Contracts.Drafts.Reoffers.{draft_of, earlier_of, GoesTo, build_plan_draft-reoffers}
use agentcy.Tracker.Sequence.Offers.{offers, indexed}
use agentcy.Prelude.Keys.{triple_beq}
use agentcy.Tracker.Status.{TaskStatus, PipelineStatus, member}
use agentcy.Tracker.Run.{TaskState, PipelineRun, valid, read_run}
use agentcy.Tracker.Reforward as Reforward
use agentcy.Tracker.Reforward.{Tracker, try_reforward}
use agentcy.Contracts.Drafts.{run_key}
use agentcy.Contracts.Drafts.Handover.{reforwarded_to, built, build_plan_draft-handover}
use agentcy.Contracts.Samples.{low, high, bids, env, spec, stores, services}

build_plan_draft-reoffers_example :
    (contains "t1" (
        map
          (λ task. task.task_id)
          (draft_of env "ada" "plan-1" (spec ∷ []) bids services [] stores).tasks)
      ≡ true)
    × All
        (GoesTo env "t1" high
          (get "t1" (earlier_of env "ada" "plan-1" (spec ∷ []) bids services [] stores)))
        (draft_of env "ada" "plan-1" (spec ∷ []) bids services [] stores).tasks
    × (offers 3
          (sequence_key "ada" "t1" "plan-1")
          (build_plan_draft env "ada" "plan-1" (spec ∷ []) bids services [] stores).1.sequences
        ≡ take 3 (indexed 1 (to_candidate low ∷ [])))
unfolding ranked_bids group_from note_bid entrant is_allowed min_score sort_each sort_desc
    insert_desc rules_of open_cfps counts call_ids min_scores get put contains keep
build_plan_draft-reoffers_example =
    build_plan_draft-reoffers env "ada" "plan-1" (spec ∷ []) bids services [] stores "t1" high low
      [] 3 refl refl

abbrev task : TaskState
task = record {
  status = member TaskStatus.failed;
  attempts = 0;
  error = none;
  is_final_task = true;
  pipeline_run_id = "r1";
  task_id = "t1";
  username = "ada";
  pipeline_id = "p1";
  service_name = "planner";
  output = none;
}

abbrev pipeline_run : PipelineRun
pipeline_run = record {
  status = PipelineStatus.running;
  tasks = ("t1", task) ∷ [];
  finished_at = none;
  final_task_ids = "t1" ∷ [];
}

abbrev running : Stores
running = record stores { runs = (run_key "ada" "p1" "r1", valid pipeline_run none) ∷ [] }

abbrev tracker_env : Reforward.Env
tracker_env = record {
  reforward = true;
  has_marker_store = true;
  config = λ u p. none;
  ticks = 1000;
  capitalize = λ s. s;
  upper = λ s. s;
}

abbrev tracker : Tracker
tracker = record {
  runs = [];
  sequences = [];
  awards = [];
  dedupe = [];
  reassigned = [];
  triggered = [];
  stops = [];
}

build_plan_draft-handover_example :
    (read_run
        (run_key "ada" "p1" "r1")
        (built env "plan-1" "r1" (spec ∷ []) bids services [] running task).runs
      ≡ some (valid pipeline_run (some "plan-1")))
    × (reforwarded_to
          (try_reforward tracker_env
            (record tracker {
              sequences =
                  (built env "plan-1" "r1" (spec ∷ []) bids services [] running task).sequences;
            })
            task
            pipeline_run
            (some "plan-1")).info
        ≡ some "agent-1")
unfolding ranked_bids group_from note_bid entrant is_allowed min_score sort_each sort_desc
    insert_desc rules_of open_cfps counts call_ids min_scores get put contains keep read_run
    triple_beq
build_plan_draft-handover_example =
    build_plan_draft-handover env "plan-1" "r1" (spec ∷ []) bids services [] running task
      pipeline_run none task tracker_env tracker high low [] refl refl refl refl refl refl refl

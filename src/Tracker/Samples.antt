-- ===== src/Tracker/Samples.antt =====
-- Small states and events of the tracker, and what it does on them.
use agentcy.Prelude.{
  ℕ, ◌≡◌, refl, String, Bool, true, false, List, [], ◌∷◌, Option, none, some, arith, string_eq, get,
  put, without, keep, contains as mem,
}
use agentcy.Prelude.Keys.{Triple, triple_beq}
use agentcy.Tracker.LruSet.{contains, add, purge, purge_expired, evict, refresh}
use agentcy.Tracker.Status.{
  TaskStatus, PipelineStatus, member, text, parse, to_enum, order, forward_only, status_beq,
}
use agentcy.Tracker.Run.{TaskState, PipelineRun, valid, read_run, update_run}
use agentcy.Tracker.Finals.{
  finals, derive_finals_from_cfg, service_for_task, services_from_cfg, stop_services, add_new,
}
use agentcy.Tracker.Sequence.{Candidate, EvaluationSequence, advance_evaluation_sequence}
use agentcy.Tracker.Reforward.{Tracker, Env, event_key_beq, event_key_eq, reassign, try_reforward}
use agentcy.Tracker.Handler.{
  Moment, event_key, deduper, enum_of, all_done, settle, fail_or_reforward, decide_run, emit_stops,
  persist, apply_event, handle, on_task_done,
}
use agentcy.Tracker.Handler.Cases.{Accepted}
use agentcy.Tracker.Handler.Redelivery.{Ready}
use agentcy.Tracker.Handler.Events.{process}

abbrev pub env : Env
env = record {
  reforward = true;
  has_marker_store = true;
  config = λ u p. none;
  ticks = 1000;
  capitalize = λ s. s;
  upper = λ s. s;
}

abbrev pub task : TaskStatus → ℕ → TaskState
task s attempts = record {
  status = member s;
  attempts = attempts;
  error = none;
  is_final_task = false;
  pipeline_run_id = "run-1";
  task_id = "t1";
  username = "alice";
  pipeline_id = "pipe-1";
  service_name = "svc-a";
  output = none;
}

abbrev pub key : Triple
key = record { first = "alice"; second = "pipe-1"; third = "run-1" }

abbrev pub run_with : TaskStatus → PipelineRun
run_with s = record {
  status = PipelineStatus.running;
  tasks = ("t1", task s 0) ∷ [];
  finished_at = none;
  final_task_ids = "t1" ∷ [];
}

abbrev pub bid : String → ℕ → Candidate
bid bidder score = record { bidder_id = bidder; bid_score = score; bid_id = none; cfp_id = none }

abbrev pub ranking : EvaluationSequence
ranking = record { candidates = bid "svc-a" 900 ∷ bid "svc-b" 700 ∷ []; current_index = 0 }

abbrev pub ranking_key : Triple
ranking_key = record { first = "alice"; second = "t1"; third = "plan-1" }

abbrev pub start : Option String → Tracker
start plan = record {
  runs = (key, valid (run_with TaskStatus.running) plan) ∷ [];
  sequences = (ranking_key, ranking) ∷ [];
  awards = [];
  dedupe = [];
  reassigned = [];
  triggered = [];
  stops = [];
}

abbrev pub at_time : ℕ → Moment
at_time n = record { tested = n; noted = n; wall = n }

unfoldable pub program : Unit {0}
unfolding get put without keep mem triple_beq contains add purge purge_expired evict refresh parse
    to_enum order forward_only status_beq read_run update_run finals derive_finals_from_cfg
    service_for_task services_from_cfg stop_services add_new advance_evaluation_sequence
    event_key_beq reassign try_reforward event_key deduper enum_of all_done settle fail_or_reforward
    decide_run emit_stops persist apply_event handle on_task_done process
program = tt

-- The first candidate fails: the second is asked, and the run stays RUNNING.
asked :
    (on_task_done env (at_time 5) (start (some "plan-1")) (task TaskStatus.failed 0)).0.sequences
    ≡ (ranking_key, record ranking { current_index = 1 }) ∷ []
unfolding program
asked = refl

lower_case : to_enum (λ s. s) (λ s. "FAILED") (text "failed") ≡ some TaskStatus.failed
unfolding program
lower_case = refl

pub accepted :
    (s : TaskStatus) (plan : Option String)
    → ◌≡◌ {A = Bool} (forward_only TaskStatus.running s) true
    → Accepted env
        (at_time 5)
        (start plan)
        (task s 0)
        s
        (run_with TaskStatus.running)
        plan
        (task TaskStatus.running 0)
unfolding program
accepted s plan h = record {
  known = refl;
  fresh = refl;
  read = refl;
  stored = refl;
  onward = ground (arith, h);
}

pub ready : (plan : Option String) → Ready env (start plan) 0
unfolding deduper get
ready plan id = record {
  valid = record { distinct = tt; chain = omega arith; bounded = omega arith };
  size = refl;
  hour = refl;
}

abbrev pub events : List (Moment × TaskState)
events = (at_time 6, task TaskStatus.running 0) ∷ (at_time 7, task TaskStatus.failed 1) ∷ []

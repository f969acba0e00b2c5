-- ===== src/Tracker/Reforward.antt =====
-- The state of `PipelineRunTracker` with the stores that it writes, and `_try_reforward_sync` of
-- src/agentcy/agent_runtime/tracker.py.
use agentcy.Prelude.{
  ℕ, String, Bool, true, List, ◌∷◌, Option, none, some, Eq, ◌==◌, string_eq, Dict, get, put, truthy,
  nat_beq, ◌&&◌, ◌≡◌, ◌↔◌, arith, eq_iff, if◌then◌else◌,
}
use agentcy.Prelude.Keys.{Triple, triple_eq}
use agentcy.Tracker.LruSet.{LruSet}
use agentcy.Tracker.Status.{TaskStatus, member, status_eq}
use agentcy.Tracker.Run.{TaskState, PipelineRun, RunStore}
use agentcy.Tracker.Finals.{Config, service_for_task, text_or}
use agentcy.Tracker.Sequence.{Candidate, SequenceStore, Advanced, advance_evaluation_sequence}

-- The string of `_event_key` by its parts: task, status and attempts (a `TaskState` has neither a
-- `sequence` nor an `updated_at`).
pub record EventKey : Type 0 where
  pub task_id : String
  pub status : TaskStatus
  pub attempts : ℕ

unfoldable pub event_key_beq : EventKey → EventKey → Bool
event_key_beq a b = a.task_id == b.task_id && a.status == b.status && nat_beq a.attempts b.attempts

pub event_key_beq_iff : (a b : EventKey) → (event_key_beq a b ≡ true) ↔ (a ≡ b)
unfolding event_key_beq
event_key_beq_iff a b =
    ground (arith, eq_iff a.task_id b.task_id, status_eq.beq_iff a.status b.status)

instance abbrev pub event_key_eq : Eq EventKey
event_key_eq = record { beq = event_key_beq; beq_iff = event_key_beq_iff }

pub record ContractAward : Type 0 where
  pub task_id : String
  pub bidder_id : String
  pub bid_id : Option String
  pub cfp_id : Option String
  pub pipeline_id : String
  pub pipeline_run_id : String

pub record ReassignTaskCommand : Type 0 where
  pub key : Triple
  pub plan_id : String
  pub task_id : String
  pub failed_agent_id : String

-- A stop command for one service of one run.
pub record StopCommand : Type 0 where
  pub service_name : String
  pub key : Triple

-- `stops`, `reassigned` and `triggered` are the messages that the tracker has scheduled, the
-- newest first; `triggered` goes to the strategist loop.
pub record Tracker : Type 0 where
  pub runs : RunStore
  pub sequences : SequenceStore
  pub awards : List ContractAward
  pub dedupe : Dict String (LruSet EventKey)
  pub reassigned : List ReassignTaskCommand
  pub triggered : List EventKey
  pub stops : List StopCommand

-- What the tracker reads from its surroundings: `CNP_FAILURE_REFORWARD`, whether there is a graph
-- marker store, the configuration of a pipeline by user name and pipeline, the ticks of the clock
-- in a second, and Python's `str.capitalize` and `str.upper`.
pub record Env : Type 0 where
  pub reforward : Bool
  pub has_marker_store : Bool
  pub config : String → String → Option Config
  pub ticks : ℕ
  pub capitalize : String → String
  pub upper : String → String

pub record ReforwardInfo : Type 0 where
  pub task_id : String
  pub new_service : String
  pub new_agent_id : String
  pub sequence_index : ℕ
  pub bid_score : ℕ

abbrev pub run_key : TaskState → Triple
run_key t = record { first = t.username; second = t.pipeline_id; third = t.pipeline_run_id }

abbrev or_text : Option String → String → String
or_text none d = d
or_text (some s) d = if truthy s then s else d

-- The three values that the call leaves behind: the state, the run in memory, and the result.
pub record Reforwarded : Type 0 where
  pub tracker : Tracker
  pub run : PipelineRun
  pub info : Option ReforwardInfo

-- A candidate was found: the award, the reset task and the message.
unfoldable pub reassign :
    Env → Tracker → TaskState → PipelineRun → String → TaskState → Candidate → ℕ → Reforwarded
reassign env st t run plan_id task_state c index =
    let service =
      or_text (service_for_task (env.config t.username t.pipeline_id) t.task_id) c.bidder_id in
    let award : ContractAward = record {
      task_id = t.task_id;
      bidder_id = c.bidder_id;
      bid_id = c.bid_id;
      cfp_id = c.cfp_id;
      pipeline_id = t.pipeline_id;
      pipeline_run_id = t.pipeline_run_id;
    } in
    let command : ReassignTaskCommand = record {
      key = run_key t;
      plan_id = plan_id;
      task_id = t.task_id;
      failed_agent_id = or_text (some task_state.service_name) "unknown";
    } in
    let updated = record task_state {
      status = member TaskStatus.pending;
      error = none;
      service_name = service;
    } in
    record {
      tracker = record st { awards = award ∷ st.awards; reassigned = command ∷ st.reassigned };
      run = record run { tasks = put t.task_id updated run.tasks };
      info = some (record {
        task_id = t.task_id;
        new_service = service;
        new_agent_id = c.bidder_id;
        sequence_index = index;
        bid_score = c.bid_score;
      });
    }

abbrev pub unchanged : Tracker → PipelineRun → Reforwarded
unchanged st run = record { tracker = st; run = run; info = none }

-- `task_state` is the stored state of the task.
abbrev pub ask_next :
    Env → Tracker → TaskState → PipelineRun → String → TaskState → Advanced → Reforwarded
ask_next env st t run plan_id task_state (sequences, none) =
    unchanged (record st { sequences = sequences }) run
ask_next env st t run plan_id task_state (sequences, some (c, index)) =
    reassign env (record st { sequences = sequences }) t run plan_id task_state c index

abbrev pub with_plan :
    Env → Tracker → TaskState → PipelineRun → String → Option TaskState → Reforwarded
with_plan env st t run plan_id none = unchanged st run
with_plan env st t run plan_id (some task_state) = ask_next env st t run plan_id task_state (
    advance_evaluation_sequence (record { first = t.username; second = t.task_id; third = plan_id })
      st.sequences)

-- `plan_id` is that of the stored document.
unfoldable pub try_reforward : Env → Tracker → TaskState → PipelineRun → Option String → Reforwarded
try_reforward env st t run plan_id =
    if env.reforward && env.has_marker_store
    then elim (text_or plan_id none) [
      | none ↦ unchanged st run
      | some plan ↦ with_plan env st t run plan (get t.task_id run.tasks)
    ]
    else unchanged st run

-- ===== src/Tracker/Handler.antt =====
-- `on_task_done` of src/agentcy/agent_runtime/tracker.py. An event is handled in one step: the lock
-- of the run is held from the read of the document to the end. The messages are scheduled, not
-- awaited, so they come as entries of the state. The stores answer: a call of a store that raises
-- is not modelled.
pub mod Frame
pub mod Cases
pub mod Redelivery
pub mod Completion
pub mod RunEnd
pub mod Stops
pub mod Events
pub mod Reassigned
pub mod Replaced
pub mod Forward
use agentcy.Prelude.{
  ℕ, ◌*◌, String, Bool, true, false, List, [], ◌∷◌, ◌++◌, map, Option, none, some, ◌==◌, ◌&&◌, ◌||◌,
  string_eq, Dict, get, put, if◌then◌else◌,
}
use agentcy.Tracker.LruSet.{LruSet, contains, add}
use agentcy.Tracker.Status.{TaskStatus, PipelineStatus, member, status_eq, forward_only, to_enum}
use agentcy.Tracker.Run.{TaskState, PipelineRun, RunDoc, valid, invalid, read_run, update_run}
use agentcy.Tracker.Finals.{Config, finals, stop_services}
use agentcy.Tracker.Reforward.{
  EventKey, event_key_eq, Tracker, Env, StopCommand, ReforwardInfo, Reforwarded, run_key,
  try_reforward,
}

-- A run document that the model rejects raises pydantic's `ValidationError`; the `except` clause
-- names the class of that name of `jsonschema`, so the exception leaves the handler.
pub data Reply : Type 0 where
  returned : Option ReforwardInfo → Reply
  raised : Reply

-- The clock as one call reads it: the monotonic one in the test for duplicates and when the event
-- is noted, and the wall clock for the end of the run.
pub record Moment : Type 0 where
  pub tested : ℕ
  pub noted : ℕ
  pub wall : ℕ

unfoldable pub event_key : TaskState → TaskStatus → EventKey
event_key t s = record { task_id = t.task_id; status = s; attempts = t.attempts }

-- `_LRUSet()` with its defaults.
abbrev pub new_lru_set : Env → LruSet EventKey
new_lru_set env = record { max_items = 4096; ttl = 3600 * env.ticks; entries = [] }

unfoldable pub deduper : Env → Tracker → String → LruSet EventKey
deduper env st run_id = elim (get run_id st.dedupe) [ some d ↦ d | none ↦ new_lru_set env ]

abbrev pub is_completed : Option TaskStatus → Bool
is_completed (some TaskStatus.completed) = true
is_completed _ = false

abbrev pub is_running : PipelineStatus → Bool
is_running PipelineStatus.running = true
is_running _ = false

abbrev pub is_over : PipelineStatus → Bool
is_over PipelineStatus.completed = true
is_over PipelineStatus.failed = true
is_over _ = false

-- The branch for FAILED.
unfoldable pub fail_or_reforward : Moment → Reforwarded → Reforwarded
fail_or_reforward now r = elim r.info [
  | some info ↦ r
  | none ↦ record r {
    run = record (r.run) { status = PipelineStatus.failed; finished_at = some now.wall };
  }
]

module _ (env : Env) where
  unfoldable pub enum_of : TaskState → Option TaskStatus
  enum_of t = to_enum env.capitalize env.upper t.status

  -- The task is there and completed.
  abbrev pub done_in : Dict String TaskState → String → Bool
  done_in tasks fid = elim (get fid tasks) [ none ↦ false | some t ↦ is_completed (enum_of t) ]

  unfoldable pub all_done : Dict String TaskState → List String → Bool
  all_done tasks [] = true
  all_done tasks (fid ∷ fids) = let rest = all_done tasks fids in done_in tasks fid && rest

  -- The branch for a status that is not FAILED.
  unfoldable pub settle : Moment → PipelineRun → List String → PipelineRun
  settle now run [] = run
  settle now run (fid ∷ fids) =
      if all_done run.tasks (fid ∷ fids)
      then record run { status = PipelineStatus.completed; finished_at = some now.wall }
      else run

  abbrev pub cfg_of : TaskState → Option Config
  cfg_of t = env.config t.username t.pipeline_id

  -- From the new task state in the run to the decision on the run. `run` holds the event's state.
  unfoldable pub decide_run :
      Moment → Tracker → TaskState → TaskStatus → PipelineRun → Option String → Reforwarded
  decide_run now st t s run plan_id =
      if s == TaskStatus.failed
      then fail_or_reforward now (try_reforward env st t run plan_id)
      else record { tracker = st; run = settle now run (finals run (cfg_of t)); info = none }

  -- The stop commands, on the transition of the run out of RUNNING.
  unfoldable pub emit_stops : TaskState → PipelineStatus → PipelineRun → List StopCommand
  emit_stops t old run =
      if is_running old && is_over run.status
      then map (λ svc. record { service_name = svc; key = run_key t })
          (stop_services (cfg_of t) run)
      else []

  -- Lines from the merged final flag to the end: store the task, persist the run, note the event,
  -- trigger the strategist loop, emit the stops.
  unfoldable pub persist :
      Moment → TaskState → TaskStatus → TaskState → PipelineStatus → Reforwarded → Tracker × Reply
  persist now t s prev old r =
      let st = r.tracker in
      let task = record t { is_final_task = prev.is_final_task || t.is_final_task } in
      let run = record (r.run) { tasks = put t.task_id task r.run.tasks } in
      let d = add (event_key t s) now.noted (deduper env st t.pipeline_run_id) in
      (
        record st {
          runs = update_run (run_key t) run st.runs;
          dedupe = put t.pipeline_run_id d st.dedupe;
          triggered = event_key t s ∷ st.triggered;
          stops = emit_stops t old run ++ st.stops;
        },
        returned r.info,
      )

  -- The task is known, with its stored state `prev`.
  unfoldable pub apply_event :
      Moment
      → Tracker
      → TaskState
      → TaskStatus
      → PipelineRun
      → Option String
      → TaskState
      → Tracker × Reply
  apply_event now st t s run plan_id prev =
      let prev_status : TaskStatus = elim (enum_of prev) [
        | some p ↦ p
        | none ↦ TaskStatus.pending
      ] in
      if forward_only prev_status s
      then persist now t s prev run.status
          (decide_run now st t s (record run { tasks = put t.task_id t run.tasks }) plan_id)
      else (st, returned none)

  abbrev pub on_doc : Moment → Tracker → TaskState → TaskStatus → Option RunDoc → Tracker × Reply
  on_doc now st t s none = (st, returned none)
  on_doc now st t s (some invalid) = (st, raised)
  on_doc now st t s (some (valid run plan_id)) = elim (get t.task_id run.tasks) [
    | none ↦ (st, returned none)
    | some prev ↦ apply_event now st t s run plan_id prev
  ]

  -- After the status is known: the test for duplicates, then the locked part.
  unfoldable pub handle : Moment → Tracker → TaskState → TaskStatus → Tracker × Reply
  handle now st t s =
      let (d, seen) = contains (event_key t s) now.tested (deduper env st t.pipeline_run_id) in
      let st' = record st { dedupe = put t.pipeline_run_id d st.dedupe } in
      if seen then (st', returned none) else on_doc now st' t s (read_run (run_key t) st'.runs)

  unfoldable pub on_task_done : Moment → Tracker → TaskState → Tracker × Reply
  on_task_done now st t = elim (enum_of t) [
    | none ↦ (st, returned none)
    | some s ↦ handle now st (record t { status = member s }) s
  ]

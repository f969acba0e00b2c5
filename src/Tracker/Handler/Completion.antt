-- ===== src/Tracker/Handler/Completion.antt =====
-- When a run is completed.
use agentcy.Prelude.{
  ◌≡◌, ◌≢◌, refl, String, true, List, [], ◌∷◌, ◌++◌, Option, none, some, arith, ◌==◌, ◌||◌,
  string_eq, Dict, get, put, get-put, Bool-cases, Option-cases, inl, inr, if◌then◌else◌, All,
}
use agentcy.Prelude.Keys.{Triple, triple_eq}
use agentcy.Tracker.Status.{TaskStatus, PipelineStatus, status_eq}
use agentcy.Tracker.Run.{TaskState, PipelineRun, valid, read_run, read_run-update_run}
use agentcy.Tracker.Finals.{finals}
use agentcy.Tracker.Reforward.{Tracker, Env, Reforwarded, reassign, try_reforward, run_key}
use agentcy.Tracker.Handler.{
  Moment, all_done, done_in, is_completed, settle, fail_or_reforward, decide_run, emit_stops,
  persist, enum_of, cfg_of,
}
use agentcy.Tracker.Handler.Cases.{entered}

module _ (env : Env) where
  -- The task as it is stored: the event's state, with the final flag of either.
  abbrev pub merged : TaskState → TaskState → TaskState
  merged prev t = record t { is_final_task = prev.is_final_task || t.is_final_task }

  -- What the handler writes at the run of an event that gets through.
  abbrev pub stored_run : TaskState → TaskState → Reforwarded → PipelineRun
  stored_run prev t r = record (r.run) { tasks = put t.task_id (merged prev t) r.run.tasks }

  -- The documents after an event that is written.
  pub read_run-persist :
      (now : Moment) (t : TaskState) (s : TaskStatus) (prev : TaskState) (old : PipelineStatus)
      (r : Reforwarded) (key : Triple)
      → read_run key (persist env now t s prev old r).0.runs ≡ (
          if run_key t == key
          then some (valid (stored_run prev t r) none)
          else read_run key r.tracker.runs)
  unfolding persist
  read_run-persist now t s prev old r key = rw read_run-update_run refl

  pub stops-persist :
      (now : Moment) (t : TaskState) (s : TaskStatus) (prev : TaskState) (old : PipelineStatus)
      (r : Reforwarded)
      → (persist env now t s prev old r).0.stops
        ≡ emit_stops env t old (stored_run prev t r) ++ r.tracker.stops
  unfolding persist
  stops-persist now t s prev old r = refl

  -- The task is stored as completed.
  abbrev pub IsDone : Dict String TaskState → String → Type 0
  IsDone tasks fid =
      (q : TaskState) × (get fid tasks ≡ some q) × (enum_of env q ≡ some TaskStatus.completed)

  done_in-IsDone :
      (tasks : Dict String TaskState) (fid : String)
      → done_in env tasks fid ≡ true
      → IsDone tasks fid
  done_in-IsDone tasks fid h = elim (Option-cases (get fid tasks)) [
    | inl missing ↦ absurd (ground (arith, missing))
    | inr (q, stored) ↦ (q, stored, ground (arith, stored))
  ]

  IsDone→done_in :
      (tasks : Dict String TaskState) (fid : String)
      → IsDone tasks fid
      → done_in env tasks fid ≡ true
  IsDone→done_in tasks fid (q, stored, done) = rw (stored, done_in) (rw (done, is_completed) refl)

  all_done_sound :
      (tasks : Dict String TaskState) (fids : List String)
      → all_done env tasks fids ≡ true
      → All (IsDone tasks) fids
  unfolding all_done
  all_done_sound tasks [] h = tt
  all_done_sound tasks (fid ∷ fids) h = elim (Bool-cases (done_in env tasks fid)) [
    | inl done ↦ (done_in-IsDone tasks fid done, all_done_sound tasks fids (rw done at h))
    | inr open_ ↦ absurd (ground (arith, open_))
  ]

  all_done_complete :
      (tasks : Dict String TaskState) (fids : List String)
      → All (IsDone tasks) fids
      → all_done env tasks fids ≡ true
  unfolding all_done
  all_done_complete tasks [] h = refl
  all_done_complete tasks (fid ∷ fids) h =
      rw (IsDone→done_in tasks fid h.0, done_in) (all_done_complete tasks fids h.1)

  -- Merging the final flag into the stored task does not change which tasks are completed.
  merged-IsDone :
      (prev t : TaskState) (tasks : Dict String TaskState) (fid : String)
      → IsDone (put t.task_id t tasks) fid
      → IsDone (put t.task_id (merged prev t) (put t.task_id t tasks)) fid
  unfolding enum_of
  merged-IsDone prev t tasks fid (q, stored, done) = elim (Bool-cases (t.task_id == fid)) [
    | inl here ↦
        (merged prev t, rw get-put (rw here refl), ground (arith, get-put t.task_id fid t tasks))
    | inr other ↦ (q, rw get-put (rw other stored), done)
  ]

  merged-All :
      (prev t : TaskState) (tasks : Dict String TaskState) (fids : List String)
      → All (IsDone (put t.task_id t tasks)) fids
      → All (IsDone (put t.task_id (merged prev t) (put t.task_id t tasks))) fids
  merged-All prev t tasks [] h = tt
  merged-All prev t tasks (fid ∷ fids) h =
      (merged-IsDone prev t tasks fid h.0, merged-All prev t tasks fids h.1)

  settle-tasks :
      (now : Moment) (run : PipelineRun) (fids : List String)
      → (settle env now run fids).tasks ≡ run.tasks
  unfolding settle
  settle-tasks now run [] = refl
  settle-tasks now run (fid ∷ fids) = ground arith

  pub settle_done :
      (now : Moment) (run : PipelineRun) (fids : List String)
      → fids ≢ []
      → All (IsDone run.tasks) fids
      → settle env now run fids
        ≡ record run { status = PipelineStatus.completed; finished_at = some now.wall }
  unfolding settle
  settle_done now run [] some_final h = absurd (some_final refl)
  settle_done now run (fid ∷ fids) some_final h =
      rw (all_done_complete run.tasks (fid ∷ fids) h) refl

  settle-completed :
      (now : Moment) (run : PipelineRun) (fids : List String)
      → run.status ≢ PipelineStatus.completed
      → (settle env now run fids).status ≡ PipelineStatus.completed
      → (fids ≢ []) × All (IsDone run.tasks) fids
  unfolding settle
  settle-completed now run [] before h = absurd (before h)
  settle-completed now run (fid ∷ fids) before h =
      elim (Bool-cases (all_done env run.tasks (fid ∷ fids))) [
        | inl all ↦ ((λ e. cc), all_done_sound run.tasks (fid ∷ fids) all)
        | inr open_ ↦ absurd (before (rw open_ at h))
      ]

  pub try_reforward-status :
      (st : Tracker) (t : TaskState) (run : PipelineRun) (plan_id : Option String)
      → (try_reforward env st t run plan_id).run.status ≡ run.status
  unfolding try_reforward reassign
  try_reforward-status st t run plan_id = ground arith

  fail-status :
      (now : Moment) (r : Reforwarded)
      → r.run.status ≢ PipelineStatus.completed
      → (fail_or_reforward now r).run.status ≢ PipelineStatus.completed
  unfolding fail_or_reforward
  fail-status now r h = ground arith

  -- What an event that gets through has to do with it.
  pub decide_run-completed :
      (now : Moment) (st : Tracker) (t : TaskState) (s : TaskStatus) (run : PipelineRun)
      (plan_id : Option String) (prev : TaskState)
      → run.status ≢ PipelineStatus.completed
      → (decide_run env now st t s (entered run t) plan_id).run.status ≡ PipelineStatus.completed
      → (finals (entered run t) (cfg_of env t) ≢ [])
        × All
            (IsDone (
              put t.task_id
                (merged prev t)
                (decide_run env now st t s (entered run t) plan_id).run.tasks))
            (finals (entered run t) (cfg_of env t))
  unfolding decide_run
  decide_run-completed now st t s run plan_id prev before h =
      elim (Bool-cases (s == TaskStatus.failed)) [
        | inl failed ↦ absurd (
            fail-status now (try_reforward env st t (entered run t) plan_id)
              (rw (try_reforward-status st t (entered run t) plan_id) before) (rw failed at h))
        | inr other ↦
            let (some_final, all) =
              settle-completed now (entered run t) (finals (entered run t) (cfg_of env t)) before
                (rw other at h) in
            rw other (
              some_final,
              rw (settle-tasks now (entered run t) (finals (entered run t) (cfg_of env t)))
                  (merged-All prev t run.tasks _ all),
            )
      ]

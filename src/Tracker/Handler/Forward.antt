-- ===== src/Tracker/Handler/Forward.antt =====
-- Task states only move forward.
use agentcy.Prelude.{
  ◌≤◌, ◌≡◌, refl, String, true, false, Option, none, some, arith, ◌==◌, string_eq, eq_iff, Dict,
  ◌||◌, get, put, get-put, Bool-cases, Option-cases, inl, inr,
}
use agentcy.Prelude.Keys.{Triple, triple_eq, triple_beq_iff}
use agentcy.Tracker.Status.{TaskStatus, order, member, to_enum}
use agentcy.Tracker.Run.{TaskState, PipelineRun, RunStore, valid, read_run, read_run-update_run}
use agentcy.Tracker.Reforward.{Tracker, Env, Reforwarded, run_key}
use agentcy.Tracker.Handler.{Moment, persist, on_task_done, enum_of, Reply}
use agentcy.Tracker.Handler.Cases.{
  rank, entered, tested, Outcome, dropped, written, normalised, on_task_done_unknown,
  on_task_done-Outcome,
}
use agentcy.Tracker.Handler.Frame.{Framed, get-put_ne, decide_run-Framed}

module _ (env : Env) where
  -- Every task of `before` is in `after`, and stands no lower there.
  abbrev pub TasksAdvance : Dict String TaskState → Dict String TaskState → Type 0
  TasksAdvance before after =
      (tid : String) (p : TaskState)
      → get tid before ≡ some p
      → (q : TaskState) × (get tid after ≡ some q) × (rank env p ≤ rank env q)

  -- Every run that can be read before can be read after, with its tasks advanced.
  abbrev pub RunsAdvance : RunStore → RunStore → Type 0
  RunsAdvance before after =
      (key : Triple) (run : PipelineRun) (plan_id : Option String)
      → read_run key before ≡ some (valid run plan_id)
      → (run' : PipelineRun) × (plan' : Option String) × (read_run key after
          ≡ some (valid run' plan'))
        × TasksAdvance run.tasks run'.tasks

  TasksAdvance-refl : (d : Dict String TaskState) → TasksAdvance d d
  TasksAdvance-refl d tid p h = (p, h, omega arith)

  RunsAdvance-refl : (store : RunStore) → RunsAdvance store store
  RunsAdvance-refl store key run plan_id h = (run, plan_id, h, TasksAdvance-refl run.tasks)

  -- The tasks as the handler stores them: the event's state at its task, the others as they were.
  stored-TasksAdvance :
      (t task : TaskState) (s : TaskStatus) (before after : Dict String TaskState)
      (prev : TaskState)
      → task.status ≡ member s
      → get t.task_id before ≡ some prev
      → rank env prev ≤ order s
      → ((j : String) → (t.task_id == j) ≡ false → get j after ≡ get j (put t.task_id t before))
      → TasksAdvance before (put t.task_id task after)
  stored-TasksAdvance t task s before after prev same stored up others tid p h =
      elim (Bool-cases (t.task_id == tid)) [
        | inl here ↦ (task, rw (get-put t.task_id tid task after) (rw here), at_task here)
        | inr other ↦ (
          p,
          rw (get-put_ne t.task_id tid task after other)
              (rw (others tid other) (rw (get-put_ne t.task_id tid t before other) h)),
          omega arith,
        )
      ]
    where
      known : enum_of env task ≡ some s
      known = unfold enum_of to_enum in rw same

      at_task : (t.task_id == tid) ≡ true → rank env p ≤ rank env task
      at_task here =
          let e : t.task_id ≡ tid = (eq_iff t.task_id tid).0 here in
          let p_prev : p ≡ prev = ground (arith, e) in rw (known, p_prev) up

  abbrev merged : TaskState → TaskState → TaskState
  merged t prev = record t { is_final_task = prev.is_final_task || t.is_final_task }

  persist-RunsAdvance :
      (now : Moment) (st : Tracker) (t : TaskState) (s : TaskStatus) (run : PipelineRun)
      (plan_id : Option String) (prev : TaskState) (r : Reforwarded)
      → t.status ≡ member s
      → read_run (run_key t) st.runs ≡ some (valid run plan_id)
      → get t.task_id run.tasks ≡ some prev
      → rank env prev ≤ order s
      → Framed st t.task_id (record run { tasks = put t.task_id t run.tasks }) r
      → RunsAdvance st.runs (persist env now t s prev run.status r).0.runs
  unfolding persist
  persist-RunsAdvance now st t s run plan_id prev r same doc stored up f key run0 plan0 h =
      elim (Bool-cases (run_key t == key)) [
        | inl here ↦
            let e : run0 ≡ run = same_run ((triple_beq_iff (run_key t) key).0 here) in
            (
              record (r.run) { tasks = put t.task_id (merged t prev) r.run.tasks },
              none,
              rw read_run-update_run (rw here refl),
              rw e (
                  stored-TasksAdvance t (merged t prev) s run.tasks r.run.tasks prev same stored up
                    f.others),
            )
        | inr other ↦ (
          run0,
          plan0,
          rw read_run-update_run (rw (other, f.runs) h),
          TasksAdvance-refl run0.tasks,
        )
      ]
    where
      same_run : run_key t ≡ key → run0 ≡ run
      same_run e = ground (arith, e)

  Outcome-RunsAdvance :
      (now : Moment) (st : Tracker) (t : TaskState) (s : TaskStatus) (x : Tracker × Reply)
      → Outcome env now st t s x
      → RunsAdvance st.runs x.0.runs
  Outcome-RunsAdvance now st t s x (dropped reply) = RunsAdvance-refl st.runs
  Outcome-RunsAdvance now st t s x (written run plan_id prev same read stored up) =
      let st' = tested env now st t s in
      persist-RunsAdvance now st' t s run plan_id prev _ same read stored up
        (decide_run-Framed env t (entered run t) now st' s plan_id)

  -- Whatever event comes in, every stored run stays readable, and no task of any run falls back in
  -- the order PENDING and IDLE, RUNNING, COMPLETED, FAILED, nor gets lost.
  pub on_task_done-RunsAdvance :
      (now : Moment) (st : Tracker) (t : TaskState)
      → RunsAdvance st.runs (on_task_done env now st t).0.runs
  on_task_done-RunsAdvance now st t = elim (Option-cases (enum_of env t)) [
    | inl unknown ↦ rw (on_task_done_unknown env now st t unknown) (RunsAdvance-refl st.runs)
    | inr (s, known) ↦
        Outcome-RunsAdvance now st (normalised t s) s _ (on_task_done-Outcome env now st t s known)
  ]

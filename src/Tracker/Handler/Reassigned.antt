-- ===== src/Tracker/Handler/Reassigned.antt =====
-- What becomes of a failed task that is handed to the next candidate.
use agentcy.Prelude.{
  ◌≡◌, ◌≢◌, refl, sym, ap, ◌∙◌, String, Option, none, some, arith, string_eq, eq_refl, get, get-put,
  ◌≤◌,
}
use agentcy.Prelude.Keys.{Triple, triple_eq, triple_beq_iff}
use agentcy.Tracker.Status.{TaskStatus, PipelineStatus, status_beq, order, to_enum}
use agentcy.Tracker.Run.{TaskState, PipelineRun, valid, read_run}
use agentcy.Tracker.Reforward.{Tracker, Env, Reforwarded, run_key, try_reforward}
use agentcy.Tracker.Handler.{
  Moment, Reply, fail_or_reforward, decide_run, persist, on_task_done, enum_of,
}
use agentcy.Tracker.Handler.Cases.{
  rank, entered, normalised, tested, Outcome, dropped, written, Accepted, decided,
  on_task_done_accepted, on_task_done-Outcome,
}
use agentcy.Tracker.Handler.Completion.{merged, stored_run, read_run-persist}
use agentcy.Tracker.Handler.RunEnd.{same_valid}

module _ (env : Env) where
  -- The task stands as FAILED in a readable run.
  abbrev pub StandsFailed : Tracker → Triple → String → Type 0
  StandsFailed st key tid =
      (run : PipelineRun) × (plan_id : Option String) × (q : TaskState) × (read_run key st.runs
        ≡ some (valid run plan_id))
      × (get tid run.tasks ≡ some q)
      × (enum_of env q ≡ some TaskStatus.failed)

  -- The run's document no longer names its plan.
  abbrev pub PlanLost : Tracker → Triple → Type 0
  PlanLost st key = (run : PipelineRun) × (read_run key st.runs ≡ some (valid run none))

  -- An accepted FAILED event leaves its task FAILED, also when the task has been handed to the next
  -- candidate; and the stored document no longer has the plan, by which candidates are found.
  pub on_task_done-StandsFailed :
      (now : Moment) (st : Tracker) (t : TaskState) (run : PipelineRun) (plan_id : Option String)
      (prev : TaskState)
      → Accepted env now st t TaskStatus.failed run plan_id prev
      → StandsFailed (on_task_done env now st t).0 (run_key t) t.task_id
        × PlanLost (on_task_done env now st t).0 (run_key t)
  on_task_done-StandsFailed now st t run plan_id prev a =
      rw (on_task_done_accepted env now st t TaskStatus.failed run plan_id prev a) (
        (final, none, merged env prev t', read, stored, unfold enum_of to_enum in refl),
        (final, read),
      )
    where
      t' : TaskState
      t' = normalised t TaskStatus.failed

      d : Reforwarded
      d = decided env now st t TaskStatus.failed run plan_id

      final : PipelineRun
      final = stored_run env prev t' d

      read :
          read_run (run_key t) (persist env now t' TaskStatus.failed prev run.status d).0.runs
          ≡ some (valid final none)
      read =
          rw (read_run-persist env now t' TaskStatus.failed prev run.status d (run_key t))
            (rw ((triple_beq_iff (run_key t) (run_key t)).1 refl) refl)

      stored : get t.task_id final.tasks ≡ some (merged env prev t')
      stored = rw get-put (rw eq_refl refl)

  rank_failed : (q : TaskState) → enum_of env q ≡ some TaskStatus.failed → rank env q ≡ 3
  unfolding order
  rank_failed q h = rw h refl

  order_not_failed : (s : TaskStatus) → 3 ≤ order s → s ≡ TaskStatus.failed
  unfolding order
  order_not_failed s h = ground arith

  no_way_back :
      (now : Moment) (st : Tracker) (t : TaskState) (s : TaskStatus) (x : Tracker × Reply)
      → Outcome env now st t s x
      → StandsFailed st (run_key t) t.task_id
      → s ≢ TaskStatus.failed
      → x.0.runs ≡ st.runs
  no_way_back now st t s x (dropped reply) f h = refl
  no_way_back now st t s x (written run plan_id prev same doc stored up)
        (run1, plan1, q, read, found, failed) h =
      let e : run1 ≡ run = same_valid env (sym read ∙ doc) in
      let eq : some q ≡ some prev =
        sym found ∙ ap (λ (u : PipelineRun). get t.task_id u.tasks) e ∙ stored in
      let r = rank_failed prev (ground (arith, eq)) in
      absurd (h (order_not_failed s (omega (arith, r))))

  -- A failed task stays failed: while it stands as FAILED, no event of another status for it changes
  -- any run, so a task that was handed to the next candidate cannot complete.
  pub StandsFailed-stuck :
      (now : Moment) (st : Tracker) (t : TaskState) (s : TaskStatus)
      → enum_of env t ≡ some s
      → StandsFailed st (run_key t) t.task_id
      → s ≢ TaskStatus.failed
      → (on_task_done env now st t).0.runs ≡ st.runs
  StandsFailed-stuck now st t s known =
      no_way_back now st (normalised t s) s _ (on_task_done-Outcome env now st t s known)

  no_plan :
      (now : Moment) (st : Tracker) (t : TaskState) (run : PipelineRun)
      → (decide_run env now st t TaskStatus.failed run none).info ≡ none
        × ((decide_run env now st t TaskStatus.failed run none).run.status ≡ PipelineStatus.failed)
  unfolding decide_run status_beq fail_or_reforward try_reforward
  no_plan now st t run = (ground arith, ground arith)

  -- An accepted FAILED event of a run whose document has no plan gets no other candidate and fails
  -- the run.
  pub on_task_done_no_plan :
      (now : Moment) (st : Tracker) (t : TaskState) (run : PipelineRun) (prev : TaskState)
      → Accepted env now st t TaskStatus.failed run none prev
      → ((on_task_done env now st t).1 ≡ Reply.returned none)
        × (run' : PipelineRun) × (read_run (run_key t) (on_task_done env now st t).0.runs
            ≡ some (valid run' none))
        × (run'.status ≡ PipelineStatus.failed)
  on_task_done_no_plan now st t run prev a =
      let t' = normalised t TaskStatus.failed in
      let d = decided env now st t TaskStatus.failed run none in
      let (info, failed) =
        no_plan now (tested env now st t' TaskStatus.failed) t' (entered run t') in
      rw (on_task_done_accepted env now st t TaskStatus.failed run none prev a) (
        (unfold persist in rw info refl),
        stored_run env prev t' d,
        rw (read_run-persist env now t' TaskStatus.failed prev run.status d (run_key t))
            (rw ((triple_beq_iff (run_key t) (run_key t)).1 refl) refl),
        failed,
      )

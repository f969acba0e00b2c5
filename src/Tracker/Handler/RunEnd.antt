-- ===== src/Tracker/Handler/RunEnd.antt =====
-- The end of a run: who completes it, and the stop commands.
use agentcy.Prelude.{
  ◌≡◌, ◌≢◌, refl, sym, ap, ◌∙◌, String, true, false, [], ◌++◌, map, Option, none, some, arith, ◌==◌,
  inl, inr, string_eq, Bool-cases, if◌then◌else◌, All,
}
use agentcy.Prelude.Keys.{Triple, triple_eq, triple_beq_iff}
use agentcy.Tracker.Status.{TaskStatus, PipelineStatus, status_eq, status_beq}
use agentcy.Tracker.Run.{TaskState, PipelineRun, valid, read_run}
use agentcy.Tracker.Finals.{finals, stop_services}
use agentcy.Tracker.Reforward.{Tracker, Env, Reforwarded, run_key}
use agentcy.Tracker.Handler.{
  Moment, Reply, decide_run, settle, emit_stops, persist, on_task_done, enum_of, cfg_of,
}
use agentcy.Tracker.Handler.Frame.{decide_run-Framed}
use agentcy.Tracker.Handler.Cases.{
  entered, normalised, tested, Outcome, dropped, written, Accepted, on_task_done_accepted,
  on_task_done-Outcome,
}
use agentcy.Tracker.Handler.Completion.{
  stored_run, IsDone, read_run-persist, settle_done, decide_run-completed,
}

module _ (env : Env) where
  -- The run's final tasks as the handler takes them for the event, and each one stored as completed.
  abbrev pub FinalsDone : TaskState → PipelineRun → PipelineRun → Type 0
  FinalsDone t run run' =
      (finals (entered run t) (cfg_of env t) ≢ [])
      × All (IsDone env run'.tasks) (finals (entered run t) (cfg_of env t))

  pub same_valid :
      {run run' : PipelineRun} {p p' : Option String}
      → some (valid run p) ≡ some (valid run' p')
      → run ≡ run'
  same_valid e = ground arith

  written-completed :
      (now : Moment) (st : Tracker) (t : TaskState) (s : TaskStatus) (run0 : PipelineRun)
      (plan0 : Option String) (prev : TaskState) (key : Triple) (run run' : PipelineRun)
      (plan_id plan' : Option String)
      → read_run (run_key t) st.runs ≡ some (valid run0 plan0)
      → read_run key st.runs ≡ some (valid run plan_id)
      → read_run key
          (persist env now t s prev run0.status
            (decide_run env now (tested env now st t s) t s (entered run0 t) plan0)).0.runs
        ≡ some (valid run' plan')
      → run.status ≢ PipelineStatus.completed
      → run'.status ≡ PipelineStatus.completed
      → (key ≡ run_key t) × FinalsDone t run run'
  written-completed now st t s run0 plan0 prev key run run' plan_id plan' doc old new before h =
      elim (Bool-cases (run_key t == key)) [
        | inl here ↦
            let e = (triple_beq_iff (run_key t) key).0 here in
            let p : run ≡ run0 =
              same_valid (sym old ∙ ap (λ k. read_run k st.runs) (sym e) ∙ doc) in
            let q : run' ≡ stored_run env prev t r = same_valid (sym new ∙ read ∙ ap_if here) in
            (
              sym e,
              rw (p, q)
                  (decide_run-completed env now st' t s run0 plan0 prev
                    (λ e0. before (ap (λ u. u.status) p ∙ e0)) (sym (ap (λ u. u.status) q) ∙ h)),
            )
        | inr other ↦ absurd (before (rw (same_valid (sym old ∙ unchanged other)) h))
      ]
    where
      st' : Tracker
      st' = tested env now st t s

      r : Reforwarded
      r = decide_run env now st' t s (entered run0 t) plan0

      read : read_run key (persist env now t s prev run0.status r).0.runs ≡ (
          if run_key t == key
          then some (valid (stored_run env prev t r) none)
          else read_run key r.tracker.runs)
      read = read_run-persist env now t s prev run0.status r key

      ap_if :
          (run_key t == key) ≡ true
          → (if run_key t == key
              then some (valid (stored_run env prev t r) none)
              else read_run key r.tracker.runs)
            ≡ some (valid (stored_run env prev t r) none)
      ap_if here = rw here refl

      unchanged : (run_key t == key) ≡ false → read_run key st.runs ≡ some (valid run' plan')
      unchanged other =
          let f = decide_run-Framed env t (entered run0 t) now st' s plan0 in
          ap (read_run key) (sym f.runs) ∙ sym (rw other at read) ∙ new

  Outcome-completed :
      (now : Moment) (st : Tracker) (t : TaskState) (s : TaskStatus) (x : Tracker × Reply)
      (key : Triple) (run run' : PipelineRun) (plan_id plan' : Option String)
      → Outcome env now st t s x
      → read_run key st.runs ≡ some (valid run plan_id)
      → read_run key x.0.runs ≡ some (valid run' plan')
      → run.status ≢ PipelineStatus.completed
      → run'.status ≡ PipelineStatus.completed
      → (key ≡ run_key t) × FinalsDone t run run'
  Outcome-completed now st t s x key run run' plan_id plan' (dropped reply) old new before h =
      absurd (before (rw (same_valid (sym old ∙ new)) h))
  Outcome-completed now st t s x key run run' plan_id plan'
        (written run0 plan0 prev same doc stored up) old new before h =
      written-completed now st t s run0 plan0 prev key run run' plan_id plan' doc old new before h

  -- Only an event of the run itself completes a run, and only when the run has final tasks and all
  -- of them are stored as completed. `s` is the status of the event.
  pub on_task_done-completed :
      (now : Moment) (st : Tracker) (t : TaskState) (s : TaskStatus) (key : Triple)
      (run run' : PipelineRun) (plan_id plan' : Option String)
      → enum_of env t ≡ some s
      → read_run key st.runs ≡ some (valid run plan_id)
      → read_run key (on_task_done env now st t).0.runs ≡ some (valid run' plan')
      → run.status ≢ PipelineStatus.completed
      → run'.status ≡ PipelineStatus.completed
      → (key ≡ run_key t) × FinalsDone (normalised t s) run run'
  on_task_done-completed now st t s key run run' plan_id plan' known =
      Outcome-completed now st (normalised t s) s (on_task_done env now st t) key run run' plan_id
        plan' (on_task_done-Outcome env now st t s known)

  decide_run_of_completed :
      (now : Moment) (st : Tracker) (t : TaskState) (run : PipelineRun) (plan_id : Option String)
      → decide_run env now st t TaskStatus.completed run plan_id
        ≡ record { tracker = st; run = settle env now run (finals run (cfg_of env t)); info = none }
  unfolding decide_run status_beq
  decide_run_of_completed now st t run plan_id = refl

  -- The other way round: an accepted COMPLETED event, after which all final tasks are completed,
  -- completes the run at the time of the event; and if the run was RUNNING, the stop commands for
  -- its services are scheduled.
  pub last_final-completes :
      (now : Moment) (st : Tracker) (t : TaskState) (run : PipelineRun) (plan_id : Option String)
      (prev : TaskState)
      → Accepted env now st t TaskStatus.completed run plan_id prev
      → FinalsDone
          (normalised t TaskStatus.completed)
          run
          (entered run (normalised t TaskStatus.completed))
      → (run' : PipelineRun) × (read_run (run_key t) (on_task_done env now st t).0.runs
          ≡ some (valid run' none))
        × (run'.status ≡ PipelineStatus.completed)
        × (run'.finished_at ≡ some now.wall)
        × (run.status ≡ PipelineStatus.running
            → (on_task_done env now st t).0.stops
              ≡ map
                  (λ svc. record { service_name = svc; key = run_key t })
                  (stop_services (cfg_of env t) run')
                ++ st.stops)
  last_final-completes now st t run plan_id prev a (some_final, all) = (
    stored_run env prev t' d,
    rw eq (
        rw (read_run-persist env now t' TaskStatus.completed prev run.status d (run_key t))
          (rw ((triple_beq_iff (run_key t) (run_key t)).1 refl) refl)),
    refl,
    refl,
    λ running. rw eq (unfold persist emit_stops in rw running refl),
  )
    where
      t' : TaskState
      t' = normalised t TaskStatus.completed

      st' : Tracker
      st' = tested env now st t' TaskStatus.completed

      d : Reforwarded
      d = record {
        tracker = st';
        run = record (entered run t') {
          status = PipelineStatus.completed;
          finished_at = some now.wall;
        };
        info = none;
      }

      eq : on_task_done env now st t ≡ persist env now t' TaskStatus.completed prev run.status d
      eq =
          on_task_done_accepted env now st t TaskStatus.completed run plan_id prev a
          ∙ ap (persist env now t' TaskStatus.completed prev run.status) (
              decide_run_of_completed now st' t' (entered run t') plan_id
              ∙ ap
                  (λ (u : PipelineRun).
                    let v : Reforwarded = record { tracker = st'; run = u; info = none } in v)
                  (settle_done env now (entered run t') _ some_final all))

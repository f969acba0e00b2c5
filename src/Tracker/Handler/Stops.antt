-- ===== src/Tracker/Handler/Stops.antt =====
-- The stop commands of a run are scheduled by one event at most.
use agentcy.Prelude.{
  ◌≡◌, ◌≢◌, refl, sym, ap, ◌∙◌, String, Bool, true, false, List, [], ◌∷◌, ◌++◌, map, Option, none,
  some, arith, ◌==◌, ◌&&◌, inl, inr, string_eq, Bool-cases, keep,
}
use agentcy.Prelude.Keys.{Triple, triple_eq, triple_beq_iff}
use agentcy.Tracker.Status.{TaskStatus, PipelineStatus, status_eq}
use agentcy.Tracker.Run.{TaskState, PipelineRun, valid, read_run}
use agentcy.Tracker.Finals.{finals, stop_services}
use agentcy.Tracker.Reforward.{Tracker, Env, StopCommand, Reforwarded, run_key, try_reforward}
use agentcy.Tracker.Handler.{
  Moment, Reply, settle, fail_or_reforward, decide_run, emit_stops, persist, cfg_of, is_running,
  is_over,
}
use agentcy.Tracker.Handler.Frame.{decide_run-Framed}
use agentcy.Tracker.Handler.Cases.{entered, tested, Outcome, dropped, written}
use agentcy.Tracker.Handler.Completion.{
  stored_run, read_run-persist, stops-persist, try_reforward-status,
}
use agentcy.Tracker.Handler.RunEnd.{same_valid}

-- The stop commands of one run.
abbrev pub stops_for : Triple → List StopCommand → List StopCommand
stops_for key stops = keep (λ c. c.key == key) stops

keep-append {ℓ} :
    {A : Type ℓ} (p : A → Bool) (xs ys : List A) → keep p (xs ++ ys) ≡ keep p xs ++ keep p ys
unfolding keep
keep-append p [] ys = refl
keep-append p (x ∷ xs) ys = ground (arith, keep-append p xs ys)

stops_for-others :
    (key other : Triple) (services : List String) (stops : List StopCommand)
    → (other == key) ≡ false
    → stops_for key (map (λ svc. record { service_name = svc; key = other }) services ++ stops)
      ≡ stops_for key stops
unfolding keep
stops_for-others key other [] stops h = refl
stops_for-others key other (x ∷ xs) stops h = rw h (stops_for-others key other xs stops h)

module _ (env : Env) where
  -- The run can be read, and is not RUNNING.
  abbrev pub Over : Triple → Tracker → Type 0
  Over key st =
      (run : PipelineRun) × (plan_id : Option String) × (read_run key st.runs
        ≡ some (valid run plan_id))
      × (is_running run.status ≡ false)

  settle-status :
      (now : Moment) (run : PipelineRun) (fids : List String)
      → is_running run.status ≡ false
      → is_running (settle env now run fids).status ≡ false
  unfolding settle
  settle-status now run [] h = h
  settle-status now run (fid ∷ fids) h = ground arith

  fail-status :
      (now : Moment) (r : Reforwarded)
      → is_running r.run.status ≡ false
      → is_running (fail_or_reforward now r).run.status ≡ false
  unfolding fail_or_reforward
  fail-status now r h = ground arith

  -- Nothing sets a run back to RUNNING.
  decide_run-status :
      (now : Moment) (st : Tracker) (t : TaskState) (s : TaskStatus) (run : PipelineRun)
      (plan_id : Option String)
      → is_running run.status ≡ false
      → is_running (decide_run env now st t s run plan_id).run.status ≡ false
  unfolding decide_run
  decide_run-status now st t s run plan_id h = elim (Bool-cases (s == TaskStatus.failed)) [
    | inl failed ↦ rw failed (
        fail-status now (try_reforward env st t run plan_id)
          (rw (try_reforward-status env st t run plan_id) h))
    | inr other ↦ rw other (settle-status now run (finals run (cfg_of env t)) h)
  ]

  emit_other :
      (t : TaskState) (old : PipelineStatus) (run : PipelineRun) (stops : List StopCommand)
      (key : Triple)
      → (run_key t == key) ≡ false
      → stops_for key (emit_stops env t old run ++ stops) ≡ stops_for key stops
  unfolding emit_stops
  emit_other t old run stops key h = elim (Bool-cases (is_running old && is_over run.status)) [
    | inl now_over ↦
        rw now_over (stops_for-others key (run_key t) (stop_services (cfg_of env t) run) stops h)
    | inr still ↦ rw still refl
  ]

  emit_idle :
      (t : TaskState) (old : PipelineStatus) (run : PipelineRun)
      → is_running old ≡ false
      → emit_stops env t old run ≡ []
  unfolding emit_stops
  emit_idle t old run h = rw h refl

  emit_still :
      (t : TaskState) (old : PipelineStatus) (run : PipelineRun)
      → is_over run.status ≡ false
      → emit_stops env t old run ≡ []
  unfolding emit_stops
  emit_still t old run h = ground arith

  over_not_running : (p : PipelineStatus) → is_over p ≡ true → is_running p ≡ false
  over_not_running p h = ground arith

  module _ (now : Moment) (st : Tracker) (t : TaskState) (s : TaskStatus) (run0 : PipelineRun)
      (plan0 : Option String) (prev : TaskState)
      (doc : read_run (run_key t) st.runs ≡ some (valid run0 plan0)) (key : Triple) where
    abbrev result : Reforwarded
    result = decide_run env now (tested env now st t s) t s (entered run0 t) plan0

    abbrev last_state : Tracker
    last_state = (persist env now t s prev run0.status result).0

    same_stops : result.tracker.stops ≡ st.stops
    same_stops =
        (decide_run-Framed env t (entered run0 t) now (tested env now st t s) s plan0).stops

    same_runs : result.tracker.runs ≡ st.runs
    same_runs = (decide_run-Framed env t (entered run0 t) now (tested env now st t s) s plan0).runs

    read_here :
        (run_key t == key) ≡ true
        → read_run key last_state.runs ≡ some (valid (stored_run env prev t result) none)
    read_here here = rw (read_run-persist env now t s prev run0.status result key) (rw here refl)

    read_other : (run_key t == key) ≡ false → read_run key last_state.runs ≡ read_run key st.runs
    read_other other =
        rw (read_run-persist env now t s prev run0.status result key) (rw (other, same_runs) refl)

    -- An event of another run leaves the stop commands of this one alone.
    stops_other :
        (run_key t == key) ≡ false → stops_for key last_state.stops ≡ stops_for key st.stops
    stops_other other =
        rw (stops-persist env now t s prev run0.status result) (
          rw same_stops
            (emit_other t run0.status (stored_run env prev t result) st.stops key other))

    -- Once the run is over it stays so, and no stop command for it comes.
    written-Over :
        Over key st
        → Over key last_state × (stops_for key last_state.stops ≡ stops_for key st.stops)
    written-Over (run, plan_id, old, idle) = elim (Bool-cases (run_key t == key)) [
      | inl here ↦
          let e = (triple_beq_iff (run_key t) key).0 here in
          let p : run ≡ run0 =
            same_valid env (sym old ∙ ap (λ k. read_run k st.runs) (sym e) ∙ doc) in
          let idle0 : is_running run0.status ≡ false =
            ap (λ (u : PipelineRun). is_running u.status) (sym p) ∙ idle in
          (
            (
              stored_run env prev t result,
              none,
              read_here here,
              decide_run-status now (tested env now st t s) t s (entered run0 t) plan0 idle0,
            ),
            rw (stops-persist env now t s prev run0.status result) (
                rw (emit_idle t run0.status (stored_run env prev t result) idle0, same_stops) refl),
          )
      | inr other ↦ ((run, plan_id, read_other other ∙ old, idle), stops_other other)
    ]

    -- Where stop commands come, the run is over.
    written-changed : stops_for key last_state.stops ≢ stops_for key st.stops → Over key last_state
    written-changed changed = elim (Bool-cases (run_key t == key)) [
      | inl here ↦ elim (Bool-cases (is_over (stored_run env prev t result).status)) [
        | inl over ↦ (
          stored_run env prev t result,
          none,
          read_here here,
          over_not_running (stored_run env prev t result).status over,
        )
        | inr still ↦ absurd (
            changed (
              rw (stops-persist env now t s prev run0.status result) (
                rw (emit_still t run0.status (stored_run env prev t result) still, same_stops)
                  refl)))
      ]
      | inr other ↦ absurd (changed (stops_other other))
    ]

  pub Outcome-Over :
      (now : Moment) (st : Tracker) (t : TaskState) (s : TaskStatus) (key : Triple)
      (x : Tracker × Reply)
      → Outcome env now st t s x
      → Over key st
      → Over key x.0 × (stops_for key x.0.stops ≡ stops_for key st.stops)
  Outcome-Over now st t s key x (dropped reply) o = (o, refl)
  Outcome-Over now st t s key x (written run plan_id prev same doc stored up) o =
      written-Over now st t s run plan_id prev doc key o

  pub Outcome-changed :
      (now : Moment) (st : Tracker) (t : TaskState) (s : TaskStatus) (key : Triple)
      (x : Tracker × Reply)
      → Outcome env now st t s x
      → stops_for key x.0.stops ≢ stops_for key st.stops
      → Over key x.0
  Outcome-changed now st t s key x (dropped reply) changed = absurd (changed refl)
  Outcome-changed now st t s key x (written run plan_id prev same doc stored up) changed =
      written-changed now st t s run plan_id prev doc key changed

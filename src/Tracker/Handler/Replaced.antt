-- ===== src/Tracker/Handler/Replaced.antt =====
-- What becomes of the other candidates of a run once an event of it has been written.
use agentcy.Prelude.{
  ◌≡◌, refl, sym, subst, ap, ◌∙◌, String, [], ◌∷◌, Option, none, some, arith, string_eq, ◌==◌,
  Bool-cases, Option-cases, inl, inr,
}
use agentcy.Prelude.Keys.{Triple, triple_eq, triple_beq_iff}
use agentcy.Tracker.Status.{TaskStatus, PipelineStatus, status_beq}
use agentcy.Tracker.Run.{TaskState, PipelineRun, valid, read_run}
use agentcy.Tracker.Reforward.{Tracker, Env, run_key, try_reforward}
use agentcy.Tracker.Handler.{
  Moment, Reply, fail_or_reforward, decide_run, persist, on_task_done, enum_of,
}
use agentcy.Tracker.Handler.Cases.{
  entered, normalised, tested, Outcome, dropped, written, Accepted, decided, on_task_done_accepted,
  on_task_done_unknown, on_task_done-Outcome,
}
use agentcy.Tracker.Handler.Completion.{stored_run, read_run-persist}
use agentcy.Tracker.Handler.Events.{Events, process}
use agentcy.Tracker.Handler.Frame.{decide_run-Framed}
use agentcy.Tracker.Handler.Reassigned.{PlanLost, on_task_done_no_plan}

-- An event has been handled without another candidate: no sequence moves on, nothing is awarded and
-- no task reassigned, and the run is stored as FAILED.
pub record NoCandidate (key : Triple) (st : Tracker) (x : Tracker × Reply) : Type 0 where
  pub reply : x.1 ≡ Reply.returned none
  pub sequences : x.0.sequences ≡ st.sequences
  pub awards : x.0.awards ≡ st.awards
  pub reassigned : x.0.reassigned ≡ st.reassigned
  pub fails :
      (run : PipelineRun) × (read_run key x.0.runs ≡ some (valid run none))
      × (run.status ≡ PipelineStatus.failed)

same_plan :
    {run run' : PipelineRun} {p p' : Option String}
    → some (valid run p) ≡ some (valid run' p')
    → p ≡ p'
same_plan e = ground arith

module _ (env : Env) where
  Outcome-PlanLost :
      (now : Moment) (st : Tracker) (t : TaskState) (s : TaskStatus) (key : Triple)
      (x : Tracker × Reply)
      → Outcome env now st t s x
      → PlanLost env st key
      → PlanLost env x.0 key
  Outcome-PlanLost now st t s key x (dropped reply) lost = lost
  Outcome-PlanLost now st t s key x (written run plan_id prev same doc stored up) (run1, read) =
      let st' = tested env now st t s in
      let d = decide_run env now st' t s (entered run t) plan_id in
      let f = decide_run-Framed env t (entered run t) now st' s plan_id in
      let is = read_run-persist env now t s prev run.status d key in
      elim (Bool-cases (run_key t == key)) [
        | inl here ↦ (stored_run env prev t d, rw (is, here) refl)
        | inr other ↦ (run1, is ∙ rw (other, f.runs) read)
      ]

  process-PlanLost :
      (st : Tracker) (events : Events) (key : Triple)
      → PlanLost env st key
      → PlanLost env (process env st events) key
  unfolding process
  process-PlanLost st [] key lost = lost
  process-PlanLost st ((now, t) ∷ events) key lost =
      process-PlanLost (on_task_done env now st t).0 events key
        (elim (Option-cases (enum_of env t)) [
          | inl unknown ↦ rw (on_task_done_unknown env now st t unknown) lost
          | inr (s, known) ↦
              Outcome-PlanLost now st (normalised t s) s key _
                (on_task_done-Outcome env now st t s known) lost
        ])

  accepted-PlanLost :
      (now : Moment) (st : Tracker) (t : TaskState) (s : TaskStatus) (run : PipelineRun)
      (plan_id : Option String) (prev : TaskState)
      → Accepted env now st t s run plan_id prev
      → PlanLost env (on_task_done env now st t).0 (run_key t)
  accepted-PlanLost now st t s run plan_id prev a =
      rw (on_task_done_accepted env now st t s run plan_id prev a) (
        stored_run env prev (normalised t s) (decided env now st t s run plan_id),
        rw (read_run-persist env now (normalised t s) s prev run.status _ (run_key t))
            (rw ((triple_beq_iff (run_key t) (run_key t)).1 refl) refl),
      )

  -- Without a plan, the decision on a failed task moves nothing.
  decide_run_no_plan :
      (now : Moment) (st : Tracker) (t : TaskState) (run : PipelineRun)
      → ((decide_run env now st t TaskStatus.failed run none).tracker ≡ st)
  unfolding decide_run status_beq fail_or_reforward try_reforward
  decide_run_no_plan now st t run = ground arith

  no_plan-NoCandidate :
      (now : Moment) (st : Tracker) (t : TaskState) (run : PipelineRun) (prev : TaskState)
      → Accepted env now st t TaskStatus.failed run none prev
      → NoCandidate (run_key t) st (on_task_done env now st t)
  unfolding persist
  no_plan-NoCandidate now st t run prev a =
      let (reply, failed_run, doc, failed) = on_task_done_no_plan env now st t run prev a in
      let t' = normalised t TaskStatus.failed in
      let same =
        decide_run_no_plan now (tested env now st t' TaskStatus.failed) t' (entered run t') in
      let is = on_task_done_accepted env now st t TaskStatus.failed run none prev a in
      record {
        reply = reply;
        sequences = ap (λ x. x.0.sequences) is ∙ ap (λ (u : Tracker). u.sequences) same;
        awards = ap (λ x. x.0.awards) is ∙ ap (λ (u : Tracker). u.awards) same;
        reassigned = ap (λ x. x.0.reassigned) is ∙ ap (λ (u : Tracker). u.reassigned) same;
        fails = (failed_run, doc, failed);
      }

  -- Once an event of a run has been written, whatever its status, and after any further events, a
  -- FAILED event of this run that is accepted gets no other candidate: the handler returns none, no
  -- sequence moves on, nothing is awarded or reassigned, and the run is stored as FAILED. The first
  -- event has replaced the document by one without the plan.
  pub process-NoCandidate :
      (now now' : Moment) (st : Tracker) (t t' : TaskState) (s : TaskStatus)
      (run run' : PipelineRun) (plan_id plan_id' : Option String) (prev prev' : TaskState)
      (events : Events)
      → Accepted env now st t s run plan_id prev
      → run_key t' ≡ run_key t
      → Accepted env now'
          (process env (on_task_done env now st t).0 events)
          t'
          TaskStatus.failed
          run'
          plan_id'
          prev'
      → NoCandidate
          (run_key t')
          (process env (on_task_done env now st t).0 events)
          (on_task_done env now' (process env (on_task_done env now st t).0 events) t')
  process-NoCandidate now now' st t t' s run run' plan_id plan_id' prev prev' events a same b =
      let later = process env (on_task_done env now st t).0 events in
      let (run1, read) =
        process-PlanLost (on_task_done env now st t).0 events (run_key t)
          (accepted-PlanLost now st t s run plan_id prev a) in
      let gone : plan_id' ≡ none =
        same_plan (sym b.read ∙ ap (λ k. read_run k later.runs) same ∙ read) in
      no_plan-NoCandidate now' later t' run' prev'
        (subst (λ p. Accepted env now' later t' TaskStatus.failed run' p prev') gone b)

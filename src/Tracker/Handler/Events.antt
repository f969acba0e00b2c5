-- ===== src/Tracker/Handler/Events.antt =====
-- Whole sequences of events.
use agentcy.Prelude.{◌≡◌, ◌≢◌, refl, ◌∙◌, List, [], ◌∷◌, Option-cases, inl, inr, string_eq, arith}
use agentcy.Prelude.Keys.{Triple}
use agentcy.Tracker.Run.{TaskState, RunStore}
use agentcy.Tracker.Reforward.{Tracker, Env}
use agentcy.Tracker.Handler.{Moment, on_task_done, enum_of}
use agentcy.Tracker.Handler.Cases.{normalised, on_task_done_unknown, on_task_done-Outcome}
use agentcy.Tracker.Handler.Forward.{RunsAdvance, on_task_done-RunsAdvance}
use agentcy.Tracker.Handler.Stops.{stops_for, Over, Outcome-Over, Outcome-changed}

-- The events that one process handles, each with the readings of the clock.
abbrev pub Events : Type 0
Events = List (Moment × TaskState)

module _ (env : Env) where
  unfoldable pub process : Tracker → Events → Tracker
  process st [] = st
  process st ((now, t) ∷ events) = process (on_task_done env now st t).0 events

  on_task_done-Over :
      (now : Moment) (st : Tracker) (t : TaskState) (key : Triple)
      → Over env key st
      → Over env key (on_task_done env now st t).0
        × (stops_for key (on_task_done env now st t).0.stops ≡ stops_for key st.stops)
  on_task_done-Over now st t key o = elim (Option-cases (enum_of env t)) [
    | inl unknown ↦ rw (on_task_done_unknown env now st t unknown) (o, refl)
    | inr (s, known) ↦
        Outcome-Over env now st (normalised t s) s key _ (on_task_done-Outcome env now st t s known)
          o
  ]

  on_task_done_changed :
      (now : Moment) (st : Tracker) (t : TaskState) (key : Triple)
      → stops_for key (on_task_done env now st t).0.stops ≢ stops_for key st.stops
      → Over env key (on_task_done env now st t).0
  on_task_done_changed now st t key changed = elim (Option-cases (enum_of env t)) [
    | inl unknown ↦ absurd (changed (rw (on_task_done_unknown env now st t unknown) refl))
    | inr (s, known) ↦
        Outcome-changed env now st (normalised t s) s key _
          (on_task_done-Outcome env now st t s known) changed
  ]

  process-Over :
      (st : Tracker) (events : Events) (key : Triple)
      → Over env key st
      → stops_for key (process st events).stops ≡ stops_for key st.stops
  unfolding process
  process-Over st [] key o = refl
  process-Over st ((now, t) ∷ events) key o =
      let (o', same) = on_task_done-Over now st t key o in
      process-Over (on_task_done env now st t).0 events key o' ∙ same

  -- Stop commands for a run are scheduled by one event at most: once an event has scheduled some,
  -- no later event schedules another, whatever the events are.
  pub process-stops_once :
      (now : Moment) (st : Tracker) (t : TaskState) (events : Events) (key : Triple)
      → stops_for key (on_task_done env now st t).0.stops ≢ stops_for key st.stops
      → stops_for key (process (on_task_done env now st t).0 events).stops
        ≡ stops_for key (on_task_done env now st t).0.stops
  process-stops_once now st t events key changed =
      process-Over (on_task_done env now st t).0 events key
        (on_task_done_changed now st t key changed)

  RunsAdvance-trans :
      (a b c : RunStore) → RunsAdvance env a b → RunsAdvance env b c → RunsAdvance env a c
  RunsAdvance-trans a b c f g key run plan_id h =
      let (run1, plan1, read1, tasks1) = f key run plan_id h in
      let (run2, plan2, read2, tasks2) = g key run1 plan1 read1 in
      (
        run2,
        plan2,
        read2,
        λ tid p stored.
            let (q, stored1, up1) = tasks1 tid p stored in
            let (r, stored2, up2) = tasks2 tid q stored1 in (r, stored2, omega arith),
      )

  -- Whatever events come in, in whatever order and however often: every stored run stays readable,
  -- and none of its tasks is lost or falls back in the order PENDING and IDLE, RUNNING, COMPLETED,
  -- FAILED.
  pub process-RunsAdvance :
      (st : Tracker) (events : Events) → RunsAdvance env st.runs (process st events).runs
  unfolding process
  process-RunsAdvance st [] =
      λ key run plan_id h. (run, plan_id, h, λ tid p stored. (p, stored, omega arith))
  process-RunsAdvance st ((now, t) ∷ events) =
      RunsAdvance-trans _ _ _ (on_task_done-RunsAdvance env now st t)
        (process-RunsAdvance (on_task_done env now st t).0 events)

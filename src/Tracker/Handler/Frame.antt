-- ===== src/Tracker/Handler/Frame.antt =====
-- What the decision on a run leaves alone.
use agentcy.Prelude.{
  ℕ, ◌≡◌, refl, String, Bool, true, false, List, Option, none, some, arith, ◌==◌, string_eq, Dict,
  get, put, get-put, Bool-cases, inl, inr, ◌&&◌, if◌then◌else◌,
}
use agentcy.Tracker.Status.{TaskStatus, status_eq}
use agentcy.Tracker.Run.{TaskState, PipelineRun}
use agentcy.Tracker.Finals.{text_or}
use agentcy.Tracker.Reforward.{
  Tracker, Env, Reforwarded, reassign, unchanged, ask_next, with_plan, try_reforward,
}
use agentcy.Tracker.Sequence.{Candidate, SequenceStore, Advanced, advance_evaluation_sequence}
use agentcy.Tracker.Handler.{Moment, settle, fail_or_reforward, decide_run}

-- The stores of runs and of dedupe caches, the scheduled stops, and all tasks but `tid`.
pub record Framed (st : Tracker) (tid : String) (run : PipelineRun) (r : Reforwarded) : Type 0 where
  pub runs : r.tracker.runs ≡ st.runs
  pub dedupe : r.tracker.dedupe ≡ st.dedupe
  pub stops : r.tracker.stops ≡ st.stops
  pub final_task_ids : r.run.final_task_ids ≡ run.final_task_ids
  pub others : (j : String) → (tid == j) ≡ false → get j r.run.tasks ≡ get j run.tasks

pub get-put_ne :
    {V : Type 0} (k j : String) (v : V) (d : Dict String V)
    → (k == j) ≡ false
    → get j (put k v d) ≡ get j d
get-put_ne k j v d other = rw (get-put k j v d) (rw other)

module _ (env : Env) (t : TaskState) (run : PipelineRun) where
  reassign-Framed :
      (st : Tracker) (q : SequenceStore) (plan_id : String) (task_state : TaskState) (c : Candidate)
      (i : ℕ)
      → Framed st t.task_id run
          (reassign env (record st { sequences = q }) t run plan_id task_state c i)
  unfolding reassign
  reassign-Framed st q plan_id task_state c i = record {
    runs = refl;
    dedupe = refl;
    stops = refl;
    final_task_ids = refl;
    others = λ j. get-put_ne t.task_id j _ run.tasks;
  }

  unchanged-Framed :
      (st : Tracker) (q : SequenceStore)
      → Framed st t.task_id run (unchanged (record st { sequences = q }) run)
  unchanged-Framed st q = record {
    runs = refl;
    dedupe = refl;
    stops = refl;
    final_task_ids = refl;
    others = λ j other. refl;
  }

  with_plan-Framed :
      (st : Tracker) (plan_id : String) (o : Option TaskState)
      → Framed st t.task_id run (with_plan env st t run plan_id o)
  with_plan-Framed st plan_id none = unchanged-Framed st st.sequences
  with_plan-Framed st plan_id (some task_state) =
      advanced (advance_evaluation_sequence _ st.sequences)
    where
      advanced :
          (a : Advanced) → Framed st t.task_id run (ask_next env st t run plan_id task_state a)
      advanced (q, none) = unchanged-Framed st q
      advanced (q, some (c, i)) = reassign-Framed st q plan_id task_state c i

  try_reforward-Framed :
      (st : Tracker) (plan_id : Option String)
      → Framed st t.task_id run (try_reforward env st t run plan_id)
  unfolding try_reforward
  try_reforward-Framed st plan_id =
      chosen (env.reforward && env.has_marker_store) (text_or plan_id none)
    where
      chosen :
          (on : Bool) (plan : Option String)
          → Framed st t.task_id run (
              if on
              then elim plan [
                | none ↦ unchanged st run
                | some p ↦ with_plan env st t run p (get t.task_id run.tasks)
              ]
              else unchanged st run)
      chosen true none = unchanged-Framed st st.sequences
      chosen true (some p) = with_plan-Framed st p _
      chosen false plan = unchanged-Framed st st.sequences

  fail_or_reforward-Framed :
      (now : Moment) (st : Tracker) (r : Reforwarded)
      → Framed st t.task_id run r
      → Framed st t.task_id run (fail_or_reforward now r)
  unfolding fail_or_reforward
  fail_or_reforward-Framed now st r f = record {
    runs = ground arith;
    dedupe = ground arith;
    stops = ground arith;
    final_task_ids = ground arith;
    others = λ j other. ground (arith, f.others j other);
  }

  settle-Framed :
      (now : Moment) (st : Tracker) (fids : List String)
      → Framed st t.task_id run
          (record { tracker = st; run = settle env now run fids; info = none })
  unfolding settle
  settle-Framed now st fids = record {
    runs = refl;
    dedupe = refl;
    stops = refl;
    final_task_ids = ground arith;
    others = λ j other. ground arith;
  }

  pub decide_run-Framed :
      (now : Moment) (st : Tracker) (s : TaskStatus) (plan_id : Option String)
      → Framed st t.task_id run (decide_run env now st t s run plan_id)
  unfolding decide_run
  decide_run-Framed now st s plan_id = elim (Bool-cases (s == TaskStatus.failed)) [
    | inl failed ↦ rw failed (fail_or_reforward-Framed now st _ (try_reforward-Framed st plan_id))
    | inr other ↦ rw other (settle-Framed now st _)
  ]

-- ===== src/Tracker/Handler/Cases.antt =====
-- The two ways in which the handler ends: the event is dropped, or the run is written.
use agentcy.Prelude.{
  ◌≡◌, refl, String, true, false, Option, none, some, string_eq, Dict, get, put, Bool-cases,
  Option-cases, inl, inr, ◌≤◌, ℕ, leb→le, le→leb,
}
use agentcy.Tracker.LruSet.{LruSet, contains}
use agentcy.Tracker.Status.{TaskStatus, order, forward_only, member}
use agentcy.Tracker.Run.{TaskState, PipelineRun, RunDoc, valid, invalid, read_run}
use agentcy.Tracker.Reforward.{EventKey, event_key_eq, Tracker, Env, Reforwarded, run_key}
use agentcy.Tracker.Handler.{
  Moment, Reply, decide_run, persist, apply_event, on_doc, handle, on_task_done, enum_of, deduper,
  event_key,
}

-- Where a stored task stands in the order; a state that is no status counts as PENDING.
abbrev pub rank : Env → TaskState → ℕ
rank env t = order (elim (enum_of env t) [ some s ↦ s | none ↦ TaskStatus.pending ])

-- The task state with which the run is decided and written.
abbrev pub entered : PipelineRun → TaskState → PipelineRun
entered run t = record run { tasks = put t.task_id t run.tasks }

abbrev pub with_dedupe : Tracker → Dict String (LruSet EventKey) → Tracker
with_dedupe st d = record st { dedupe = d }

module _ (env : Env) (now : Moment) (st : Tracker) (t : TaskState) (s : TaskStatus) where
  -- The state after the test for duplicates.
  abbrev pub tested : Tracker
  tested = with_dedupe st (
      put t.pipeline_run_id
        (contains (event_key t s) now.tested (deduper env st t.pipeline_run_id)).0 st.dedupe)

  pub data Outcome : Tracker × Reply → Type 0 where
    dropped : (reply : Reply) → Outcome (tested, reply)
    written :
        (run : PipelineRun) (plan_id : Option String) (prev : TaskState)
        → t.status ≡ member s
        → read_run (run_key t) st.runs ≡ some (valid run plan_id)
        → get t.task_id run.tasks ≡ some prev
        → rank env prev ≤ order s
        → Outcome (
            persist env now t s prev run.status
              (decide_run env now tested t s (entered run t) plan_id))

  apply_event-Outcome :
      (run : PipelineRun) (plan_id : Option String) (prev : TaskState)
      → t.status ≡ member s
      → read_run (run_key t) st.runs ≡ some (valid run plan_id)
      → get t.task_id run.tasks ≡ some prev
      → Outcome (apply_event env now tested t s run plan_id prev)
  unfolding apply_event
  apply_event-Outcome run plan_id prev same read stored =
      elim (Bool-cases (forward_only prev_status s)) [
        | inl onward ↦ rw onward (written run plan_id prev same read stored (climbs onward))
        | inr back ↦ rw back (dropped (Reply.returned none))
      ]
    where
      prev_status : TaskStatus
      prev_status = elim (enum_of env prev) [ some q ↦ q | none ↦ TaskStatus.pending ]

      climbs : forward_only prev_status s ≡ true → rank env prev ≤ order s
      climbs h = leb→le _ _ (unfold forward_only in h)

  on_doc-Outcome :
      (doc : Option RunDoc)
      → t.status ≡ member s
      → read_run (run_key t) st.runs ≡ doc
      → Outcome (on_doc env now tested t s doc)
  on_doc-Outcome none same read = dropped (Reply.returned none)
  on_doc-Outcome (some invalid) same read = dropped Reply.raised
  on_doc-Outcome (some (valid run plan_id)) same read =
      elim (Option-cases (get t.task_id run.tasks)) [
        | inl missing ↦ rw (missing, on_doc) (dropped (Reply.returned none))
        | inr (prev, stored) ↦
            rw (stored, on_doc) (apply_event-Outcome run plan_id prev same read stored)
      ]

  handle-Outcome : t.status ≡ member s → Outcome (handle env now st t s)
  unfolding handle
  handle-Outcome same =
      elim (Bool-cases (contains (event_key t s) now.tested (deduper env st t.pipeline_run_id)).1) [
        | inl seen ↦ rw (seen, handle) (dropped (Reply.returned none))
        | inr new ↦ rw (new, handle) (on_doc-Outcome (read_run (run_key t) st.runs) same refl)
      ]

-- The event as the handler works on it: its status is a member of the enumeration.
abbrev pub normalised : TaskState → TaskStatus → TaskState
normalised t s = record t { status = member s }

module _ (env : Env) (now : Moment) (st : Tracker) (t : TaskState) where
  pub on_task_done_unknown :
      enum_of env t ≡ none → on_task_done env now st t ≡ (st, Reply.returned none)
  unfolding on_task_done
  on_task_done_unknown unknown = rw (unknown, on_task_done)

  pub on_task_done-Outcome :
      (s : TaskStatus)
      → enum_of env t ≡ some s
      → Outcome env now st (normalised t s) s (on_task_done env now st t)
  unfolding on_task_done
  on_task_done-Outcome s known =
      rw (known, on_task_done) (handle-Outcome env now st (normalised t s) s refl)

  -- The run as it is decided for an event that is not dropped.
  abbrev pub decided : TaskStatus → PipelineRun → Option String → Reforwarded
  decided s run plan_id =
      decide_run env now (tested env now st (normalised t s) s) (normalised t s) s
        (entered run (normalised t s)) plan_id

  -- An event that gets through: a known status, not a duplicate, a readable run that has the task,
  -- and no fall in the order.
  pub record Accepted (s : TaskStatus) (run : PipelineRun) (plan_id : Option String)
      (prev : TaskState) : Type 0 where
    pub known : enum_of env t ≡ some s
    pub fresh : (contains (event_key t s) now.tested (deduper env st t.pipeline_run_id)).1 ≡ false
    pub read : read_run (run_key t) st.runs ≡ some (valid run plan_id)
    pub stored : get t.task_id run.tasks ≡ some prev
    pub onward : rank env prev ≤ order s

  pub on_task_done_accepted :
      (s : TaskStatus) (run : PipelineRun) (plan_id : Option String) (prev : TaskState)
      → Accepted s run plan_id prev
      → on_task_done env now st t
        ≡ persist env now (normalised t s) s prev run.status (decided s run plan_id)
  unfolding on_task_done handle apply_event forward_only event_key
  on_task_done_accepted s run plan_id prev a =
      rw (a.known, on_task_done)
        (rw (a.fresh, handle)
          (rw (a.read, on_doc)
            (rw (a.stored, on_doc) (rw (le→leb _ _ a.onward, apply_event) refl))))

  -- A duplicate changes nothing but the cache of duplicates.
  pub on_task_done_seen :
      (s : TaskStatus)
      → enum_of env t ≡ some s
      → (contains (event_key t s) now.tested (deduper env st t.pipeline_run_id)).1 ≡ true
      → on_task_done env now st t ≡ (tested env now st (normalised t s) s, Reply.returned none)
  unfolding on_task_done handle event_key
  on_task_done_seen s known seen = rw (known, on_task_done) (rw (seen, handle) refl)

-- ===== src/Tracker/Handler/Redelivery.antt =====
-- An event that is delivered again.
use agentcy.Prelude.{
  ℕ, ◌*◌, ◌-◌, ap, ◌∙◌, ◌≤◌, ◌≡◌, refl, String, true, false, Option, none, some, arith, ◌==◌,
  string_eq, put, get-put, Bool-cases, Option-cases, eq_iff, inl, inr, eq_refl,
}
use agentcy.Tracker.LruSet.{
  LruSet, contains, add, contains-max_items, contains-ttl, add-max_items, add-ttl,
}
use agentcy.Tracker.LruSet.Bounds.{IsValid, IsValid-mono, contains-IsValid, add-IsValid}
use agentcy.Tracker.LruSet.Expiry.{remembered, add-contains}
use agentcy.Tracker.Status.{TaskStatus, PipelineStatus}
use agentcy.Tracker.Run.{TaskState, PipelineRun}
use agentcy.Tracker.Reforward.{EventKey, event_key_eq, Tracker, Env, Reforwarded}
use agentcy.Tracker.Handler.{Moment, Reply, enum_of, persist, on_task_done, deduper, event_key}
use agentcy.Tracker.Handler.Cases.{
  with_dedupe, entered, tested, Outcome, dropped, written, normalised, on_task_done_unknown,
  on_task_done-Outcome, Accepted, decided, on_task_done_accepted, on_task_done_seen,
}
use agentcy.Tracker.Handler.Frame.{decide_run-Framed}

module _ (env : Env) where
  deduper-put :
      (st : Tracker) (id : String) (c : LruSet EventKey)
      → deduper env (with_dedupe st (put id c st.dedupe)) id ≡ c
  unfolding deduper
  deduper-put st id c = rw (get-put id id c st.dedupe, deduper) (rw (eq_refl id) refl)

  deduper-put_ne :
      (st : Tracker) (id j : String) (c : LruSet EventKey)
      → (id == j) ≡ false
      → deduper env (with_dedupe st (put id c st.dedupe)) j ≡ deduper env st j
  unfolding deduper
  deduper-put_ne st id j c other = rw (get-put id j c st.dedupe, deduper) (rw other refl)

  -- A cache as the tracker keeps it: valid, for 4096 keys, each kept for 3600 seconds.
  pub record IsReady (c : LruSet EventKey) (time : ℕ) : Type 0 where
    pub valid : IsValid c time
    pub size : c.max_items ≡ 4096
    pub hour : c.ttl ≡ 3600 * env.ticks

  -- The caches of all runs, those not yet made included, at the time of their last use.
  abbrev pub Ready : Tracker → ℕ → Type 0
  Ready st time = (id : String) → IsReady (deduper env st id) time

  contains-IsReady :
      (k : EventKey) (t now : ℕ) (c : LruSet EventKey)
      → IsReady c t
      → t ≤ now
      → IsReady (contains k now c).0 now
  contains-IsReady k t now c r h = record {
    valid = contains-IsValid k t now c r.valid h;
    size = rw (contains-max_items k now c) r.size;
    hour = rw (contains-ttl k now c) r.hour;
  }

  add-IsReady :
      (k : EventKey) (t now : ℕ) (c : LruSet EventKey)
      → IsReady c t
      → t ≤ now
      → IsReady (add k now c) now
  add-IsReady k t now c r h = record {
    valid = add-IsValid k t now c r.valid h;
    size = rw (add-max_items k now c) r.size;
    hour = rw (add-ttl k now c) r.hour;
  }

  IsReady-mono : (c : LruSet EventKey) (t now : ℕ) → IsReady c t → t ≤ now → IsReady c now
  IsReady-mono c t now r h = record {
    valid = IsValid-mono c t now r.valid h;
    size = r.size;
    hour = r.hour;
  }

  -- One cache is replaced.
  put-Ready :
      (st : Tracker) (id : String) (c : LruSet EventKey) (t now : ℕ)
      → Ready st t
      → t ≤ now
      → IsReady c now
      → Ready (with_dedupe st (put id c st.dedupe)) now
  put-Ready st id c t now r h new j = elim (Bool-cases (id == j)) [
    | inl here ↦ rw (← (eq_iff id j).0 here) (rw (deduper-put st id c) new)
    | inr other ↦ rw (deduper-put_ne st id j c other) (IsReady-mono _ t now (r j) h)
  ]

  tested-Ready :
      (now : Moment) (st : Tracker) (t : TaskState) (s : TaskStatus) (time : ℕ)
      → Ready st time
      → time ≤ now.tested
      → Ready (tested env now st t s) now.tested
  tested-Ready now st t s time r h =
      put-Ready st t.pipeline_run_id _ time now.tested r h
        (contains-IsReady (event_key t s) time now.tested _ (r t.pipeline_run_id) h)

  -- The caches depend on the store of caches alone.
  Ready-of_dedupe :
      (st st' : Tracker) (time : ℕ) → st'.dedupe ≡ st.dedupe → Ready st time → Ready st' time
  Ready-of_dedupe st st' time e r id = rw (same id) (r id)
    where
      same : (id : String) → deduper env st' id ≡ deduper env st id
      same id = unfold deduper in rw (e, deduper) refl

  abbrev noted : Moment → TaskState → TaskStatus → Reforwarded → Tracker
  noted now t s r = with_dedupe (r.tracker) (
      put t.pipeline_run_id
        (add (event_key t s) now.noted (deduper env r.tracker t.pipeline_run_id)) r.tracker.dedupe)

  dedupe-persist :
      (now : Moment) (t : TaskState) (s : TaskStatus) (prev : TaskState) (old : PipelineStatus)
      (r : Reforwarded)
      → (persist env now t s prev old r).0.dedupe ≡ (noted now t s r).dedupe
  unfolding persist
  dedupe-persist now t s prev old r = refl

  persist-Ready :
      (now : Moment) (t : TaskState) (s : TaskStatus) (prev : TaskState) (old : PipelineStatus)
      (r : Reforwarded) (time : ℕ)
      → Ready r.tracker time
      → time ≤ now.noted
      → Ready (persist env now t s prev old r).0 now.noted
  persist-Ready now t s prev old r time ready h =
      Ready-of_dedupe (noted now t s r) (persist env now t s prev old r).0 now.noted
        (dedupe-persist now t s prev old r)
        (put-Ready r.tracker t.pipeline_run_id _ time now.noted ready h
          (add-IsReady (event_key t s) time now.noted _ (ready t.pipeline_run_id) h))

  Outcome-Ready :
      (now : Moment) (st : Tracker) (t : TaskState) (s : TaskStatus) (time : ℕ)
      (x : Tracker × Reply)
      → Outcome env now st t s x
      → Ready st time
      → time ≤ now.tested
      → now.tested ≤ now.noted
      → Ready x.0 now.noted
  Outcome-Ready now st t s time x (dropped reply) r h n =
      λ id. IsReady-mono _ now.tested now.noted (tested-Ready now st t s time r h id) n
  Outcome-Ready now st t s time x (written run plan_id prev same read stored up) r h n =
      let st' = tested env now st t s in
      let f = decide_run-Framed env t (entered run t) now st' s plan_id in
      persist-Ready now t s prev run.status _ now.tested
        (Ready-of_dedupe st' _ now.tested f.dedupe (tested-Ready now st t s time r h)) n

  -- Where the clock does not go back, the caches of all runs stay ready: valid, of 4096 entries at most
  -- and with 3600 seconds as their time to live.
  pub on_task_done-Ready :
      (now : Moment) (st : Tracker) (t : TaskState) (time : ℕ)
      → Ready st time
      → time ≤ now.tested
      → now.tested ≤ now.noted
      → Ready (on_task_done env now st t).0 now.noted
  on_task_done-Ready now st t time r h n = elim (Option-cases (enum_of env t)) [
    | inl unknown ↦
        rw (on_task_done_unknown env now st t unknown)
          (λ id. IsReady-mono _ time now.noted (r id) (omega arith))
    | inr (s, known) ↦
        Outcome-Ready now st (normalised t s) s time _ (on_task_done-Outcome env now st t s known) r
          h n
  ]

  deduper-of_dedupe :
      (st st' : Tracker) (id : String)
      → st'.dedupe ≡ st.dedupe
      → deduper env st' id ≡ deduper env st id
  unfolding deduper
  deduper-of_dedupe st st' id e = rw (e, deduper) refl

  -- After an event has been written, the cache of its run holds it.
  deduper-persist :
      (now : Moment) (st : Tracker) (t : TaskState) (s : TaskStatus) (prev : TaskState)
      (old : PipelineStatus) (r : Reforwarded)
      → r.tracker.dedupe ≡ (tested env now st t s).dedupe
      → deduper env (persist env now t s prev old r).0 t.pipeline_run_id
        ≡ add
            (event_key t s)
            now.noted
            (contains (event_key t s) now.tested (deduper env st t.pipeline_run_id)).0
  deduper-persist now st t s prev old r e =
      deduper-of_dedupe (noted now t s r) _ t.pipeline_run_id (dedupe-persist now t s prev old r)
      ∙ deduper-put r.tracker t.pipeline_run_id _
      ∙ ap (add (event_key t s) now.noted) (
          deduper-of_dedupe (tested env now st t s) r.tracker t.pipeline_run_id e
          ∙ deduper-put st t.pipeline_run_id _)

  remembered_in_hour :
      (ttl noted now : ℕ) → now - noted ≤ ttl → remembered ttl now (some noted) ≡ true
  remembered_in_hour ttl noted now h = ground arith

  seen_again :
      (now now' : Moment) (st : Tracker) (t : TaskState) (s : TaskStatus) (run : PipelineRun)
      (plan_id : Option String) (prev : TaskState) (time : ℕ)
      → Accepted env now st t s run plan_id prev
      → Ready st time
      → time ≤ now.tested
      → now.tested ≤ now.noted
      → now.noted ≤ now'.tested
      → now'.tested - now.noted ≤ 3600 * env.ticks
      → (contains
          (event_key t s)
          now'.tested
          (deduper env (on_task_done env now st t).0 t.pipeline_run_id)).1
        ≡ true
  unfolding event_key
  seen_again now now' st t s run plan_id prev time a r h n m hour =
      let t' = normalised t s in
      let c = contains-IsReady (event_key t s) time now.tested _ (r t.pipeline_run_id) h in
      let f = decide_run-Framed env t' (entered run t') now (tested env now st t' s) s plan_id in
      rw (on_task_done_accepted env now st t s run plan_id prev a) (
        rw
          (deduper-persist now st t' s prev run.status (decided env now st t s run plan_id)
            f.dedupe)
          (rw
            (add-contains (event_key t s) now.tested now.noted now'.tested _ c.valid n m
              (omega (arith, c.size)))
            (remembered_in_hour _ now.noted now'.tested (rw c.hour hour))))

  -- An event that has been written is written once: delivered again as the next event, within the
  -- 3600 seconds for which the cache keeps it, it changes nothing but the cache. The caches are
  -- ready and the clock does not go back.
  pub on_task_done_again :
      (now now' : Moment) (st : Tracker) (t : TaskState) (s : TaskStatus) (run : PipelineRun)
      (plan_id : Option String) (prev : TaskState) (time : ℕ)
      → Accepted env now st t s run plan_id prev
      → Ready st time
      → time ≤ now.tested
      → now.tested ≤ now.noted
      → now.noted ≤ now'.tested
      → now'.tested - now.noted ≤ 3600 * env.ticks
      → on_task_done env now' (on_task_done env now st t).0 t
        ≡ (tested env now' (on_task_done env now st t).0 (normalised t s) s, Reply.returned none)
  on_task_done_again now now' st t s run plan_id prev time a r h n m hour =
      on_task_done_seen env now' _ t s a.known
        (seen_again now now' st t s run plan_id prev time a r h n m hour)

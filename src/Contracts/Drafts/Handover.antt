-- ===== src/Contracts/Drafts/Handover.antt =====
-- What a build leaves for the tracker: the plan that the run names, and its evaluation sequence.
use agentcy.Prelude.{
  ℕ, ◌≡◌, refl, ap, String, true, ◌&&◌, List, ◌∷◌, Option, none, some, arith, string_eq, Dict, get,
  get-put, truthy,
}
use agentcy.Prelude.Keys.{Triple, triple_eq, triple_beq_iff}
use agentcy.Tracker.Run.{TaskState, PipelineRun, valid, read_run}
use agentcy.Tracker.Sequence.{Candidate, Advanced, advance_evaluation_sequence}
use agentcy.Tracker.Sequence.Offers.{advance_next}
use agentcy.Tracker.Reforward as Reforward
use agentcy.Tracker.Reforward.{Tracker, ReforwardInfo, reassign, ask_next, try_reforward}
use agentcy.Contracts.Bids.{Bid, or_nil, ranked_bids}
use agentcy.Contracts.Awards.{Env, TaskSpec, rules_of}
use agentcy.Contracts.Drafts.{
  to_candidate, sequence_key, sequence_of, Services, RunTask, Stores, run_key, name_plan,
  build_plan_draft,
}
use agentcy.Contracts.Drafts.Reoffers.{stored_sequence}

-- The bidder of the candidate that a failed task was given to.
abbrev pub reforwarded_to : Option ReforwardInfo → Option String
reforwarded_to none = none
reforwarded_to (some info) = some info.new_agent_id

ask_next-bidder :
    (env : Reforward.Env) (st : Tracker) (t : TaskState) (run : PipelineRun) (plan_id : String)
    (state : TaskState) (a : Advanced) (c : Candidate) (i : ℕ)
    → a.1 ≡ some (c, i)
    → reforwarded_to (ask_next env st t run plan_id state a).info ≡ some c.bidder_id
unfolding reassign
ask_next-bidder env st t run plan_id state (sequences, none) c i e = absurd (cc e)
ask_next-bidder env st t run plan_id state (sequences, some (d, j)) c i e =
    (let same : d ≡ c = cc e in ap (λ k. some k.bidder_id) same)

module _ (env : Env) (plan_id run_id : String) (specs : List TaskSpec) (bids : List Bid)
    (services : Services) (run_tasks : Dict String RunTask) (stores : Stores) (t : TaskState) where
  abbrev pub built : Stores
  built = (build_plan_draft env t.username plan_id specs bids services run_tasks stores).1

  names_plan :
      (run : PipelineRun) (old_plan : Option String)
      → env.pipeline_run_id ≡ some run_id
      → truthy run_id ≡ true
      → read_run (run_key t.username env.pipeline_id run_id) stores.runs ≡ some (valid run old_plan)
      → read_run (run_key t.username env.pipeline_id run_id) built.runs
        ≡ some (valid run (some plan_id))
  unfolding build_plan_draft name_plan read_run
  names_plan run old_plan of_run named started =
      rw of_run (
        rw named (rw (started, name_plan) (rw get-put (rw ((triple_beq_iff key key).1 refl) refl))))
    where
      key : Triple
      key = run_key t.username env.pipeline_id run_id

  next_candidate :
      (first second : Bid) (others : List Bid)
      → or_nil (get t.task_id (ranked_bids (rules_of env stores.cfps) bids))
        ≡ first ∷ second ∷ others
      → (advance_evaluation_sequence (sequence_key t.username t.task_id plan_id) built.sequences).1
        ≡ some (to_candidate second, 1)
  next_candidate first second others ranking =
      ap (λ a. a.1)
        (advance_next (sequence_key t.username t.task_id plan_id) built.sequences
          (sequence_of (first ∷ second ∷ others))
          (stored_sequence env t.username plan_id specs bids services run_tasks stores t.task_id
            first second others ranking)
          (to_candidate second) (ground arith) refl)

  -- After a build for a run, its document names the plan, and when a task that more than one bid
  -- qualifies for fails, the tracker that reads this document and these sequences gives the task to
  -- the bidder of the second bid of the ranking.
  pub build_plan_draft-handover :
      (run : PipelineRun) (old_plan : Option String) (state : TaskState)
      (tracker_env : Reforward.Env) (tracker : Tracker) (first second : Bid) (others : List Bid)
      → env.pipeline_run_id ≡ some run_id
      → truthy run_id ≡ true
      → truthy plan_id ≡ true
      → read_run (run_key t.username env.pipeline_id run_id) stores.runs ≡ some (valid run old_plan)
      → (tracker_env.reforward && tracker_env.has_marker_store) ≡ true
      → get t.task_id run.tasks ≡ some state
      → or_nil (get t.task_id (ranked_bids (rules_of env stores.cfps) bids))
        ≡ first ∷ second ∷ others
      → (read_run (run_key t.username env.pipeline_id run_id) built.runs
          ≡ some (valid run (some plan_id)))
        × (reforwarded_to
              (try_reforward tracker_env
                (record tracker { sequences = built.sequences })
                t
                run
                (some plan_id)).info
            ≡ some second.bidder_id)
  unfolding try_reforward reassign
  build_plan_draft-handover run old_plan state tracker_env tracker first second others of_run named
        planned started enabled known ranking =
      (
        names_plan run old_plan of_run named started,
        rw enabled (
            rw planned (
              rw known (
                ask_next-bidder tracker_env (record tracker { sequences = built.sequences }) t run
                  plan_id state _ (to_candidate second) 1
                  (next_candidate first second others ranking)))),
      )

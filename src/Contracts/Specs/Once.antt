-- ===== src/Contracts/Specs/Once.antt =====
-- The tasks that a build plans.
use agentcy.Prelude.{
  ◌≡◌, refl, sym, subst, ap, ◌∙◌, some, contains, String, Bool, true, false, List, [], ◌∷◌, map,
  ◌==◌, string_eq, Dict, keys, get, put, All, if◌then◌else◌, Bool-cases, Option-cases, inl, inr,
}
use agentcy.Contracts.Bids.{Bid}
use agentcy.Contracts.Awards.{Env, TaskSpec, Awards}
use agentcy.Contracts.Awards.Once.{ids_of}
use agentcy.Contracts.Drafts.{
  Services, RunTask, GraphTask, PlanDraft, Stores, graph_task, build_plan_draft,
}
use agentcy.Contracts.Drafts.Sequences.{Distinct, put-Distinct}
use agentcy.Contracts.Drafts.Reoffers.{Placed, best_of, earlier_of, build_plan_draft-Placed}
use agentcy.Contracts.Specs.Sources.{spec_for, is_some, get-gathered, contains-keys, all_found}
use agentcy.Contracts.Specs.{
  StoredSpec, Specs, concerns, collect, set_default, set_defaults, gather, build_from_stored,
}

-- Each task is there once, under its own identifier.
record IsKeyed (specs : Specs) : Type 0 where
  distinct : Distinct (keys specs)
  own : All (λ p. p.1.task_id ≡ p.0) specs

put_own :
    (spec : TaskSpec) (specs : Specs)
    → All (λ p. p.1.task_id ≡ p.0) specs
    → All (λ p. p.1.task_id ≡ p.0) (put spec.task_id spec specs)
unfolding put
put_own spec [] own = (refl, tt)
put_own spec ((k, s) ∷ specs) (h, own) = elim (Bool-cases (k == spec.task_id)) [
  | inl e ↦ rw e (refl, own)
  | inr e ↦ rw e (h, put_own spec specs own)
]

put-IsKeyed :
    (spec : TaskSpec) (specs : Specs) → IsKeyed specs → IsKeyed (put spec.task_id spec specs)
put-IsKeyed spec specs k = record {
  distinct = put-Distinct spec.task_id spec specs k.distinct;
  own = put_own spec specs k.own;
}

collect-IsKeyed :
    (env : Env) (docs : List StoredSpec) (specs : Specs)
    → IsKeyed specs
    → IsKeyed (collect env docs specs)
unfolding collect
collect-IsKeyed env [] specs k = k
collect-IsKeyed env (doc ∷ docs) specs k = elim (Option-cases doc.validated) [
  | inl e ↦ rw (e, collect) (collect-IsKeyed env docs specs k)
  | inr (spec, e) ↦ rw (e, collect) (collect-IsKeyed env docs _ (kept spec (concerns env doc)))
]
  where
    kept : (spec : TaskSpec) (b : Bool) → IsKeyed (if b then put spec.task_id spec specs else specs)
    kept spec true = put-IsKeyed spec specs k
    kept spec false = k

set_default-IsKeyed :
    (spec : TaskSpec) (specs : Specs) → IsKeyed specs → IsKeyed (set_default spec specs)
unfolding set_default
set_default-IsKeyed spec specs k = elim (Option-cases (get spec.task_id specs)) [
  | inl e ↦ rw (e, set_default) (put-IsKeyed spec specs k)
  | inr (old, e) ↦ rw (e, set_default) k
]

set_defaults-IsKeyed :
    (more : List TaskSpec) (specs : Specs) → IsKeyed specs → IsKeyed (set_defaults more specs)
unfolding set_defaults
set_defaults-IsKeyed [] specs k = k
set_defaults-IsKeyed (spec ∷ more) specs k =
    set_defaults-IsKeyed more (set_default spec specs) (set_default-IsKeyed spec specs k)

own_ids :
    (specs : Specs)
    → All (λ p. p.1.task_id ≡ p.0) specs
    → ids_of (map (λ p. p.1) specs) ≡ keys specs
own_ids [] own = refl
own_ids ((k, s) ∷ specs) (h, own) = cc (h, own_ids specs own)

gather-Distinct :
    (env : Env) (docs : List StoredSpec) (configured : List TaskSpec)
    → Distinct (ids_of (gather env docs configured))
unfolding gather
gather-Distinct env docs configured =
    let k =
      set_defaults-IsKeyed configured (collect env docs [])
        (collect-IsKeyed env docs [] (record { distinct = tt; own = tt })) in
    subst Distinct (sym (own_ids (set_defaults configured (collect env docs [])) k.own)) k.distinct

-- A task of a draft with the type that is in the spec that a build takes for it.
pub record Specified (env : Env) (docs : List StoredSpec) (configured : List TaskSpec)
    (task : GraphTask) : Type 0 where
  pub spec : TaskSpec
  pub taken : spec_for env docs configured task.task_id ≡ some spec
  pub task_type : task.task_type ≡ spec.task_type

gather_own :
    (env : Env) (docs : List StoredSpec) (configured : List TaskSpec) (whole : Specs)
    → ((t : String) → get t whole ≡ spec_for env docs configured t)
    → (specs : Specs) → All (λ p. p.1.task_id ≡ p.0) specs
    → All (λ p. get p.0 whole ≡ some p.1) specs
    → All (λ spec. spec_for env docs configured spec.task_id ≡ some spec) (map (λ p. p.1) specs)
gather_own env docs configured whole is [] own found = tt
gather_own env docs configured whole is ((k, spec) ∷ specs) (o, own) (f, found) = (
  sym (is spec.task_id) ∙ ap (λ t. get t whole) o ∙ f,
  gather_own env docs configured whole is specs own found,
)

gather_taken :
    (env : Env) (docs : List StoredSpec) (configured : List TaskSpec)
    → All
        (λ spec. spec_for env docs configured spec.task_id ≡ some spec)
        (gather env docs configured)
unfolding gather
gather_taken env docs configured =
    let whole = set_defaults configured (collect env docs []) in
    let k =
      set_defaults-IsKeyed configured (collect env docs [])
        (collect-IsKeyed env docs [] (record { distinct = tt; own = tt })) in
    gather_own env docs configured whole (get-gathered env docs configured) whole k.own
      (all_found whole k.distinct)

contains-gather :
    (env : Env) (docs : List StoredSpec) (configured : List TaskSpec) (t : String)
    → contains t (ids_of (gather env docs configured)) ≡ is_some (spec_for env docs configured t)
unfolding gather
contains-gather env docs configured t =
    let whole = set_defaults configured (collect env docs []) in
    let k =
      set_defaults-IsKeyed configured (collect env docs [])
        (collect-IsKeyed env docs [] (record { distinct = tt; own = tt })) in
    ap (contains t) (own_ids whole k.own)
    ∙ contains-keys t whole
    ∙ ap is_some (get-gathered env docs configured t)

task_ids :
    (f : TaskSpec → GraphTask) (specs : List TaskSpec)
    → ((spec : TaskSpec) → (f spec).task_id ≡ spec.task_id)
    → map (λ task. task.task_id) (map f specs) ≡ ids_of specs
task_ids f [] same = refl
task_ids f (spec ∷ specs) same = cc (same spec, task_ids f specs same)

abbrev pub task_ids_of : PlanDraft → List String
task_ids_of draft = map (λ task. task.task_id) draft.tasks

module _ (env : Env) (username plan_id : String) (bids : List Bid) (services : Services)
    (run_tasks : Dict String RunTask) (stores : Stores) where
  draft_ids :
      (specs : List TaskSpec)
      → task_ids_of (build_plan_draft env username plan_id specs bids services run_tasks stores).0
        ≡ ids_of specs
  unfolding build_plan_draft graph_task
  draft_ids specs = task_ids (graph_task services run_tasks _ _) specs (λ spec. refl)

  specified :
      (docs : List StoredSpec) (configured specs : List TaskSpec) (best : Dict String Bid)
      (awards : Awards)
      → All (λ spec. spec_for env docs configured spec.task_id ≡ some spec) specs
      → All (Specified env docs configured) (map (graph_task services run_tasks best awards) specs)
  unfolding graph_task
  specified docs configured [] best awards taken = tt
  specified docs configured (spec ∷ specs) best awards (t, taken) = (
    (record { spec = spec; taken = t; task_type = refl }),
    specified docs configured specs best awards taken,
  )

  -- A build plans exactly the tasks that have a spec, a stored one that is valid and concerns the
  -- build or a configured one, each task once. Its type is that of the last such spec that is stored
  -- for it, or else of the first that is configured; and it is planned as `Placed` says, from the
  -- best bids of the open calls and the awards that the pipeline had before.
  pub build_from_stored-planned :
      (docs : List StoredSpec) (configured : List TaskSpec)
      → (let draft =
            (build_from_stored env username plan_id docs configured bids services run_tasks
              stores).0 in
          Distinct (task_ids_of draft)
          × ((t : String)
              → contains t (task_ids_of draft) ≡ is_some (spec_for env docs configured t))
          × All (Specified env docs configured) draft.tasks
          × All
              (Placed env
                (best_of env username plan_id
                  (gather env docs configured)
                  bids
                  services
                  run_tasks
                  stores)
                (earlier_of env username plan_id
                  (gather env docs configured)
                  bids
                  services
                  run_tasks
                  stores)
                run_tasks)
              draft.tasks)
  unfolding build_from_stored build_plan_draft
  build_from_stored-planned docs configured = (
    subst Distinct (sym (draft_ids (gather env docs configured)))
        (gather-Distinct env docs configured),
    λ t.
        ap (contains t) (draft_ids (gather env docs configured))
        ∙ contains-gather env docs configured t,
    specified docs configured (gather env docs configured) _ _ (gather_taken env docs configured),
    build_plan_draft-Placed env username plan_id (gather env docs configured) bids services
        run_tasks stores,
  )

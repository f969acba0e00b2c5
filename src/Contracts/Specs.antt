-- ===== src/Contracts/Specs.antt =====
-- The task specs that `build_plan_draft` of src/agentcy/agent_runtime/services/graph_builder.py takes
-- from the graph marker store and from the pipeline configuration, and the build with them.
-- The specs of the configuration are given.
pub mod Sources
pub mod Once
use agentcy.Prelude.{
  String, Bool, true, false, not, ◌&&◌, List, [], ◌∷◌, Option, none, some, map, ◌==◌, string_eq,
  contains, Dict, get, put, truthy, if◌then◌else◌,
}
use agentcy.Contracts.Bids.{Bid}
use agentcy.Contracts.Awards.{Env, TaskSpec}
use agentcy.Contracts.Drafts.{Services, RunTask, PlanDraft, Stores, build_plan_draft}

-- A stored document: its task, the pipeline and run of its metadata, and what the validation makes of
-- it, `none` where it fails.
pub record StoredSpec : Type 0 where
  pub task_id : Option String
  pub pipeline_id : Option String
  pub pipeline_run_id : Option String
  pub validated : Option TaskSpec

-- value and value != wanted
unfoldable pub differs : Option String → String → Bool
differs none wanted = false
differs (some value) wanted = truthy value && not (value == wanted)

unfoldable pub is_asked : List String → Option String → Bool
is_asked [] task_id = true
is_asked (t ∷ ts) none = false
is_asked (t ∷ ts) (some task_id) = contains task_id (t ∷ ts)

unfoldable pub concerns : Env → StoredSpec → Bool
concerns env doc =
    is_asked env.task_ids doc.task_id
    && not (differs doc.pipeline_id env.pipeline_id)
    && elim env.pipeline_run_id [
      | none ↦ true
      | some run_id ↦ not (truthy run_id && differs doc.pipeline_run_id run_id)
    ]

abbrev pub Specs : Type 0
Specs = Dict String TaskSpec

-- The valid documents that concern the build, a later one in the place of an earlier one.
unfoldable pub collect : Env → List StoredSpec → Specs → Specs
collect env [] specs = specs
collect env (doc ∷ docs) specs = elim doc.validated [
  | none ↦ collect env docs specs
  | some spec ↦ collect env docs (if concerns env doc then put spec.task_id spec specs else specs)
]

-- specs_by_id.setdefault(spec.task_id, spec)
unfoldable pub set_default : TaskSpec → Specs → Specs
set_default spec specs = elim (get spec.task_id specs) [
  | none ↦ put spec.task_id spec specs
  | some old ↦ specs
]

unfoldable pub set_defaults : List TaskSpec → Specs → Specs
set_defaults [] specs = specs
set_defaults (spec ∷ more) specs = set_defaults more (set_default spec specs)

unfoldable pub gather : Env → List StoredSpec → List TaskSpec → List TaskSpec
gather env docs configured = map (λ p. p.1) (set_defaults configured (collect env docs []))

unfoldable pub build_from_stored :
    Env
    → String
    → String
    → List StoredSpec
    → List TaskSpec
    → List Bid
    → Services
    → Dict String RunTask
    → Stores
    → PlanDraft × Stores
build_from_stored env username plan_id docs configured bids services run_tasks stores =
    build_plan_draft env username plan_id (gather env docs configured) bids services run_tasks
      stores

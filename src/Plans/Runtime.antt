-- ===== src/Plans/Runtime.antt =====
-- `validate_runtime_constraints` of src/agentcy/agent_runtime/services/plan_revision_utils.py: what a
-- revision of a plan may change while the plan runs. `str.upper` is a parameter. The sets that the
-- code sorts keep the order of their tasks in the run here, which orders the violations only.
pub mod Sound
use agentcy.Prelude.{
  String, Bool, true, false, not, ◌&&◌, ◌||◌, List, [], ◌∷◌, ◌++◌, map, Option, none, some, ◌==◌,
  string_eq, Dict, get, put, keep, contains, if◌then◌else◌,
}
use agentcy.Plans.Graph.{Doc, Value, null, field, is_true, to_str, Edge, GraphSpec, present}

pub data Violation : Type 0 where
  remove_started_task : (task_id : String) → Violation
  running_assignment_change : (task_id from to : String) → Violation
  invalid_runtime_dependency : (task_id : String) (preds : List String) → Violation

-- The task documents by id; of two with one id, the later.
unfoldable pub task_map : List Doc → Dict String Doc → Dict String Doc
task_map [] d = d
task_map (task ∷ tasks) d =
    task_map tasks
      (if is_true (field "task_id" task) then put (to_str (field "task_id" task)) task d else d)

-- The ids of the tasks of the run with a given status. A status is a string or missing.
module _ (upper : String → String) where
  unfoldable pub task_status : Option String → Option String
  task_status none = none
  task_status (some s) = some (upper s)

  abbrev is_status : String → Option String → Bool
  is_status status none = false
  is_status status (some s) = s == status

  unfoldable pub with_status : String → Dict String (Option String) → List String
  with_status status [] = []
  with_status status ((id, raw) ∷ run) =
      let rest = with_status status run in
      if is_status status (task_status raw) then id ∷ rest else rest

unfoldable pub has {ℓ} : {V : Type ℓ} → String → Dict String V → Bool
has id d = elim (get id d) [ none ↦ false | some v ↦ true ]

-- The first loop: the started tasks that the candidate lacks.
unfoldable pub removals : Dict String Doc → List String → List Violation
removals candidate [] = []
removals candidate (id ∷ started) =
    let rest = removals candidate started in
    if has id candidate then rest else remove_started_task id ∷ rest

-- The agent of a task, where it counts as true; a missing task or an empty document has none.
unfoldable pub agent_of : String → Dict String Doc → Option String
agent_of id d = elim (get id d) [
  | none ↦ none
  | some task ↦
      let agent = field "assigned_agent" task in if is_true agent then some (to_str agent) else none
]

abbrev changed : String → Option String → Option String → List Violation
changed id none now = []
changed id (some before) none = []
changed id (some before) (some now) =
    if before == now then [] else running_assignment_change id before now ∷ []

-- The second loop: the running tasks whose agent changes.
unfoldable pub reassignments : Dict String Doc → Dict String Doc → List String → List Violation
reassignments base candidate [] = []
reassignments base candidate (id ∷ running) =
    changed id (agent_of id base) (agent_of id candidate) ++ reassignments base candidate running

-- The predecessors of a task that have not been completed, by the edges of the candidate.
abbrev source_at : String → Option String → Option String → List String
source_at id none target = []
source_at id (some s) none = []
source_at id (some s) (some t) = if t == id then s ∷ [] else []

-- s.add(x), with the new element first
abbrev add_each : List String → List String → List String
add_each [] s = s
add_each (x ∷ xs) s = let rest = add_each xs s in if contains x rest then rest else x ∷ rest

unfoldable pub predecessors : String → List Edge → List String
predecessors id [] = []
predecessors id (edge ∷ edges) =
    let rest = predecessors id edges in
    if present edge.source && present edge.target
    then add_each (source_at id edge.source edge.target) rest
    else rest

abbrev unless_nil : String → List String → List Violation
unless_nil id [] = []
unless_nil id (p ∷ ps) = invalid_runtime_dependency id (p ∷ ps) ∷ []

-- The third loop.
unfoldable pub dependencies : List Edge → List String → List String → List Violation
dependencies edges completed [] = []
dependencies edges completed (id ∷ ids) =
    unless_nil id (keep (λ p. not (contains p completed)) (predecessors id edges))
    ++ dependencies edges completed ids

-- `none` for the tasks is a run document whose tasks are no dictionary.
unfoldable pub validate_runtime_constraints :
    (String → String)
    → GraphSpec
    → GraphSpec
    → Option (Dict String (Option String))
    → List Violation
validate_runtime_constraints upper base_graph candidate_graph none = []
validate_runtime_constraints upper base_graph candidate_graph (some run) =
    let completed = with_status upper "COMPLETED" run in
    let running = with_status upper "RUNNING" run in
    let failed = with_status upper "FAILED" run in
    let base = task_map base_graph.tasks [] in
    let candidate = task_map candidate_graph.tasks [] in
    removals candidate (completed ++ (running ++ failed))
    ++ (reassignments base candidate running
        ++ dependencies candidate_graph.edges completed (completed ++ running))

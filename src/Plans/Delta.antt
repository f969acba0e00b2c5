-- ===== src/Plans/Delta.antt =====
-- `apply_delta` of src/agentcy/agent_runtime/services/plan_revision_utils.py. A part of the delta that
-- is missing or of another type is `none`, and so is an entry that is not a dictionary.
pub mod Removed
use agentcy.Prelude.{
  ℕ, ◌+◌, String, Bool, true, false, not, ◌&&◌, List, [], ◌∷◌, ◌++◌, map, Option, none, some, ◌==◌,
  string_eq, Dict, get, put, keep, length, contains, if◌then◌else◌,
}
use agentcy.Plans.Graph.{
  Doc, Value, field, is_true, to_str, Edge, edge_eq, GraphSpec, present, end_in,
}

pub record Delta : Type 0 where
  pub task_overrides : Option (Dict String (Option Doc))
  pub remove_tasks : Option (List Value)
  pub add_tasks : Option (List (Option Doc))
  pub add_edges : Option (List (Option Edge))
  pub remove_edges : Option (List (Option Edge))

-- task.update(patch)
unfoldable pub update : Doc → Doc → Doc
update [] task = task
update ((k, v) ∷ patch) task = update patch (put k v task)

-- The patch of a task, where it has one.
unfoldable pub patch_of : Dict String (Option Doc) → Doc → Option Doc
patch_of overrides task =
    if is_true (field "task_id" task)
    then (elim (get (to_str (field "task_id" task)) overrides) [ none ↦ none | some patch ↦ patch ])
    else none

abbrev patched : Option Doc → Doc → Doc
patched none task = task
patched (some patch) task = update patch task

abbrev ones : Option Doc → ℕ
ones none = 0
ones (some patch) = 1

-- The tasks after the overrides, and how many were applied.
unfoldable pub override : Dict String (Option Doc) → List Doc → List Doc × ℕ
override overrides [] = ([], 0)
override overrides (task ∷ tasks) =
    let rest = override overrides tasks in
    let patch = patch_of overrides task in (patched patch task ∷ rest.0, ones patch + rest.1)

unfoldable pub apply_overrides : Option (Dict String (Option Doc)) → List Doc → List Doc × ℕ
apply_overrides none tasks = (tasks, 0)
apply_overrides (some overrides) tasks = override overrides tasks

-- A set as a list without repetitions.
unfoldable pub distinct_ids : List Value → List String
distinct_ids [] = []
distinct_ids (v ∷ vs) =
    let rest = distinct_ids vs in if contains (to_str v) rest then rest else to_str v ∷ rest

unfoldable pub distinct_edges : List (Option Edge) → List Edge
distinct_edges [] = []
distinct_edges (none ∷ es) = distinct_edges es
distinct_edges (some e ∷ es) =
    let rest = distinct_edges es in if contains e rest then rest else e ∷ rest

-- `remove_set`
unfoldable pub removed_ids : Option (List Value) → List String
removed_ids none = []
removed_ids (some vs) = distinct_ids vs

unfoldable pub removed_pairs : Option (List (Option Edge)) → List Edge
removed_pairs none = []
removed_pairs (some es) = distinct_edges es

unfoldable pub stays : List String → Doc → Bool
stays removed task = not (contains (to_str (field "task_id" task)) removed)

unfoldable pub edge_stays : List String → Edge → Bool
edge_stays removed edge = not (end_in edge.source removed) && not (end_in edge.target removed)

-- The entries of `add_tasks` and `add_edges` that are added.
unfoldable pub tasks_to_add : List (Option Doc) → List Doc
tasks_to_add [] = []
tasks_to_add (none ∷ ts) = tasks_to_add ts
tasks_to_add (some t ∷ ts) =
    let rest = tasks_to_add ts in if is_true (field "task_id" t) then t ∷ rest else rest

unfoldable pub edges_to_add : List (Option Edge) → List Edge
edges_to_add [] = []
edges_to_add (none ∷ es) = edges_to_add es
edges_to_add (some e ∷ es) =
    let rest = edges_to_add es in if present e.source && present e.target then e ∷ rest else rest

unfoldable pub added_tasks : Option (List (Option Doc)) → List Doc
added_tasks none = []
added_tasks (some ts) = tasks_to_add ts

unfoldable pub added_edges : Option (List (Option Edge)) → List Edge
added_edges none = []
added_edges (some es) = edges_to_add es

unfoldable pub edge_kept : List Edge → Edge → Bool
edge_kept pairs edge = not (contains edge pairs)

-- The graph after the delta, and the number of changes.
unfoldable pub apply_delta : GraphSpec → Delta → GraphSpec × ℕ
apply_delta graph delta =
    let overridden = apply_overrides delta.task_overrides graph.tasks in
    let removed = removed_ids delta.remove_tasks in
    let tasks = keep (stays removed) overridden.0 ++ added_tasks delta.add_tasks in
    let edges = keep (edge_stays removed) graph.edges ++ added_edges delta.add_edges in
    let pairs = removed_pairs delta.remove_edges in
    (
      record { tasks = tasks; edges = keep (edge_kept pairs) edges },
      overridden.1
          + length removed
          + length (added_tasks delta.add_tasks)
          + length (added_edges delta.add_edges)
          + length pairs,
    )

-- ===== src/Workflow/Order.antt =====
-- The order of the tasks in src/agentcy/rabbitmq_workflow/workflow_config_parser.py: `parse_dag`,
-- `detect_cycles_kahn`, `validate_no_solo_nodes`, `validate_single_connected_dag`,
-- `find_parallel_tasks` and `identify_fan_in_steps`.
pub mod Fuel
pub mod Follows
pub mod Reaches
use agentcy.Prelude.{
  ℕ, zero, suc, ◌+◌, ◌-◌, String, Bool, true, false, not, ◌&&◌, List, [], ◌∷◌, ◌++◌, map, Option,
  none, some, ◌==◌, string_eq, nat_eq, Dict, get, put, keys, keep, length, contains, ltb, nat_beq,
  if◌then◌else◌,
}
use agentcy.Workflow.Kahn.{
  Graph, Degrees, neighbors, degree, add_edge, bump, sources, pop_left, drain, topological, relax,
}
use agentcy.Workflow.Tasks.{
  Task, Result, ok, error, ParseError, circular, solo_nodes, no_tasks, disconnected, out_of_fuel,
}

-- The graph and the in-degrees, by the loop that `detect_cycles_kahn` and `parse_dag` have.
unfoldable pub add_task_edges : String → List String → Graph → Degrees → Graph × Degrees
add_task_edges task_id [] graph degrees = (graph, put task_id (degree task_id degrees) degrees)
add_task_edges task_id (dep ∷ deps) graph degrees =
    add_task_edges task_id deps (add_edge dep task_id graph) (bump task_id degrees)

unfoldable pub build_graph : List Task → Graph → Degrees → Graph × Degrees
build_graph [] graph degrees = (graph, degrees)
build_graph (task ∷ tasks) graph degrees =
    let built = add_task_edges task.id task.dependencies graph degrees in
    build_graph tasks built.0 built.1

-- The nodes that Kahn's algorithm takes, from the tasks without dependencies on. The keys of the
-- in-degrees are the ids of the tasks, in the order of the tasks.
unfoldable pub kahn : List Task → Option (List String)
kahn tasks =
    let built = build_graph tasks [] [] in topological pop_left built.0 built.1 (sources built.1)

unfoldable pub detect_cycles_kahn : List Task → Result (Unit {0})
detect_cycles_kahn tasks = elim (kahn tasks) [
  | none ↦ error out_of_fuel
  | some order ↦ if nat_beq (length order) (length tasks) then ok tt else error circular
]

unfoldable pub parse_dag : List Task → Result (List String × Graph)
parse_dag tasks = elim (kahn tasks) [
  | none ↦ error out_of_fuel
  | some order ↦ ok (order, (build_graph tasks [] []).0)
]

abbrev pub is_nil {ℓ} : {A : Type ℓ} → List A → Bool
is_nil [] = true
is_nil (x ∷ xs) = false

-- A task without dependencies and without dependents.
unfoldable pub is_solo : Graph → Task → Bool
is_solo graph task = is_nil task.dependencies && is_nil (neighbors task.id graph)

unfoldable pub validate_no_solo_nodes : List Task → Graph → Result (Unit {0})
validate_no_solo_nodes tasks graph = elim (map (λ t. t.id) (keep (is_solo graph) tasks)) [
  | [] ↦ ok tt
  | x ∷ xs ↦ error (solo_nodes (x ∷ xs))
]

-- The search of `validate_single_connected_dag`, with the ids visited and the graph: reading the
-- neighbours of a task makes an empty place for a task that has none.
unfoldable pub search_from : ℕ → Graph → List String → List String → Option (List String × Graph)
search_from zero graph visited queue = none
search_from (suc fuel) graph visited [] = some (visited, graph)
search_from (suc fuel) graph visited (current ∷ queue) =
    let skip = search_from fuel graph visited queue in
    let visit =
      search_from fuel (put current (neighbors current graph) graph) (current ∷ visited)
        (queue ++ neighbors current graph) in
    if contains current visited then skip else visit

-- Each edge puts one task into the queue.
unfoldable pub edges : Graph → ℕ
edges [] = 0
edges ((s, targets) ∷ graph) = length targets + edges graph

abbrev pub outside : List String → List String → List String
outside visited all = keep (λ i. not (contains i visited)) all

-- The comparison of the visited ids with those of all tasks.
unfoldable pub compare_visited : List String → List String × Graph → Result Graph
compare_visited all (visited, graph) =
    if is_nil (outside visited all) && is_nil (outside all visited)
    then ok graph
    else error (disconnected (outside visited all))

unfoldable pub validate_single_connected_dag : List Task → Graph → Result Graph
validate_single_connected_dag [] graph = error no_tasks
validate_single_connected_dag (task ∷ tasks) graph =
    elim (search_from (2 + edges graph) graph [] (task.id ∷ [])) [
      | none ↦ error out_of_fuel
      | some found ↦ compare_visited (map (λ t. t.id) (task ∷ tasks)) found
    ]

-- The in-degrees of `find_parallel_tasks`, from the graph.
unfoldable pub bump_all : List String → Degrees → Degrees
bump_all [] degrees = degrees
bump_all (n ∷ ns) degrees = bump_all ns (bump n degrees)

unfoldable pub in_degrees : Graph → Degrees → Degrees
in_degrees [] degrees = degrees
in_degrees ((s, targets) ∷ graph) degrees = in_degrees graph (bump_all targets degrees)

-- The levels of the tasks: the loop over the neighbours of a task of a level.
unfoldable pub set_levels : ℕ → List String → Degrees → Dict String ℕ → Dict String ℕ
set_levels level [] degrees levels = levels
set_levels level (n ∷ ns) degrees levels =
    let d = degree n degrees in
    set_levels level ns (put n (d - 1) degrees)
      (if nat_beq d 1 then put n (level + 1) levels else levels)

-- The `while` loop. Each task in the queue has a level.
unfoldable pub assign_levels :
    ℕ → Graph → Degrees → List String → Dict String ℕ → Option (Dict String ℕ)
assign_levels zero graph degrees queue levels = none
assign_levels (suc fuel) graph degrees [] levels = some levels
assign_levels (suc fuel) graph degrees (current ∷ queue) levels =
    let next = relax (neighbors current graph) degrees queue in
    assign_levels fuel graph next.0 next.1
      (set_levels (degree current levels) (neighbors current graph) degrees levels)

-- levels[lvl].append(task)
unfoldable pub group_by_level : Dict String ℕ → Dict ℕ (List String) → Dict ℕ (List String)
group_by_level [] groups = groups
group_by_level ((task, lvl) ∷ levels) groups =
    group_by_level levels
      (put lvl (elim (get lvl groups) [ none ↦ task ∷ [] | some ts ↦ ts ++ (task ∷ []) ]) groups)

abbrev pub at_level_zero : List String → Dict String ℕ → Dict String ℕ
at_level_zero [] levels = levels
at_level_zero (t ∷ ts) levels = at_level_zero ts (put t 0 levels)

unfoldable pub find_parallel_tasks : List String → Graph → Result (List (List String))
find_parallel_tasks execution_order graph =
    let degrees = in_degrees graph [] in
    let initial = keep (λ t. nat_beq (degree t degrees) 0) execution_order in
    let levelled =
      assign_levels (suc (length initial + length degrees)) graph degrees initial
        (at_level_zero initial []) in
    elim levelled [
      | none ↦ error out_of_fuel
      | some levels ↦
          ok (keep (λ ts. ltb 1 (length ts)) (map (λ p. p.1) (group_by_level levels [])))
    ]

-- `task_dict`, and the tasks of more than one dependency.
unfoldable pub task_dict : List Task → Dict String Task → Dict String Task
task_dict [] d = d
task_dict (task ∷ tasks) d = task_dict tasks (put task.id task d)

unfoldable pub identify_fan_in_steps : Dict String Task → List String
identify_fan_in_steps d = keys (keep (λ p. ltb 1 (length p.1.dependencies)) d)

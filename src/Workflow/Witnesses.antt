-- ===== src/Workflow/Witnesses.antt =====
-- The theorems on the parser at a workflow of four tasks, where two of them can run in parallel.
use agentcy.Prelude.{
  All, ◌≡◌, ◌≢◌, refl, arith, String, Bool, true, false, List, [], ◌∷◌, none, get, put, keep,
  contains, string_eq, nat_eq, length,
}
use agentcy.Workflow.Kahn.{neighbors, degree, add_edge, bump, relax, pop_left, drain, topological}
use agentcy.Workflow.Tasks.{
  TaskConfig, Result, ok, error, out_of_fuel, set_add, to_set, outputs_of, add_dependencies,
  add_tasks, touch, infer_dependencies_and_outputs,
}
use agentcy.Workflow.Order.{
  add_task_edges, build_graph, kahn, detect_cycles_kahn, parse_dag, is_solo, validate_no_solo_nodes,
  search_from, edges, compare_visited, validate_single_connected_dag, bump_all, in_degrees,
  set_levels, assign_levels, group_by_level, find_parallel_tasks, task_dict, identify_fan_in_steps,
}
use agentcy.Workflow.Wiring.{
  suggest_each, suggest_fan_in, suggest_exchange_types, add_queues, identify_each,
  identify_publishers_subscribers_queues, routing_key_of, end_task, prepare_each,
  prepare_rabbitmq_configs, find_task, parse_each, parse_fan_in_metadata,
}
use agentcy.Workflow.Parser.{DagConfig, FinalConfig, order_tasks, wire_tasks, parse_graph}
use agentcy.Workflow.Parser.Checked.{RunsInOrder, parse_graph-RunsInOrder}
use agentcy.Workflow.Order.Reaches.{Reaches}
use agentcy.Workflow.Parser.Rooted.{parse_graph-Reaches}
use agentcy.Workflow.Parser.Total.{parse_graph_total}

abbrev task : String → List String → TaskConfig
task id inputs = record { id = id; name = id; inputs = inputs }

abbrev diamond : DagConfig
diamond = record {
  tasks =
      task "a" [] ∷ task "b" ("a" ∷ []) ∷ task "c" ("a" ∷ []) ∷ task "d" ("b" ∷ ("c" ∷ [])) ∷ [];
  timeout = none;
}

abbrev is_ok {ℓ} : {A : Type ℓ} → Result A → Bool
is_ok (ok a) = true
is_ok (error c) = false

value_of {ℓ} : {A : Type ℓ} (r : Result A) → is_ok r ≡ true → (a : A) × (r ≡ ok a)
value_of (ok a) h = (a, refl)
value_of (error c) h = absurd (ground (arith, h))

diamond-is_ok : is_ok (parse_graph diamond "p") ≡ true
unfolding get put keep contains neighbors degree add_edge bump relax pop_left drain topological
    set_add to_set outputs_of add_dependencies add_tasks touch infer_dependencies_and_outputs
    add_task_edges build_graph kahn detect_cycles_kahn parse_dag is_solo validate_no_solo_nodes
    search_from edges compare_visited validate_single_connected_dag bump_all in_degrees set_levels
    assign_levels group_by_level find_parallel_tasks task_dict identify_fan_in_steps suggest_each
    suggest_fan_in suggest_exchange_types add_queues identify_each
    identify_publishers_subscribers_queues routing_key_of end_task prepare_each
    prepare_rabbitmq_configs find_task parse_each parse_fan_in_metadata order_tasks wire_tasks
    parse_graph
diamond-is_ok = refl

accepted : (final : FinalConfig) × (parse_graph diamond "p" ≡ ok final)
accepted = value_of (parse_graph diamond "p") diamond-is_ok

parse_graph-RunsInOrder_example :
    (length (accepted.0).execution_order ≡ length (diamond.tasks))
    × RunsInOrder (diamond.tasks) [] (accepted.0).execution_order
parse_graph-RunsInOrder_example = parse_graph-RunsInOrder diamond "p" (accepted.0) (accepted.1)

parse_graph_total_example : parse_graph diamond "p" ≢ error out_of_fuel
parse_graph_total_example = parse_graph_total diamond "p"

parse_graph-Reaches_example : All (Reaches (accepted.0).task_graph "a") ("a" ∷ "b" ∷ "c" ∷ "d" ∷ [])
parse_graph-Reaches_example =
    parse_graph-Reaches diamond "p" (accepted.0) (task "a" [])
      (task "b" ("a" ∷ []) ∷ task "c" ("a" ∷ []) ∷ task "d" ("b" ∷ ("c" ∷ [])) ∷ []) refl
      (accepted.1)

-- ===== src/Workflow/Parser/Total.antt =====
-- The parser never runs out of fuel.
use agentcy.Prelude.{
  ℕ, ◌+◌, ◌≡◌, ◌≢◌, refl, ap, suc, String, Bool, true, false, List, [], ◌∷◌, map, Option, none,
  some, arith, string_eq, Dict, get, put, length, keep, nat_beq, Option-cases, inl, inr,
}
use agentcy.Workflow.Kahn.{Graph, Degrees, degree}
use agentcy.Workflow.Kahn.Fuel.{positives-le}
use agentcy.Workflow.Tasks.{
  TaskConfig, Task, Outputs, ParseError, Result, ok, error, ◌>>=◌, out_of_fuel, set_add, outputs_of,
  to_set, ids, add_dependencies, add_tasks, infer_dependencies_and_outputs,
}
use agentcy.Workflow.Order.{
  detect_cycles_kahn, parse_dag, validate_no_solo_nodes, search_from, edges, compare_visited,
  validate_single_connected_dag, find_parallel_tasks, assign_levels, in_degrees, at_level_zero,
  task_dict, identify_fan_in_steps,
}
use agentcy.Workflow.Order.Fuel.{kahn_total, search_total, assign_levels_total}
use agentcy.Workflow.Wiring.{
  Exchanges, Queue, RabbitmqConfig, FanIn, suggest_each, suggest_exchange_types, end_task,
  exchange_from, prepare_each, prepare_rabbitmq_configs, find_task, parse_each,
  parse_fan_in_metadata, identify_publishers_subscribers_queues,
}
use agentcy.Workflow.Parser.{DagConfig, timeout_of, order_tasks, wire_tasks, parse_graph}

-- A cause other than the want of fuel, and a result without that cause.
abbrev fed_cause : ParseError → Bool
fed_cause out_of_fuel = false
fed_cause _ = true

abbrev is_fed {ℓ} : {A : Type ℓ} → Result A → Bool
is_fed (ok a) = true
is_fed (error c) = fed_cause c

>>=-is_fed {ℓ κ} :
    {A : Type ℓ} {B : Type κ} (m : Result A) (f : A → Result B)
    → is_fed m ≡ true
    → ((a : A) → is_fed (f a) ≡ true)
    → is_fed (m >>= f) ≡ true
>>=-is_fed (ok a) f fed next = next a
>>=-is_fed (error c) f fed next = fed

add_dependencies-is_fed :
    (task_ids : List String) (id : String) (deps : List String) (outputs : Outputs)
    → is_fed (add_dependencies task_ids id deps outputs) ≡ true
unfolding add_dependencies
add_dependencies-is_fed task_ids id [] outputs = refl
add_dependencies-is_fed task_ids id (dep ∷ deps) outputs = ground (
  arith,
  add_dependencies-is_fed task_ids id deps (put dep (set_add id (outputs_of dep outputs)) outputs),
)

add_tasks-is_fed :
    (task_ids : List String) (tasks : List TaskConfig) (outputs : Outputs)
    → is_fed (add_tasks task_ids tasks outputs) ≡ true
unfolding add_tasks
add_tasks-is_fed task_ids [] outputs = refl
add_tasks-is_fed task_ids (task ∷ tasks) outputs =
    >>=-is_fed (add_dependencies task_ids task.id (to_set task.inputs []) outputs)
      (add_tasks task_ids tasks)
      (add_dependencies-is_fed task_ids task.id (to_set task.inputs []) outputs)
      (add_tasks-is_fed task_ids tasks)

infer-is_fed : (tasks : List TaskConfig) → is_fed (infer_dependencies_and_outputs tasks) ≡ true
unfolding infer_dependencies_and_outputs
infer-is_fed tasks =
    >>=-is_fed (add_tasks (ids tasks) tasks []) _ (add_tasks-is_fed (ids tasks) tasks [])
      (λ outputs. refl)

detect_cycles_kahn-is_fed : (tasks : List Task) → is_fed (detect_cycles_kahn tasks) ≡ true
unfolding detect_cycles_kahn
detect_cycles_kahn-is_fed tasks = ground (arith, (kahn_total tasks).1)

parse_dag-is_fed : (tasks : List Task) → is_fed (parse_dag tasks) ≡ true
unfolding parse_dag
parse_dag-is_fed tasks = ground (arith, (kahn_total tasks).1)

validate_no_solo_nodes-is_fed :
    (tasks : List Task) (graph : Graph) → is_fed (validate_no_solo_nodes tasks graph) ≡ true
unfolding validate_no_solo_nodes
validate_no_solo_nodes-is_fed tasks graph = ground arith

compare_visited-is_fed :
    (all : List String) (found : List String × Graph) → is_fed (compare_visited all found) ≡ true
unfolding compare_visited
compare_visited-is_fed all found = ground arith

validate_single_connected_dag-is_fed :
    (tasks : List Task) (graph : Graph) → is_fed (validate_single_connected_dag tasks graph) ≡ true
unfolding validate_single_connected_dag
validate_single_connected_dag-is_fed [] graph = refl
validate_single_connected_dag-is_fed (task ∷ tasks) graph =
    elim (Option-cases (search_from (2 + edges graph) graph [] (task.id ∷ []))) [
      | inl short ↦ absurd (search_total graph task.id short)
      | inr (found, e) ↦
          rw (e, is_fed) (compare_visited-is_fed (map (λ t. t.id) (task ∷ tasks)) found)
    ]

order_tasks-is_fed : (tasks : List Task) → is_fed (order_tasks tasks) ≡ true
unfolding order_tasks
order_tasks-is_fed tasks =
    >>=-is_fed (detect_cycles_kahn tasks) _ (detect_cycles_kahn-is_fed tasks) (λ u.
      >>=-is_fed (parse_dag tasks) _ (parse_dag-is_fed tasks) (λ parsed.
        >>=-is_fed (validate_no_solo_nodes tasks parsed.1) _
          (validate_no_solo_nodes-is_fed tasks parsed.1)
          (λ v.
            >>=-is_fed (validate_single_connected_dag tasks parsed.1) _
              (validate_single_connected_dag-is_fed tasks parsed.1) (λ graph. refl))))

-- From the in-degrees of a graph, the levels are found within the fuel.
assign_levels_enough :
    (graph : Graph) (degrees : Degrees) (initial : List String) (levels : Dict String ℕ)
    → assign_levels (suc (length initial + length degrees)) graph degrees initial levels ≢ none
assign_levels_enough graph degrees initial levels =
    assign_levels_total (suc (length initial + length degrees)) graph degrees initial levels
      (omega (arith, positives-le degrees))

find_parallel_tasks-is_fed :
    (order : List String) (graph : Graph) → is_fed (find_parallel_tasks order graph) ≡ true
unfolding find_parallel_tasks
find_parallel_tasks-is_fed order graph = ground (
  arith,
  assign_levels_enough graph (in_degrees graph [])
      (keep (λ t. nat_beq (degree t (in_degrees graph [])) 0) order)
      (at_level_zero (keep (λ t. nat_beq (degree t (in_degrees graph [])) 0) order) []),
)

suggest_each-is_fed :
    (tasks : Dict String Task) (graph : Graph) (exchanges : Exchanges)
    → is_fed (suggest_each tasks graph exchanges) ≡ true
unfolding suggest_each
suggest_each-is_fed tasks [] exchanges = refl
suggest_each-is_fed tasks ((id, dependents) ∷ graph) exchanges =
    elim (Option-cases (get id tasks)) [
      | inl missing ↦ rw (missing, is_fed) refl
      | inr (task, e) ↦ rw (e, is_fed) (suggest_each-is_fed tasks graph _)
    ]

suggest_exchange_types-is_fed :
    (graph : Graph) (tasks : Dict String Task) (steps : List String)
    → is_fed (suggest_exchange_types graph tasks steps) ≡ true
unfolding suggest_exchange_types
suggest_exchange_types-is_fed graph tasks steps =
    >>=-is_fed (suggest_each tasks graph []) _ (suggest_each-is_fed tasks graph [])
      (λ exchanges. refl)

exchange_from-is_fed :
    (exchanges : Exchanges) (source : Option String)
    → is_fed (exchange_from exchanges source) ≡ true
exchange_from-is_fed exchanges none = refl
exchange_from-is_fed exchanges (some id) = ground arith

end_task-is_fed :
    (exchanges : Exchanges) (outputs : Outputs) (q : Queue) (processed : List String)
    → is_fed (end_task exchanges outputs q processed) ≡ true
unfolding end_task
end_task-is_fed exchanges outputs q processed = ground arith

prepare_each-is_fed :
    (exchanges : Exchanges) (outputs : Outputs) (queues : Dict String Queue)
    (processed : List String) (configs : List RabbitmqConfig)
    → is_fed (prepare_each exchanges outputs queues processed configs) ≡ true
unfolding prepare_each
prepare_each-is_fed exchanges outputs [] processed configs = refl
prepare_each-is_fed exchanges outputs ((name, q) ∷ queues) processed configs =
    >>=-is_fed (exchange_from exchanges q.from_task) _ (exchange_from-is_fed exchanges q.from_task)
      (λ source.
        >>=-is_fed (end_task exchanges outputs q processed) _
          (end_task-is_fed exchanges outputs q processed)
          (λ ended. prepare_each-is_fed exchanges outputs queues ended.1 _))

prepare_rabbitmq_configs-is_fed :
    (exchanges : Exchanges) (outputs : Outputs) (queues : Dict String Queue)
    → is_fed (prepare_rabbitmq_configs exchanges outputs queues) ≡ true
unfolding prepare_rabbitmq_configs
prepare_rabbitmq_configs-is_fed exchanges outputs queues =
    prepare_each-is_fed exchanges outputs queues [] []

parse_each-is_fed :
    (tasks : List Task) (pipeline_id : String) (timeout : ℕ) (steps : List String)
    (found : Dict String FanIn)
    → is_fed (parse_each tasks pipeline_id timeout steps found) ≡ true
unfolding parse_each
parse_each-is_fed tasks pipeline_id timeout [] found = refl
parse_each-is_fed tasks pipeline_id timeout (step ∷ steps) found =
    elim (Option-cases (find_task step tasks)) [
      | inl missing ↦ rw (missing, is_fed) refl
      | inr (task, e) ↦ rw (e, is_fed) (parse_each-is_fed tasks pipeline_id timeout steps _)
    ]

parse_fan_in_metadata-is_fed :
    (tasks : List Task) (pipeline_id : String) (timeout : ℕ) (steps : List String)
    → is_fed (parse_fan_in_metadata tasks pipeline_id timeout steps) ≡ true
unfolding parse_fan_in_metadata
parse_fan_in_metadata-is_fed tasks pipeline_id timeout steps =
    parse_each-is_fed tasks pipeline_id timeout steps []

wire_tasks-is_fed :
    (config : DagConfig) (pipeline_id : String) (tasks : List Task) (outputs : Outputs)
    (ordered : List String × Graph)
    → is_fed (wire_tasks config pipeline_id tasks outputs ordered) ≡ true
unfolding wire_tasks
wire_tasks-is_fed config pipeline_id tasks outputs (order, graph) =
    >>=-is_fed (find_parallel_tasks order graph) _ (find_parallel_tasks-is_fed order graph)
      (λ parallel.
        >>=-is_fed (suggest_exchange_types graph dict steps) _
          (suggest_exchange_types-is_fed graph dict steps)
          (λ exchanges.
            >>=-is_fed (prepare_rabbitmq_configs exchanges outputs queues) _
              (prepare_rabbitmq_configs-is_fed exchanges outputs queues)
              (λ configs.
                >>=-is_fed
                  (parse_fan_in_metadata tasks pipeline_id (timeout_of config.timeout) steps) _
                  (parse_fan_in_metadata-is_fed tasks pipeline_id (timeout_of config.timeout) steps)
                  (λ metadata. refl))))
  where
    dict : Dict String Task
    dict = task_dict tasks []

    steps : List String
    steps = identify_fan_in_steps dict

    queues : Dict String Queue
    queues = (identify_publishers_subscribers_queues graph dict).2

-- The parser never runs out of fuel: on any configuration, its loops over the tasks end.
pub parse_graph_total :
    (config : DagConfig) (pipeline_id : String) → parse_graph config pipeline_id ≢ error out_of_fuel
unfolding parse_graph
parse_graph_total config pipeline_id e = absurd (ground (arith, fed, ap is_fed e))
  where
    fed : is_fed (parse_graph config pipeline_id) ≡ true
    fed =
        >>=-is_fed (infer_dependencies_and_outputs config.tasks) _ (infer-is_fed config.tasks)
          (λ inferred.
            >>=-is_fed (order_tasks inferred.0) _ (order_tasks-is_fed inferred.0)
              (λ ordered. wire_tasks-is_fed config pipeline_id inferred.0 inferred.1 ordered))

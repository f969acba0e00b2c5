-- ===== src/Workflow/Parser/Checked.antt =====
-- What holds of a configuration that the parser accepts.
use agentcy.Prelude.{
  ◌≡◌, sym, ap, subst, ◌∙◌, String, true, List, [], ◌∷◌, ◌++◌, map, some, arith, ◌==◌, string_eq,
  length, length-map, contains, All, Option-cases, Bool-cases, inl, inr, if◌then◌else◌,
}
use agentcy.Workflow.Kahn.{Graph}
use agentcy.Workflow.Tasks.{
  TaskConfig, Task, Outputs, ok, >>=-eq-ok, set_add, to_set, ids, inferred, add_tasks,
  infer_dependencies_and_outputs,
}
use agentcy.Workflow.Order.{
  kahn, detect_cycles_kahn, parse_dag, validate_no_solo_nodes, validate_single_connected_dag,
  find_parallel_tasks, task_dict, identify_fan_in_steps,
}
use agentcy.Workflow.Wiring.{
  suggest_exchange_types, identify_publishers_subscribers_queues, prepare_rabbitmq_configs,
  parse_fan_in_metadata,
}
use agentcy.Workflow.Order.Follows.{RunsAfter, kahn-RunsAfter}
use agentcy.Workflow.Parser.{
  DagConfig, FinalConfig, timeout_of, order_tasks, wire_tasks, parse_graph,
}

detect_cycles_kahn-ok :
    (tasks : List Task) (order : List String)
    → detect_cycles_kahn tasks ≡ ok tt
    → kahn tasks ≡ some order
    → length order ≡ length tasks
unfolding detect_cycles_kahn
detect_cycles_kahn-ok tasks order h e = ground (arith, h, e)

parse_dag-ok :
    (tasks : List Task) (parsed : List String × Graph)
    → parse_dag tasks ≡ ok parsed
    → kahn tasks ≡ some parsed.0
unfolding parse_dag
parse_dag-ok tasks parsed h = ground (arith, h, Option-cases (kahn tasks))

-- The tasks that are put in order run after their dependencies, and as many are put in order as
-- there are.
order_tasks-RunsAfter :
    (tasks : List Task) (ordered : List String × Graph)
    → order_tasks tasks ≡ ok ordered
    → (length ordered.0 ≡ length tasks) × RunsAfter tasks [] ordered.0
unfolding order_tasks
order_tasks-RunsAfter tasks ordered h =
    let (u, acyclic, h₁) = >>=-eq-ok (detect_cycles_kahn tasks) _ ordered h in
    let (parsed, is, h₂) = >>=-eq-ok (parse_dag tasks) _ ordered h₁ in
    let (v, solo, h₃) = >>=-eq-ok (validate_no_solo_nodes tasks parsed.1) _ ordered h₂ in
    let (graph, connected, h₄) =
      >>=-eq-ok (validate_single_connected_dag tasks parsed.1) _ ordered h₃ in
    let same : parsed.0 ≡ ordered.0 = ground (arith, h₄) in
    let taken : kahn tasks ≡ some ordered.0 = parse_dag-ok tasks parsed is ∙ ap some same in
    (detect_cycles_kahn-ok tasks ordered.0 acyclic taken, kahn-RunsAfter tasks ordered.0 taken)

-- The order and the graph go into the result.
pub wire_tasks-order :
    (config : DagConfig) (pipeline_id : String) (tasks : List Task) (outputs : Outputs)
    (ordered : List String × Graph) (final : FinalConfig)
    → wire_tasks config pipeline_id tasks outputs ordered ≡ ok final
    → (final.execution_order ≡ ordered.0) × (final.task_graph ≡ ordered.1)
unfolding wire_tasks
wire_tasks-order config pipeline_id tasks outputs (order, graph) final h =
    let dict = task_dict tasks [] in
    let steps = identify_fan_in_steps dict in
    let (p, e₁, h₁) = >>=-eq-ok (find_parallel_tasks order graph) _ final h in
    let (x, e₂, h₂) = >>=-eq-ok (suggest_exchange_types graph dict steps) _ final h₁ in
    let queues = (identify_publishers_subscribers_queues graph dict).2 in
    let (c, e₃, h₃) = >>=-eq-ok (prepare_rabbitmq_configs x outputs queues) _ final h₂ in
    let (m, e₄, h₄) =
      >>=-eq-ok (parse_fan_in_metadata tasks pipeline_id (timeout_of config.timeout) steps) _ final
        h₃ in
    ground (arith, h₄)

contains-append :
    (a : String) (xs : List String) (y : String)
    → contains a (xs ++ (y ∷ [])) ≡ (if contains a xs then true else y == a)
unfolding contains
contains-append a [] y = ground arith
contains-append a (x ∷ xs) y = ground (arith, contains-append a xs y)

to_set-keeps :
    (a : String) (xs s : List String) → contains a s ≡ true → contains a (to_set xs s) ≡ true
unfolding to_set set_add
to_set-keeps a [] s h = h
to_set-keeps a (x ∷ xs) s h = to_set-keeps a xs _ (ground (arith, h, contains-append a s x))

contains-to_set :
    (a : String) (xs s : List String) → contains a xs ≡ true → contains a (to_set xs s) ≡ true
unfolding to_set set_add contains
contains-to_set a [] s h = absurd (ground (arith, h))
contains-to_set a (x ∷ xs) s h = elim (Bool-cases (x == a)) [
  | inl here ↦
      to_set-keeps a xs (set_add x s)
        (ground (arith, here, string_eq.beq_iff x a, string_eq.beq_iff a a, contains-append a s x))
  | inr other ↦ contains-to_set a xs (set_add x s) (ground (arith, h, other))
]

-- The configured tasks in an order, each after its configured dependencies.
unfoldable pub RunsInOrder : List TaskConfig → List String → List String → Type 0
RunsInOrder tasks done [] = Unit
RunsInOrder tasks done (x ∷ xs) =
    All
      (λ task.
        task.id ≡ x → (dep : String) → contains dep task.inputs ≡ true → contains dep done ≡ true)
      tasks
    × RunsInOrder tasks (done ++ (x ∷ [])) xs

configured :
    (outputs : Outputs) (x : String) (done : List String) (tasks : List TaskConfig)
    → All
        (λ task.
          task.id ≡ x
          → (dep : String) → contains dep task.dependencies ≡ true
          → contains dep done ≡ true)
        (map (inferred outputs) tasks)
    → All
        (λ task.
          task.id ≡ x → (dep : String) → contains dep task.inputs ≡ true → contains dep done ≡ true)
        tasks
configured outputs x done [] h = tt
configured outputs x done (task ∷ tasks) (h, hs) = (
  λ is dep needs. h is dep (contains-to_set dep task.inputs [] needs),
  configured outputs x done tasks hs,
)

RunsAfter-RunsInOrder :
    (outputs : Outputs) (tasks : List TaskConfig) (done order : List String)
    → RunsAfter (map (inferred outputs) tasks) done order
    → RunsInOrder tasks done order
unfolding RunsAfter RunsInOrder
RunsAfter-RunsInOrder outputs tasks done [] h = tt
RunsAfter-RunsInOrder outputs tasks done (x ∷ order) (h, hs) = (
  configured outputs x done tasks h,
  RunsAfter-RunsInOrder outputs tasks (done ++ (x ∷ [])) order hs,
)

pub infer-ok :
    (tasks : List TaskConfig) (result : List Task × Outputs)
    → infer_dependencies_and_outputs tasks ≡ ok result
    → (outputs : Outputs) × (result.0 ≡ map (inferred outputs) tasks)
unfolding infer_dependencies_and_outputs
infer-ok tasks result h =
    let (outputs, e, h₁) = >>=-eq-ok (add_tasks (ids tasks) tasks []) _ result h in
    (outputs, ground (arith, h₁))

-- A configuration that the parser accepts: its execution order has as many entries as there are
-- tasks, and each entry comes after all configured dependencies of the task.
pub parse_graph-RunsInOrder :
    (config : DagConfig) (pipeline_id : String) (final : FinalConfig)
    → parse_graph config pipeline_id ≡ ok final
    → (length final.execution_order ≡ length config.tasks)
      × RunsInOrder config.tasks [] final.execution_order
unfolding parse_graph
parse_graph-RunsInOrder config pipeline_id final h =
    let (result, e₁, h₁) = >>=-eq-ok (infer_dependencies_and_outputs config.tasks) _ final h in
    let (ordered, e₂, h₂) = >>=-eq-ok (order_tasks result.0) _ final h₁ in
    let same = (wire_tasks-order config pipeline_id result.0 result.1 ordered final h₂).0 in
    let (outputs, is) = infer-ok config.tasks result e₁ in
    let (len, after) = order_tasks-RunsAfter result.0 ordered e₂ in
    (
      ap length same ∙ len ∙ ap length is ∙ length-map (inferred outputs) config.tasks,
      RunsAfter-RunsInOrder outputs config.tasks [] final.execution_order (
          subst (λ o. RunsAfter (map (inferred outputs) config.tasks) [] o) (sym same)
            (subst (λ t. RunsAfter t [] ordered.0) is after)),
    )

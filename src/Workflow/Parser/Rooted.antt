-- ===== src/Workflow/Parser/Rooted.antt =====
-- The tasks of an accepted configuration hang together.
use agentcy.Prelude.{arith, ◌≡◌, refl, sym, ap, subst, ◌∙◌, String, List, [], ◌∷◌, map, All}
use agentcy.Workflow.Kahn.{Graph}
use agentcy.Workflow.Tasks.{
  TaskConfig, Task, Outputs, ok, >>=-eq-ok, ids, inferred, infer_dependencies_and_outputs,
}
use agentcy.Workflow.Order.{
  detect_cycles_kahn, parse_dag, validate_no_solo_nodes, validate_single_connected_dag,
}
use agentcy.Workflow.Order.Reaches.{Reaches, validate_single_connected_dag-Reaches}
use agentcy.Workflow.Parser.{DagConfig, FinalConfig, order_tasks, parse_graph}
use agentcy.Workflow.Parser.Checked.{wire_tasks-order, infer-ok}

order_tasks-Reaches :
    (task : Task) (tasks : List Task) (ordered : List String × Graph)
    → order_tasks (task ∷ tasks) ≡ ok ordered
    → All (Reaches ordered.1 task.id) (map (λ t. t.id) (task ∷ tasks))
unfolding order_tasks
order_tasks-Reaches task tasks ordered h =
    let all = task ∷ tasks in
    let (u, acyclic, h₁) = >>=-eq-ok (detect_cycles_kahn all) _ ordered h in
    let (parsed, is, h₂) = >>=-eq-ok (parse_dag all) _ ordered h₁ in
    let (v, solo, h₃) = >>=-eq-ok (validate_no_solo_nodes all parsed.1) _ ordered h₂ in
    let (graph, connected, h₄) =
      >>=-eq-ok (validate_single_connected_dag all parsed.1) _ ordered h₃ in
    subst (λ g. All (Reaches g task.id) (map (λ t. t.id) all)) (ground (arith, h₄))
      (validate_single_connected_dag-Reaches task tasks parsed.1 graph connected)

map-inferred :
    (outputs : Outputs) (tasks : List TaskConfig)
    → map (λ t. t.id) (map (inferred outputs) tasks) ≡ ids tasks
map-inferred outputs [] = refl
map-inferred outputs (task ∷ tasks) = ap (λ l. task.id ∷ l) (map-inferred outputs tasks)

-- In the graph of a configuration that the parser accepts, a path leads from the task that is
-- listed first to every task.
pub parse_graph-Reaches :
    (config : DagConfig) (pipeline_id : String) (final : FinalConfig) (first : TaskConfig)
    (others : List TaskConfig)
    → config.tasks ≡ first ∷ others
    → parse_graph config pipeline_id ≡ ok final
    → All (Reaches final.task_graph first.id) (ids (first ∷ others))
unfolding parse_graph
parse_graph-Reaches config pipeline_id final first others listed h =
    let (result, e₁, h₁) = >>=-eq-ok (infer_dependencies_and_outputs config.tasks) _ final h in
    let (ordered, e₂, h₂) = >>=-eq-ok (order_tasks result.0) _ final h₁ in
    let graph = (wire_tasks-order config pipeline_id result.0 result.1 ordered final h₂).1 in
    let (outputs, is) = infer-ok config.tasks result e₁ in
    let all = is ∙ ap (map (inferred outputs)) listed in
    subst (λ l. All (Reaches final.task_graph first.id) l) (map-inferred outputs (first ∷ others))
      (subst
        (λ g. All (Reaches g first.id) (map (λ t. t.id) (map (inferred outputs) (first ∷ others))))
        (sym graph)
        (order_tasks-Reaches (inferred outputs first) (map (inferred outputs) others) ordered
          (subst (λ l. order_tasks l ≡ ok ordered) all e₂)))

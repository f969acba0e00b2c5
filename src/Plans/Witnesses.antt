-- ===== src/Plans/Witnesses.antt =====
-- The theorems on plans and revisions at plans of two tasks.
use agentcy.Prelude.{
  ℕ, Bool, ◌≡◌, ◌≤◌, count, refl, String, true, false, [], ◌∷◌, Option, none, some, All, Dict,
  string_eq, get, put, keep, contains,
}
use agentcy.Workflow.Kahn.{neighbors, degree, add_edge, bump, relax, pop_right, drain, topological}
use agentcy.Plans.Validator.{
  PlanSpec, RawOntology, extract_task_ids, places, add_edges, graph_of, detect_cycle, stripped,
  parse_ontology, outside, check_capabilities, check_tags, check_task_type, check_tasks,
  check_edges, check_cycle, validate_graph_spec,
}
use agentcy.Plans.Gate.{Draft, Reviewers, judged, shacl_conforms, llm_gate, validate_plan_draft}
use agentcy.Plans.Gate.Valid.{IsApproved, validate_plan_draft-valid}
use agentcy.Plans.Validator.Acyclic.{Known, Climbs}
use agentcy.Plans.Validator.Conforms.{ids_of, HasId, validate_graph_spec-conforms}
use agentcy.Plans.Graph.{
  items, str, Doc, text, field, is_true, to_str, Edge, edge_eq, GraphSpec, present, end_in,
}
use agentcy.Plans.Delta.{
  Delta, distinct_ids, removed_ids, added_tasks, added_edges, tasks_to_add, edges_to_add,
  apply_delta,
}
use agentcy.Plans.Delta.Removed.{IsOtherTask, IsApart, apply_delta-removed}
use agentcy.Plans.Runtime.{
  task_map, task_status, with_status, has, removals, agent_of, reassignments, predecessors,
  dependencies, validate_runtime_constraints,
}
use agentcy.Plans.Runtime.Sound.{IsKept, IsReady, validate_runtime_constraints_sound}

abbrev task : String → String → Doc
task id agent = ("task_id", text id) ∷ ("assigned_agent", text agent) ∷ []

abbrev edge : String → String → Edge
edge a b = record { source = some a; target = some b }

abbrev plan : GraphSpec
plan = record { tasks = task "a" "x" ∷ task "b" "y" ∷ []; edges = edge "a" "b" ∷ [] }

-- Removes `b` and adds `c` in its place.
abbrev revision : Delta
revision = record {
  task_overrides = none;
  remove_tasks = some (text "b" ∷ []);
  add_tasks = some (some (task "c" "y") ∷ []);
  add_edges = some (some (edge "a" "c") ∷ []);
  remove_edges = none;
}

apply_delta-removed_example :
    All (IsOtherTask "b") (apply_delta plan revision).0.tasks
    × All (IsApart "b") (apply_delta plan revision).0.edges
unfolding removed_ids distinct_ids contains added_tasks added_edges tasks_to_add edges_to_add field
    get is_true to_str present end_in
apply_delta-removed_example =
    apply_delta-removed plan revision "b" refl (refl, tt) ((refl, refl), tt)

abbrev run : Dict String (Option String)
run = ("a", some "COMPLETED") ∷ ("b", some "RUNNING") ∷ []

validate_runtime_constraints_sound_example :
    All (λ id. has id (task_map plan.tasks []) ≡ true) ("a" ∷ "b" ∷ [])
    × All (IsKept (task_map plan.tasks []) (task_map plan.tasks [])) ("b" ∷ [])
    × All (IsReady plan.edges ("a" ∷ [])) ("a" ∷ "b" ∷ [])
unfolding task_map with_status task_status has removals agent_of reassignments predecessors
    dependencies validate_runtime_constraints field get put is_true to_str present contains keep
validate_runtime_constraints_sound_example =
    validate_runtime_constraints_sound (λ s. s) plan plan run refl

abbrev capable : String → Doc
capable id =
    ("task_id", text id)
    ∷ ("assigned_agent", text "x")
    ∷ ("required_capabilities", items "[c]" (str "c" ∷ []))
    ∷ []

abbrev spec : PlanSpec
spec = record {
  graph = record { tasks = capable "a" ∷ capable "b" ∷ []; edges = edge "a" "b" ∷ [] };
  ontology = RawOntology.absent;
}

validate_graph_spec-conforms_example :
    (1 ≤ 2)
    × All HasId (capable "a" ∷ capable "b" ∷ [])
    × ((x : String) → count x (ids_of (capable "a" ∷ capable "b" ∷ [])) ≤ 1)
    × All (Known (ids_of (capable "a" ∷ capable "b" ∷ []))) (edge "a" "b" ∷ [])
    × (rank : String → ℕ) × All (λ e. Climbs rank e.source e.target) (edge "a" "b" ∷ [])
unfolding extract_task_ids places add_edges graph_of detect_cycle stripped parse_ontology outside
    check_capabilities check_tags check_task_type check_tasks check_edges check_cycle
    validate_graph_spec field get put is_true to_str end_in contains keep neighbors degree add_edge
    bump relax pop_right drain topological
validate_graph_spec-conforms_example = validate_graph_spec-conforms (λ s. s) spec refl

abbrev reviewers : Reviewers
reviewers = record {
  shacl_enabled = true;
  shacl = λ s. none;
  llm_required = true;
  review = λ s f. some true;
  strip = λ s. s;
}

abbrev draft : Bool → Draft
draft valid = record { plan_id = "p"; spec = spec; is_valid = valid; violations = [] }

validate_plan_draft-valid_example : IsApproved reviewers (("p", draft true) ∷ []) (draft true)
unfolding extract_task_ids places add_edges graph_of detect_cycle stripped parse_ontology outside
    check_capabilities check_tags check_task_type check_tasks check_edges check_cycle
    validate_graph_spec field get put is_true to_str end_in contains keep neighbors degree add_edge
    bump relax pop_right drain topological judged shacl_conforms llm_gate validate_plan_draft
validate_plan_draft-valid_example =
    validate_plan_draft-valid reviewers (("p", draft false) ∷ []) (("p", draft true) ∷ []) "p"
      (draft true) refl refl

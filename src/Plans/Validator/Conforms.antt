-- ===== src/Plans/Validator/Conforms.antt =====
-- What a plan that conforms has.
use agentcy.Prelude.{
  ℕ, suc, ◌≡◌, ◌≤◌, refl, ap, subst, String, Bool, true, false, not, ◌&&◌, List, [], ◌∷◌, some,
  string_eq, arith, length, nat_beq, count, contains, All, Bool-cases, inl, inr,
}
use agentcy.Workflow.Kahn.{pop_right, sources}
use agentcy.Workflow.Kahn.Fuel.{pop_right-Takes, topological_total}
use agentcy.Plans.Graph.{Doc, field, is_true, to_str, Edge, end_in}
use agentcy.Plans.Runtime.Sound.{append-eq-nil}
use agentcy.Plans.Validator.Acyclic.{Known, Climbs, detect_cycle-Climbs}
use agentcy.Plans.Validator.{
  PlanSpec, extract_task_ids, graph_of, detect_cycle, parse_ontology, check_edges, check_cycle,
  no_task, validate_graph_spec,
}

-- The ids of the tasks, in their order.
abbrev pub ids_of : List Doc → List String
ids_of [] = []
ids_of (task ∷ tasks) = to_str (field "task_id" task) ∷ ids_of tasks

detect_cycle_total :
    (ids : List String) (edges : List Edge) → (b : Bool) × (detect_cycle ids edges ≡ some b)
unfolding detect_cycle
detect_cycle_total ids edges =
    let (order, e) =
      topological_total pop_right pop_right-Takes (graph_of ids edges).0 (graph_of ids edges).1
        (sources (graph_of ids edges).1) in
    (not (nat_beq (length order) (length ids)), rw (e, detect_cycle) refl)

new_id :
    (id : String) (seen later ids : List String)
    → contains id seen ≡ false
    → (ids ≡ later)
      × ((x : String) → contains x (id ∷ seen) ≡ true → count x later ≡ 0)
      × ((x : String) → count x later ≤ 1)
    → (id ∷ ids ≡ id ∷ later)
      × ((x : String) → contains x seen ≡ true → count x (id ∷ later) ≡ 0)
      × ((x : String) → count x (id ∷ later) ≤ 1)
unfolding contains count
new_id id seen later ids new (same, fresh, once) = (
  ap (λ t. id ∷ t) same,
  (λ x s. ground (arith, s, new, fresh x, string_eq.beq_iff id x)),
  (λ x. ground (arith, fresh id, once x, string_eq.beq_iff id x, string_eq.beq_iff id id)),
)

extract_task_ids-nil :
    (index : ℕ) (seen : List String) (tasks : List Doc)
    → (extract_task_ids index seen tasks).1 ≡ []
    → ((extract_task_ids index seen tasks).0 ≡ ids_of tasks)
      × ((x : String) → contains x seen ≡ true → count x (ids_of tasks) ≡ 0)
      × ((x : String) → count x (ids_of tasks) ≤ 1)
unfolding extract_task_ids count
extract_task_ids-nil index seen [] = λ h. (refl, (λ x s. refl), (λ x. omega arith))
extract_task_ids-nil index seen (task ∷ tasks) =
    elim (Bool-cases (is_true (field "task_id" task))) [
      | inr missing ↦ rw (missing, extract_task_ids) (λ h. absurd (ground (arith, h)))
      | inl there ↦
          rw (there, extract_task_ids)
            (elim (Bool-cases (contains (to_str (field "task_id" task)) seen)) [
              | inl again ↦ rw (again, extract_task_ids) (λ h. absurd (ground (arith, h)))
              | inr new ↦
                  rw (new, extract_task_ids)
                    (λ h. new_id (to_str (field "task_id" task)) seen (ids_of tasks) _ new (
                      extract_task_ids-nil (suc index) (to_str (field "task_id" task) ∷ seen) tasks
                        (append-eq-nil _ _ h).1))
            ])
    ]

-- The task has an id.
abbrev pub HasId : Doc → Type 0
HasId task = is_true (field "task_id" task) ≡ true

extract_task_ids-HasId :
    (index : ℕ) (seen : List String) (tasks : List Doc)
    → (extract_task_ids index seen tasks).1 ≡ []
    → All HasId tasks
unfolding extract_task_ids
extract_task_ids-HasId index seen [] = λ h. tt
extract_task_ids-HasId index seen (task ∷ tasks) =
    elim (Bool-cases (is_true (field "task_id" task))) [
      | inr missing ↦ rw (missing, extract_task_ids) (λ h. absurd (ground (arith, h)))
      | inl there ↦
          rw (there, extract_task_ids)
            (elim (Bool-cases (contains (to_str (field "task_id" task)) seen)) [
              | inl again ↦ rw (again, extract_task_ids) (λ h. absurd (ground (arith, h)))
              | inr new ↦
                  rw (new, extract_task_ids)
                    (λ h. (
                      refl,
                      extract_task_ids-HasId (suc index) (to_str (field "task_id" task) ∷ seen)
                          tasks (append-eq-nil _ _ h).1,
                    ))
            ])
    ]

check_edges-nil :
    (ids : List String) (edges : List Edge) → check_edges ids edges ≡ [] → All (Known ids) edges
unfolding check_edges
check_edges-nil ids [] h = tt
check_edges-nil ids (e ∷ es) h = elim (Bool-cases (end_in e.source ids && end_in e.target ids)) [
  | inl known ↦ (ground (arith, known), check_edges-nil ids es (ground (arith, h, known)))
  | inr unknown ↦ absurd (ground (arith, h, unknown))
]

no_task-nil : (tasks : List Doc) → no_task tasks ≡ [] → 1 ≤ length tasks
no_task-nil [] h = absurd (ground (arith, h))
no_task-nil (t ∷ ts) h = omega arith

check_cycle-nil :
    (tasks : List Doc) (edges : List Edge)
    → 1 ≤ length tasks
    → check_cycle (ids_of tasks) edges ≡ []
    → 1 ≤ length edges
    → detect_cycle (ids_of tasks) edges ≡ some false
unfolding check_cycle
check_cycle-nil [] edges l h m = absurd (omega (arith, l))
check_cycle-nil (t ∷ ts) [] l h m = absurd (omega (arith, m))
check_cycle-nil (t ∷ ts) (e ∷ es) l h m =
    ground (arith, h, detect_cycle_total (ids_of (t ∷ ts)) (e ∷ es))

ranks :
    (ids : List String) (edges : List Edge)
    → All (Known ids) edges
    → (1 ≤ length edges → detect_cycle ids edges ≡ some false)
    → (rank : String → ℕ) × All (λ e. Climbs rank e.source e.target) edges
ranks ids [] known none_found = ((λ x. 0), tt)
ranks ids (e ∷ es) known none_found =
    detect_cycle-Climbs ids (e ∷ es) known (none_found (omega arith))

-- A plan without violations has tasks, each with an id, and no two with the same; its edges run
-- between tasks; and it has no cycle: there are ranks of the ids such that the target of each edge
-- has a greater rank than its source.
pub validate_graph_spec-conforms :
    (strip : String → String) (spec : PlanSpec)
    → validate_graph_spec strip spec ≡ []
    → (1 ≤ length spec.graph.tasks)
      × All HasId spec.graph.tasks
      × ((x : String) → count x (ids_of spec.graph.tasks) ≤ 1)
      × All (Known (ids_of spec.graph.tasks)) spec.graph.edges
      × (rank : String → ℕ) × All (λ e. Climbs rank e.source e.target) spec.graph.edges
unfolding validate_graph_spec
validate_graph_spec-conforms strip spec h =
    let tasks = spec.graph.tasks in
    let edges = spec.graph.edges in
    let found = extract_task_ids 0 [] tasks in
    let o = parse_ontology strip spec.ontology in
    let (a, h₁) = append-eq-nil o.1 _ h in
    let (some_task, h₂) = append-eq-nil (no_task tasks) _ h₁ in
    let (ids, h₃) = append-eq-nil found.1 _ h₂ in
    let (known, h₄) = append-eq-nil (check_edges found.0 edges) _ h₃ in
    let (acyclic, h₅) = append-eq-nil (check_cycle found.0 edges) _ h₄ in
    let (same, fresh, once) = extract_task_ids-nil 0 [] tasks ids in
    let has_task = no_task-nil tasks some_task in
    let between =
      check_edges-nil (ids_of tasks) edges (subst (λ i. check_edges i edges ≡ []) same known) in
    let (rank, climbs) =
      ranks (ids_of tasks) edges between (
        check_cycle-nil tasks edges has_task
          (subst (λ i. check_cycle i edges ≡ []) same acyclic)) in
    (has_task, extract_task_ids-HasId 0 [] tasks ids, once, between, rank, climbs)

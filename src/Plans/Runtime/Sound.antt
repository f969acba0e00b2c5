-- ===== src/Plans/Runtime/Sound.antt =====
-- What a revision without runtime violations leaves alone.
use agentcy.Prelude.{
  ◌≡◌, refl, String, true, not, List, [], ◌∷◌, ◌++◌, Option, some, string_eq, arith, Dict, keep,
  contains, All, Bool-cases, inl, inr,
}
use agentcy.Plans.Graph.{Doc, Edge, GraphSpec}
use agentcy.Plans.Runtime.{
  task_map, with_status, has, removals, agent_of, reassignments, predecessors, dependencies,
  validate_runtime_constraints,
}

pub append-eq-nil : {A : Type 0} (xs ys : List A) → xs ++ ys ≡ [] → (xs ≡ []) × (ys ≡ [])
append-eq-nil [] ys h = (refl, h)
append-eq-nil (x ∷ xs) ys h = absurd (ground (arith, h))

removals-nil :
    (candidate : Dict String Doc) (started : List String)
    → removals candidate started ≡ []
    → All (λ id. has id candidate ≡ true) started
unfolding removals
removals-nil candidate [] h = tt
removals-nil candidate (id ∷ started) h = elim (Bool-cases (has id candidate)) [
  | inl there ↦ (there, removals-nil candidate started (ground (arith, h, there)))
  | inr missing ↦ absurd (ground (arith, h, missing))
]

-- A task whose agent is named in both graphs has one agent.
abbrev pub IsKept : Dict String Doc → Dict String Doc → String → Type 0
IsKept base candidate id =
    (before now : String)
    → agent_of id base ≡ some before
    → agent_of id candidate ≡ some now
    → before ≡ now

reassignments-nil :
    (base candidate : Dict String Doc) (running : List String)
    → reassignments base candidate running ≡ []
    → All (IsKept base candidate) running
unfolding reassignments
reassignments-nil base candidate [] h = tt
reassignments-nil base candidate (id ∷ running) h =
    let (here, rest) = append-eq-nil _ (reassignments base candidate running) h in
    (
      λ before now b c. ground (arith, here, b, c, string_eq.beq_iff before now),
      reassignments-nil base candidate running rest,
    )

-- All predecessors of a task have been completed.
abbrev pub IsReady : List Edge → List String → String → Type 0
IsReady edges completed id = All (λ p. contains p completed ≡ true) (predecessors id edges)

keep-not-nil :
    (completed preds : List String)
    → keep (λ p. not (contains p completed)) preds ≡ []
    → All (λ p. contains p completed ≡ true) preds
unfolding keep
keep-not-nil completed [] h = tt
keep-not-nil completed (p ∷ preds) h = elim (Bool-cases (contains p completed)) [
  | inl there ↦ (there, keep-not-nil completed preds (ground (arith, h, there)))
  | inr missing ↦ absurd (ground (arith, h, missing))
]

dependencies-nil :
    (edges : List Edge) (completed ids : List String)
    → dependencies edges completed ids ≡ []
    → All (IsReady edges completed) ids
unfolding dependencies
dependencies-nil edges completed [] h = tt
dependencies-nil edges completed (id ∷ ids) h =
    let (here, rest) = append-eq-nil _ (dependencies edges completed ids) h in
    (
      keep-not-nil completed (predecessors id edges) (ground (arith, here)),
      dependencies-nil edges completed ids rest,
    )

-- A revision without runtime violations keeps every task of the run that has completed, runs or has
-- failed, changes no agent of a running task that both graphs assign, and gives the tasks that have
-- completed or run only predecessors that have completed.
pub validate_runtime_constraints_sound :
    (upper : String → String) (base_graph candidate_graph : GraphSpec)
    (run : Dict String (Option String))
    → validate_runtime_constraints upper base_graph candidate_graph (some run) ≡ []
    → All
        (λ id. has id (task_map candidate_graph.tasks []) ≡ true)
        (with_status upper "COMPLETED" run
          ++ (with_status upper "RUNNING" run ++ with_status upper "FAILED" run))
      × All
          (IsKept (task_map base_graph.tasks []) (task_map candidate_graph.tasks []))
          (with_status upper "RUNNING" run)
      × All
          (IsReady candidate_graph.edges (with_status upper "COMPLETED" run))
          (with_status upper "COMPLETED" run ++ with_status upper "RUNNING" run)
unfolding validate_runtime_constraints
validate_runtime_constraints_sound upper base_graph candidate_graph run h =
    let completed = with_status upper "COMPLETED" run in
    let running = with_status upper "RUNNING" run in
    let failed = with_status upper "FAILED" run in
    let base = task_map base_graph.tasks [] in
    let candidate = task_map candidate_graph.tasks [] in
    let (first, later) =
      append-eq-nil (removals candidate (completed ++ (running ++ failed))) _ h in
    let (second, third) =
      append-eq-nil (reassignments base candidate running)
        (dependencies candidate_graph.edges completed (completed ++ running)) later in
    (
      removals-nil candidate (completed ++ (running ++ failed)) first,
      reassignments-nil base candidate running second,
      dependencies-nil candidate_graph.edges completed (completed ++ running) third,
    )

-- ===== src/Workflow/Order/Fuel.antt =====
-- The loops over the tasks end within their fuel.
use agentcy.Prelude.{
  ℕ, zero, suc, ◌+◌, ◌≤◌, ◌<◌, ◌≡◌, ◌≢◌, String, true, false, List, [], ◌∷◌, ◌++◌, none, some,
  arith, ◌==◌, string_eq, Dict, get, put, length, length-append, contains, Bool-cases, inl, inr,
  if◌then◌else◌,
}
use agentcy.Workflow.Kahn.{Graph, Degrees, neighbors, relax, pop_left, sources}
use agentcy.Workflow.Kahn.Fuel.{positives, relax-le, pop_left-Takes, topological_total}
use agentcy.Workflow.Tasks.{Task}
use agentcy.Workflow.Order.{kahn, build_graph, search_from, edges, assign_levels}

pub kahn_total : (tasks : List Task) → (order : List String) × (kahn tasks ≡ some order)
unfolding kahn
kahn_total tasks =
    topological_total pop_left pop_left-Takes (build_graph tasks [] []).0
      (build_graph tasks [] []).1 (sources (build_graph tasks [] []).1)

-- The edges of the tasks that have not been visited.
unvisited : List String → Graph → ℕ
unvisited visited [] = 0
unvisited visited ((s, targets) ∷ graph) =
    (if contains s visited then 0 else length targets) + unvisited visited graph

unvisited-le : (graph : Graph) → unvisited [] graph ≤ edges graph
unfolding unvisited edges contains
unvisited-le [] = omega arith
unvisited-le ((s, targets) ∷ graph) = omega (arith, unvisited-le graph)

-- What is put for a visited task changes no count.
unvisited-put :
    (visited : List String) (s : String) (v : List String) (graph : Graph)
    → contains s visited ≡ true
    → unvisited visited (put s v graph) ≡ unvisited visited graph
unfolding unvisited put
unvisited-put visited s v [] old = ground (arith, old)
unvisited-put visited s v ((n, targets) ∷ graph) old = elim (Bool-cases (n == s)) [
  | inl here ↦ ground (arith, here, old, string_eq.beq_iff n s)
  | inr other ↦ ground (arith, other, unvisited-put visited s v graph old)
]

contains-head : (s : String) (visited : List String) → contains s (s ∷ visited) ≡ true
unfolding contains
contains-head s visited = ground (arith, string_eq.beq_iff s s)

unvisited_mono :
    (visited : List String) (s : String) (graph : Graph)
    → unvisited (s ∷ visited) graph ≤ unvisited visited graph
unfolding unvisited contains
unvisited_mono visited s [] = omega arith
unvisited_mono visited s ((n, targets) ∷ graph) = ground (arith, unvisited_mono visited s graph)

unvisited-visit :
    (visited : List String) (s : String) (graph : Graph)
    → contains s visited ≡ false
    → unvisited (s ∷ visited) graph + length (neighbors s graph) ≤ unvisited visited graph
unfolding unvisited neighbors get contains
unvisited-visit visited s [] new = omega arith
unvisited-visit visited s ((n, targets) ∷ graph) new = elim (Bool-cases (n == s)) [
  | inl here ↦ ground (
    arith,
    here,
    new,
    string_eq.beq_iff n s,
    string_eq.beq_iff s n,
    unvisited_mono visited s graph,
  )
  | inr other ↦ ground (
    arith,
    other,
    string_eq.beq_iff n s,
    string_eq.beq_iff s n,
    unvisited-visit visited s graph new,
  )
]

search_from_total :
    (fuel : ℕ) (graph : Graph) (visited queue : List String)
    → length queue + unvisited visited graph < fuel
    → search_from fuel graph visited queue ≢ none
unfolding search_from
search_from_total zero graph visited queue h = absurd (omega arith)
search_from_total (suc fuel) graph visited [] h = ground arith
search_from_total (suc fuel) graph visited (current ∷ queue) h =
    elim (Bool-cases (contains current visited)) [
      | inl old ↦ rw old (search_from_total fuel graph visited queue (omega arith))
      | inr new ↦ rw new (
          search_from_total fuel (put current (neighbors current graph) graph) (current ∷ visited)
            (queue ++ neighbors current graph)
            (omega (
              arith,
              length-append queue (neighbors current graph),
              unvisited-put (current ∷ visited) current (neighbors current graph) graph
                  (contains-head current visited),
              unvisited-visit visited current graph new,
            )))
    ]

pub search_total :
    (graph : Graph) (id : String) → search_from (2 + edges graph) graph [] (id ∷ []) ≢ none
search_total graph id =
    search_from_total (2 + edges graph) graph [] (id ∷ []) (omega (arith, unvisited-le graph))

pub assign_levels_total :
    (fuel : ℕ) (graph : Graph) (degrees : Degrees) (queue : List String) (levels : Dict String ℕ)
    → length queue + positives degrees < fuel
    → assign_levels fuel graph degrees queue levels ≢ none
unfolding assign_levels
assign_levels_total zero graph degrees queue levels h = absurd (omega arith)
assign_levels_total (suc fuel) graph degrees [] levels h = ground arith
assign_levels_total (suc fuel) graph degrees (current ∷ queue) levels h =
    assign_levels_total fuel graph (relax (neighbors current graph) degrees queue).0
      (relax (neighbors current graph) degrees queue).1 _
      (omega (arith, relax-le (neighbors current graph) degrees queue))

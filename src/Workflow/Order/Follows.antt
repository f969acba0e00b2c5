-- ===== src/Workflow/Order/Follows.antt =====
-- The execution order puts each task after its dependencies.
use agentcy.Prelude.{
  ℕ, ◌+◌, ◌≤◌, ◌<◌, ◌≡◌, ◌⊎◌, subst, String, true, List, [], ◌∷◌, ◌++◌, some, arith, ◌==◌,
  string_eq, put, get-put, keys, count, count-append, contains, contains→count, count→contains, All,
  Bool-cases, inl, inr, if◌then◌else◌,
}
use agentcy.Workflow.Kahn.{Graph, Degrees, neighbors, degree, add_edge, bump}
use agentcy.Workflow.Kahn.Follows.{
  Follows, outstanding, topological-Follows, outstanding-settled, outstanding-put, degree-put,
}
use agentcy.Workflow.Tasks.{Task}
use agentcy.Workflow.Order.{add_task_edges, build_graph, kahn}

-- The tasks in an order, each after its dependencies.
unfoldable pub RunsAfter : List Task → List String → List String → Type 0
RunsAfter tasks done [] = Unit
RunsAfter tasks done (x ∷ xs) =
    All
      (λ task.
        task.id ≡ x
        → (dep : String) → contains dep task.dependencies ≡ true
        → contains dep done ≡ true)
      tasks
    × RunsAfter tasks (done ++ (x ∷ [])) xs

pub neighbors-add_edge :
    (x s source target : String) (graph : Graph)
    → count x (neighbors s (add_edge source target graph))
      ≡ count x (neighbors s graph) + (if source == s then (if target == x then 1 else 0) else 0)
unfolding neighbors add_edge count
neighbors-add_edge x s source target graph = ground (
  arith,
  get-put source s (neighbors source graph ++ (target ∷ [])) graph,
  count-append x (neighbors source graph) (target ∷ []),
  string_eq.beq_iff source s,
)

pub outstanding-add_edge :
    (x source target : String) (graph : Graph)
    → outstanding x [] (add_edge source target graph)
      ≡ outstanding x [] graph + (if target == x then 1 else 0)
unfolding add_edge count
outstanding-add_edge x source target graph = omega (
  arith,
  outstanding-put x source (neighbors source graph ++ (target ∷ [])) graph,
  count-append x (neighbors source graph) (target ∷ []),
)

pub keys-put :
    (x n : String) (d : ℕ) (degrees : Degrees)
    → count x (keys degrees) ≤ 1
    → (count x (keys (put n d degrees)) ≤ 1)
      × (((n == x) ≡ true) ⊎ (count x (keys (put n d degrees)) ≡ count x (keys degrees)))
unfolding count put
keys-put x n d [] h = ground arith
keys-put x n d ((m, c) ∷ degrees) h = elim (Bool-cases (m == n)) [
  | inl here ↦ ground (arith, here, h, string_eq.beq_iff m n)
  | inr other ↦ ground (
    arith,
    other,
    h,
    string_eq.beq_iff m n,
    string_eq.beq_iff n x,
    string_eq.beq_iff m x,
    keys-put x n d degrees,
  )
]

-- The degrees count the edges, and each node has one degree.
abbrev Counts : Graph → Degrees → Type 0
Counts graph degrees =
    (x : String) → (outstanding x [] graph ≤ degree x degrees) × (count x (keys degrees) ≤ 1)

add_task_edges-Counts :
    (id : String) (deps : List String) (graph : Graph) (degrees : Degrees)
    → Counts graph degrees
    → Counts (add_task_edges id deps graph degrees).0 (add_task_edges id deps graph degrees).1
unfolding add_task_edges bump
add_task_edges-Counts id [] graph degrees h x = ground (
  arith,
  h x,
  degree-put x id (degree id degrees) degrees,
  string_eq.beq_iff id x,
  keys-put x id (degree id degrees) degrees,
)
add_task_edges-Counts id (dep ∷ deps) graph degrees h x =
    add_task_edges-Counts id deps (add_edge dep id graph) (bump id degrees)
      (λ y. ground (
        arith,
        h y,
        outstanding-add_edge y dep id graph,
        degree-put y id (degree id degrees + 1) degrees,
        string_eq.beq_iff id y,
        keys-put y id (degree id degrees + 1) degrees,
      ))
      x

build_graph-Counts :
    (tasks : List Task) (graph : Graph) (degrees : Degrees)
    → Counts graph degrees
    → Counts (build_graph tasks graph degrees).0 (build_graph tasks graph degrees).1
unfolding build_graph
build_graph-Counts [] graph degrees h x = h x
build_graph-Counts (task ∷ tasks) graph degrees h x =
    build_graph-Counts tasks (add_task_edges task.id task.dependencies graph degrees).0
      (add_task_edges task.id task.dependencies graph degrees).1
      (add_task_edges-Counts task.id task.dependencies graph degrees h) x

-- A graph has the edge from each dependency of a task to the task.
abbrev Edge : String → String → Graph → Type 0
Edge dep id graph = 0 < count id (neighbors dep graph)

add_task_edges-keeps :
    (dep x id : String) (deps : List String) (graph : Graph) (degrees : Degrees)
    → Edge dep x graph
    → Edge dep x (add_task_edges id deps graph degrees).0
unfolding add_task_edges
add_task_edges-keeps dep x id [] graph degrees h = h
add_task_edges-keeps dep x id (d ∷ deps) graph degrees h =
    add_task_edges-keeps dep x id deps (add_edge d id graph) (bump id degrees)
      (ground (arith, h, neighbors-add_edge x dep d id graph))

add_task_edges-Edge :
    (dep id : String) (deps : List String) (graph : Graph) (degrees : Degrees)
    → 0 < count dep deps
    → Edge dep id (add_task_edges id deps graph degrees).0
unfolding add_task_edges count
add_task_edges-Edge dep id [] graph degrees h = absurd (omega arith)
add_task_edges-Edge dep id (d ∷ deps) graph degrees h = elim (Bool-cases (d == dep)) [
  | inl here ↦
      add_task_edges-keeps dep id id deps (add_edge d id graph) (bump id degrees)
        (ground (arith, here, neighbors-add_edge id dep d id graph, string_eq.beq_iff id id))
  | inr other ↦
      add_task_edges-Edge dep id deps (add_edge d id graph) (bump id degrees)
        (ground (arith, h, other))
]

build_graph-keeps :
    (dep x : String) (tasks : List Task) (graph : Graph) (degrees : Degrees)
    → Edge dep x graph
    → Edge dep x (build_graph tasks graph degrees).0
unfolding build_graph
build_graph-keeps dep x [] graph degrees h = h
build_graph-keeps dep x (task ∷ tasks) graph degrees h =
    build_graph-keeps dep x tasks (add_task_edges task.id task.dependencies graph degrees).0
      (add_task_edges task.id task.dependencies graph degrees).1
      (add_task_edges-keeps dep x task.id task.dependencies graph degrees h)

abbrev Edges : Graph → Task → Type 0
Edges graph task = (dep : String) → 0 < count dep task.dependencies → Edge dep task.id graph

build_graph-Edges :
    (tasks : List Task) (graph : Graph) (degrees : Degrees)
    → All (Edges (build_graph tasks graph degrees).0) tasks
unfolding build_graph
build_graph-Edges [] graph degrees = tt
build_graph-Edges (task ∷ tasks) graph degrees = (
  λ dep h.
      build_graph-keeps dep task.id tasks (add_task_edges task.id task.dependencies graph degrees).0
        (add_task_edges task.id task.dependencies graph degrees).1
        (add_task_edges-Edge dep task.id task.dependencies graph degrees h),
  build_graph-Edges tasks (add_task_edges task.id task.dependencies graph degrees).0
      (add_task_edges task.id task.dependencies graph degrees).1,
)

-- A node without outstanding edges has all its dependencies done.
settled_tasks :
    (graph : Graph) (x : String) (done : List String) (tasks : List Task)
    → outstanding x done graph ≡ 0
    → All (Edges graph) tasks
    → All
        (λ task.
          task.id ≡ x
          → (dep : String) → contains dep task.dependencies ≡ true
          → contains dep done ≡ true)
        tasks
settled_tasks graph x done [] h edges = tt
settled_tasks graph x done (task ∷ tasks) h (edge, edges) = (
  λ is dep needs. count→contains dep done (
      outstanding-settled x dep done graph h
        (subst (λ y. Edge dep y graph) is (edge dep (contains→count dep task.dependencies needs)))),
  settled_tasks graph x done tasks h edges,
)

Follows-RunsAfter :
    (graph : Graph) (tasks : List Task) (done order : List String)
    → All (Edges graph) tasks
    → Follows graph done order
    → RunsAfter tasks done order
unfolding Follows RunsAfter
Follows-RunsAfter graph tasks done [] edges h = tt
Follows-RunsAfter graph tasks done (x ∷ order) edges (settled, follows) = (
  settled_tasks graph x done tasks settled edges,
  Follows-RunsAfter graph tasks (done ++ (x ∷ [])) order edges follows,
)

Counts-nil : Counts [] []
unfolding outstanding count
Counts-nil x = ground arith

pub kahn-RunsAfter :
    (tasks : List Task) (order : List String) → kahn tasks ≡ some order → RunsAfter tasks [] order
unfolding kahn
kahn-RunsAfter tasks order e =
    Follows-RunsAfter (build_graph tasks [] []).0 tasks [] order (build_graph-Edges tasks [] []) (
      topological-Follows (build_graph tasks [] []).0 (build_graph tasks [] []).1 order
        (build_graph-Counts tasks [] [] Counts-nil) e)

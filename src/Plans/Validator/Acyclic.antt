-- ===== src/Plans/Validator/Acyclic.antt =====
-- A plan in which the search finds no cycle has ranks that climb along its edges.
use agentcy.Prelude.{
  ℕ, ◌+◌, ◌≤◌, ◌<◌, ◌≡◌, sym, ap, subst, String, true, false, ◌&&◌, List, [], ◌∷◌, Option, ◌==◌,
  some, none, string_eq, eq_iff, arith, length, count, contains→count, keys, get, put, All,
  Bool-cases, Option-cases, inl, inr, if◌then◌else◌,
}
use agentcy.Workflow.Kahn.{
  Graph, Degrees, neighbors, degree, add_edge, bump, pop_right, sources, topological,
}
use agentcy.Workflow.Kahn.Follows.{outstanding, outstanding-put, degree-put}
use agentcy.Workflow.Kahn.Ranks.{place_of, topological-place_of}
use agentcy.Workflow.Order.Follows.{neighbors-add_edge, outstanding-add_edge, keys-put}
use agentcy.Plans.Graph.{Edge, end_in}
use agentcy.Plans.Validator.{places, add_between, add_edges, graph_of, detect_cycle}

-- Both ends of an edge are there, and the rank of its target is the greater one.
abbrev pub Climbs : (String → ℕ) → Option String → Option String → Type 0
Climbs rank (some source) (some target) = rank source < rank target
Climbs rank (some source) none = ⊥
Climbs rank none target = ⊥

-- The degrees count the edges; each node has one degree, and is an id.
abbrev Fits : List String → Graph → Degrees → Type 0
Fits ids graph degrees =
    (x : String)
    → (outstanding x [] graph ≤ degree x degrees)
      × (count x (keys degrees) ≤ 1)
      × (count x ids ≡ 0 → (degree x degrees ≡ 0) × (count x (keys degrees) ≡ 0))

-- There is no edge yet.
abbrev IsBare : List String → Graph → Degrees → Type 0
IsBare ids graph degrees =
    (x : String)
    → (outstanding x [] graph ≡ 0)
      × (count x (keys degrees) ≤ 1)
      × (count x ids ≡ 0 → (degree x degrees ≡ 0) × (count x (keys degrees) ≡ 0))

places-IsBare :
    (ids some_ids : List String) (graph : Graph) (degrees : Degrees)
    → ((x : String) → count x ids ≡ 0 → count x some_ids ≡ 0)
    → IsBare ids graph degrees
    → IsBare ids (places some_ids graph degrees).0 (places some_ids graph degrees).1
unfolding places count
places-IsBare ids [] graph degrees among h x = h x
places-IsBare ids (id ∷ some_ids) graph degrees among h x =
    places-IsBare ids some_ids (put id [] graph) (put id 0 degrees)
      (λ y absent. omega (arith, among y absent))
      (λ y. ground (
        arith,
        h y,
        among y,
        outstanding-put y id [] graph,
        degree-put y id 0 degrees,
        keys-put y id 0 degrees,
        eq_iff id y,
      ))
      x

add_one-Fits :
    (ids : List String) (s t : String) (graph : Graph) (degrees : Degrees)
    → 0 < count t ids
    → Fits ids graph degrees
    → Fits ids (add_edge s t graph) (bump t degrees)
unfolding bump
add_one-Fits ids s t graph degrees m h x = elim (Bool-cases (t == x)) [
  | inl here ↦ ground (
    arith,
    h x,
    m,
    here,
    (eq_iff t x).0 here,
    outstanding-add_edge x s t graph,
    degree-put x t (degree t degrees + 1) degrees,
    keys-put x t (degree t degrees + 1) degrees,
  )
  | inr other ↦ ground (
    arith,
    h x,
    other,
    outstanding-add_edge x s t graph,
    degree-put x t (degree t degrees + 1) degrees,
    keys-put x t (degree t degrees + 1) degrees,
  )
]

-- An edge between ids.
abbrev pub Known : List String → Edge → Type 0
Known ids edge = (end_in edge.source ids ≡ true) × (end_in edge.target ids ≡ true)

-- A graph has an edge.
abbrev IsIn : Graph → Option String → Option String → Type 0
IsIn graph (some s) (some t) = 0 < count t (neighbors s graph)
IsIn graph (some s) none = ⊥
IsIn graph none target = ⊥

between-keeps :
    (a b : Option String) (g : Graph × Degrees) (s t : String)
    → 0 < count t (neighbors s g.0)
    → 0 < count t (neighbors s (add_between a b g).0)
between-keeps (some a) (some b) (graph, degrees) s t h =
    ground (arith, h, neighbors-add_edge t s a b graph)
between-keeps (some a) none g s t h = h
between-keeps none b g s t h = h

add_edges-keeps :
    (ids : List String) (edges : List Edge) (g : Graph × Degrees) (s t : String)
    → 0 < count t (neighbors s g.0)
    → 0 < count t (neighbors s (add_edges ids edges g).0)
unfolding add_edges
add_edges-keeps ids [] g s t h = h
add_edges-keeps ids (e ∷ es) g s t h =
    elim (Bool-cases (end_in e.source ids && end_in e.target ids)) [
      | inl known ↦
          rw (known, add_edges)
            (add_edges-keeps ids es (add_between e.source e.target g) s t
              (between-keeps e.source e.target g s t h))
      | inr unknown ↦ rw (unknown, add_edges) (add_edges-keeps ids es g s t h)
    ]

-- An edge between ids is in the graph from then on.
between-IsIn :
    (ids : List String) (a b : Option String) (es : List Edge) (g : Graph × Degrees)
    → end_in a ids ≡ true
    → end_in b ids ≡ true
    → IsIn (add_edges ids es (add_between a b g)).0 a b
unfolding end_in
between-IsIn ids (some s) (some t) es (graph, degrees) m n =
    add_edges-keeps ids es (add_edge s t graph, bump t degrees) s t
      (ground (arith, neighbors-add_edge t s s t graph, eq_iff s s, eq_iff t t))
between-IsIn ids (some s) none es g m n = absurd (ground (arith, n))
between-IsIn ids none b es g m n = absurd (ground (arith, m))

add_edges-IsIn :
    (ids : List String) (edges : List Edge) (g : Graph × Degrees)
    → All (Known ids) edges
    → All (λ e. IsIn (add_edges ids edges g).0 e.source e.target) edges
unfolding add_edges
add_edges-IsIn ids [] g known = tt
add_edges-IsIn ids (e ∷ es) g ((m, n), known) =
    let both : (end_in e.source ids && end_in e.target ids) ≡ true = ground (arith, m, n) in
    let next : add_edges ids es (add_between e.source e.target g) ≡ add_edges ids (e ∷ es) g =
      ap (λ b. add_edges ids es (if b then add_between e.source e.target g else g)) (sym both) in
    subst (λ k. All (λ d. IsIn k.0 d.source d.target) (e ∷ es)) next
      (
        between-IsIn ids e.source e.target es g m n,
        add_edges-IsIn ids es (add_between e.source e.target g) known,
      )

between-Fits :
    (ids : List String) (a b : Option String) (g : Graph × Degrees)
    → end_in b ids ≡ true
    → Fits ids g.0 g.1
    → Fits ids (add_between a b g).0 (add_between a b g).1
unfolding end_in
between-Fits ids (some s) (some t) (graph, degrees) n h =
    add_one-Fits ids s t graph degrees (contains→count t ids n) h
between-Fits ids (some s) none g n h = h
between-Fits ids none b g n h = h

add_edges-Fits :
    (ids : List String) (edges : List Edge) (g : Graph × Degrees)
    → Fits ids g.0 g.1
    → Fits ids (add_edges ids edges g).0 (add_edges ids edges g).1
unfolding add_edges
add_edges-Fits ids [] g h = h
add_edges-Fits ids (e ∷ es) g h = elim (Bool-cases (end_in e.source ids && end_in e.target ids)) [
  | inl known ↦
      rw (known, add_edges)
        (add_edges-Fits ids es (add_between e.source e.target g)
          (between-Fits ids e.source e.target g (ground (arith, known)) h))
  | inr unknown ↦ rw (unknown, add_edges) (add_edges-Fits ids es g h)
]

graph_of-Fits :
    (ids : List String) (edges : List Edge) → Fits ids (graph_of ids edges).0 (graph_of ids edges).1
unfolding graph_of
graph_of-Fits ids edges = add_edges-Fits ids edges (places ids [] []) (λ x. ground (arith, bare x))
  where
    none_yet : IsBare ids [] []
    none_yet x = unfold outstanding count degree get in ground arith

    bare : IsBare ids (places ids [] []).0 (places ids [] []).1
    bare = places-IsBare ids ids [] [] (λ y absent. absent) none_yet

Climbs-of_place :
    (ids order : List String) (graph : Graph) (a b : Option String)
    → ((s t : String)
        → 0 < count t ids
        → 0 < count t (neighbors s graph)
        → place_of order s < place_of order t)
    → end_in b ids ≡ true
    → IsIn graph a b
    → Climbs (place_of order) a b
unfolding end_in
Climbs-of_place ids order graph (some s) (some t) before n m = before s t (contains→count t ids n) m
Climbs-of_place ids order graph (some s) none before n m = m
Climbs-of_place ids order graph none b before n m = m

all_climb :
    (ids order : List String) (graph : Graph) (edges : List Edge)
    → ((s t : String)
        → 0 < count t ids
        → 0 < count t (neighbors s graph)
        → place_of order s < place_of order t)
    → All (Known ids) edges
    → All (λ e. IsIn graph e.source e.target) edges
    → All (λ e. Climbs (place_of order) e.source e.target) edges
all_climb ids order graph [] before known inside = tt
all_climb ids order graph (e ∷ es) before ((m, n), known) (i, inside) = (
  Climbs-of_place ids order graph e.source e.target before n i,
  all_climb ids order graph es before known inside,
)

-- Where the search finds no cycle among edges between ids, there are ranks that climb along them.
pub detect_cycle-Climbs :
    (ids : List String) (edges : List Edge)
    → All (Known ids) edges
    → detect_cycle ids edges ≡ some false
    → (rank : String → ℕ) × All (λ e. Climbs rank e.source e.target) edges
unfolding detect_cycle graph_of
detect_cycle-Climbs ids edges known =
    let g = graph_of ids edges in
    elim (Option-cases (topological pop_right g.0 g.1 (sources g.1))) [
      | inl e ↦ rw (e, detect_cycle) (λ h. absurd (ground (arith, h)))
      | inr (order, e) ↦
          rw (e, detect_cycle)
            (λ h.
              let all_taken : length order ≡ length ids = ground (arith, h) in
              (
                place_of order,
                all_climb ids order g.0 edges
                    (topological-place_of ids g.0 g.1 order
                      (λ x. ground (arith, graph_of-Fits ids edges x))
                      (λ x. ground (arith, graph_of-Fits ids edges x)) e all_taken)
                    known (add_edges-IsIn ids edges (places ids [] []) known),
              ))
    ]

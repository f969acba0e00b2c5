-- ===== src/Workflow/Kahn/Follows.antt =====
-- Kahn's algorithm takes a node after the nodes before it.
use agentcy.Prelude.{
  ℕ, zero, suc, ◌+◌, ◌-◌, ◌≤◌, ◌<◌, ◌≡◌, ◌⊎◌, inl, inr, sym, ◌∙◌, subst, append-nil, append_assoc,
  String, List, [], ◌∷◌, ◌++◌, some, arith, ◌==◌, string_eq, get, put, keys, keep, length, nat_beq,
  Bool-cases, if◌then◌else◌, count, count-append, get-put,
}
use agentcy.Workflow.Kahn.{
  Graph, Degrees, neighbors, degree, relax, pop_left, drain, sources, topological,
}

-- The edges to `x` from the nodes that have not been taken.
unfoldable pub outstanding : String → List String → Graph → ℕ
outstanding x done [] = 0
outstanding x done ((s, targets) ∷ graph) =
    (if nat_beq (count s done) 0 then count x targets else 0) + outstanding x done graph

-- Each node of the list comes when no edge to it is outstanding.
unfoldable pub Follows : Graph → List String → List String → Type 0
Follows graph done [] = Unit
Follows graph done (x ∷ xs) = (outstanding x done graph ≡ 0) × Follows graph (done ++ (x ∷ [])) xs

outstanding_mono :
    (x s : String) (done : List String) (graph : Graph)
    → outstanding x (done ++ (s ∷ [])) graph ≤ outstanding x done graph
unfolding outstanding count
outstanding_mono x s done [] = omega arith
outstanding_mono x s done ((n, targets) ∷ graph) =
    ground (arith, count-append n done (s ∷ []), outstanding_mono x s done graph)

-- Taking a node settles its edges.
outstanding-take :
    (x s : String) (done : List String) (graph : Graph)
    → count s done ≡ 0
    → outstanding x (done ++ (s ∷ [])) graph + count x (neighbors s graph)
      ≤ outstanding x done graph
unfolding outstanding count neighbors get
outstanding-take x s done [] new = omega arith
outstanding-take x s done ((n, targets) ∷ graph) new = elim (Bool-cases (n == s)) [
  | inl here ↦ ground (
    arith,
    here,
    new,
    string_eq.beq_iff n s,
    string_eq.beq_iff s n,
    count-append n done (s ∷ []),
    outstanding_mono x s done graph,
  )
  | inr other ↦ ground (
    arith,
    other,
    string_eq.beq_iff n s,
    string_eq.beq_iff s n,
    count-append n done (s ∷ []),
    outstanding-take x s done graph new,
  )
]

-- What holds of a node while the loop runs, with the edges to it that are outstanding or still to
-- be relaxed, and the number of times that it has been taken.
abbrev pub IsSettled : ℕ → ℕ → Degrees → List String → String → Type 0
IsSettled edges taken degrees queue x =
    (edges ≤ degree x degrees)
    × (count x queue + taken ≤ 1)
    × ((degree x degrees ≡ 0) ⊎ (count x queue + taken ≡ 0))

pub degree-put :
    (x n : String) (d : ℕ) (degrees : Degrees)
    → degree x (put n d degrees) ≡ (if n == x then d else degree x degrees)
unfolding degree
degree-put x n d degrees = ground (arith, get-put n x d degrees)

module _ (out taken : String → ℕ) where
  relax_step :
      (x n : String) (ns : List String) (degrees : Degrees) (queue : List String)
      → IsSettled (out x + count x (n ∷ ns)) (taken x) degrees queue x
      → IsSettled
          (out x + count x ns)
          (taken x)
          (put n (degree n degrees - 1) degrees)
          (if nat_beq (degree n degrees) 1 then queue ++ (n ∷ []) else queue)
          x
  unfolding count
  relax_step x n ns degrees queue h = ground (
    arith,
    degree-put x n (degree n degrees - 1) degrees,
    count-append x queue (n ∷ []),
    string_eq.beq_iff n x,
  )

  pub relax-IsSettled :
      (ns : List String) (degrees : Degrees) (queue : List String)
      → ((x : String) → IsSettled (out x + count x ns) (taken x) degrees queue x)
      → (x : String)
      → IsSettled (out x) (taken x) (relax ns degrees queue).0 (relax ns degrees queue).1 x
  unfolding relax count
  relax-IsSettled [] degrees queue h x = ground (arith, h x)
  relax-IsSettled (n ∷ ns) degrees queue h x =
      relax-IsSettled ns (put n (degree n degrees - 1) degrees)
        (if nat_beq (degree n degrees) 1 then queue ++ (n ∷ []) else queue)
        (λ y. relax_step y n ns degrees queue (h y)) x

abbrev pub Settled : Graph → Degrees → List String → List String → Type 0
Settled graph degrees queue done =
    (x : String) → IsSettled (outstanding x done graph) (count x done) degrees queue x

-- Popping a node from the queue.
pub take_step :
    (graph : Graph) (degrees : Degrees) (node : String) (queue done : List String)
    → Settled graph degrees (node ∷ queue) done
    → (x : String)
    → IsSettled
        (outstanding x (done ++ (node ∷ [])) graph + count x (neighbors node graph))
        (count x (done ++ (node ∷ [])))
        degrees
        queue
        x
unfolding count
take_step graph degrees node queue done h x = ground (
  arith,
  h x,
  h node,
  string_eq.beq_iff node x,
  string_eq.beq_iff node node,
  count-append x done (node ∷ []),
  outstanding-take x node done graph,
)

pub outstanding_of_taken :
    (graph : Graph) (degrees : Degrees) (node : String) (queue done : List String)
    → Settled graph degrees (node ∷ queue) done
    → outstanding node done graph ≡ 0
unfolding count
outstanding_of_taken graph degrees node queue done h =
    ground (arith, h node, string_eq.beq_iff node node)

drain-Follows :
    (graph : Graph) (fuel : ℕ) (degrees : Degrees) (queue done order : List String)
    → Settled graph degrees queue done
    → drain pop_left graph fuel degrees queue done ≡ some order
    → (rest : List String) × (order ≡ done ++ rest) × Follows graph done rest
unfolding drain pop_left Follows
drain-Follows graph zero degrees queue done order h e = absurd (ground (arith, e))
drain-Follows graph (suc fuel) degrees [] done order h e =
    ([], ground (arith, e, append-nil done), tt)
drain-Follows graph (suc fuel) degrees (node ∷ queue) done order h e =
    let (rest, is, follows) =
      drain-Follows graph fuel (relax (neighbors node graph) degrees queue).0
        (relax (neighbors node graph) degrees queue).1 (done ++ (node ∷ [])) order
        (relax-IsSettled (λ x. outstanding x (done ++ (node ∷ [])) graph)
          (λ x. count x (done ++ (node ∷ []))) (neighbors node graph) degrees queue
          (take_step graph degrees node queue done h))
        e in
    (
      node ∷ rest,
      is ∙ append_assoc done (node ∷ []) rest,
      (outstanding_of_taken graph degrees node queue done h, follows),
    )

-- The nodes of degree zero, each once, where each node has one degree.
pub sources-count :
    (x : String) (degrees : Degrees)
    → ((y : String) → count y (keys degrees) ≤ 1)
    → (count x (sources degrees) ≤ count x (keys degrees))
      × ((degree x degrees ≡ 0) ⊎ (count x (sources degrees) ≡ 0))
unfolding count keep degree get
sources-count x [] h = ground arith
sources-count x ((n, d) ∷ degrees) h =
    ground
      (arith, h x, h n, string_eq.beq_iff n x, sources-count x degrees (λ y. ground (arith, h y)))

-- From the nodes of degree zero on, where the degrees count the edges, the order follows the graph.
pub topological-Follows :
    (graph : Graph) (degrees : Degrees) (order : List String)
    → ((x : String) → (outstanding x [] graph ≤ degree x degrees) × (count x (keys degrees) ≤ 1))
    → topological pop_left graph degrees (sources degrees) ≡ some order
    → Follows graph [] order
unfolding topological count
topological-Follows graph degrees order h e =
    let (rest, is, follows) =
      drain-Follows graph (suc (length (sources degrees) + length degrees)) degrees
        (sources degrees) [] order (λ x. initial x) e in
    subst (Follows graph []) (sym is) follows
  where
    initial : Settled graph degrees (sources degrees) []
    initial x = ground (arith, h x, sources-count x degrees (λ y. (h y).1))

-- Where no edge to a node is outstanding, the nodes before it have been taken.
pub outstanding-settled :
    (x s : String) (done : List String) (graph : Graph)
    → outstanding x done graph ≡ 0
    → 0 < count x (neighbors s graph)
    → 0 < count s done
unfolding outstanding neighbors get count
outstanding-settled x s done [] h edge = absurd (omega arith)
outstanding-settled x s done ((n, targets) ∷ graph) h edge = elim (Bool-cases (n == s)) [
  | inl here ↦ ground (arith, here, h, edge, string_eq.beq_iff n s)
  | inr other ↦ outstanding-settled x s done graph (ground (arith, h)) (ground (arith, edge, other))
]

-- What is put for a node takes the place of its edges.
pub outstanding-put :
    (x s : String) (targets : List String) (graph : Graph)
    → outstanding x [] (put s targets graph) + count x (neighbors s graph)
      ≡ outstanding x [] graph + count x targets
unfolding outstanding put neighbors get count
outstanding-put x s targets [] = omega arith
outstanding-put x s targets ((n, old) ∷ graph) = elim (Bool-cases (n == s)) [
  | inl here ↦ ground (arith, here)
  | inr other ↦ ground (arith, other, outstanding-put x s targets graph)
]

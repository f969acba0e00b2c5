-- ===== src/Workflow/Order/Reaches.antt =====
-- What the search from the first task finds.
use agentcy.Prelude.{
  ℕ, zero, suc, ◌+◌, ◌<◌, ◌≡◌, refl, sym, subst, ◌∙◌, String, true, List, [], ◌∷◌, ◌++◌, map, some,
  arith, ◌==◌, string_eq, put, get-put, keep, contains, count, All, Option-cases, Bool-cases, inl,
  inr,
}
use agentcy.Workflow.Kahn.{Graph, neighbors}
use agentcy.Workflow.Tasks.{Task, ok}
use agentcy.Workflow.Order.{
  search_from, edges, outside, is_nil, compare_visited, validate_single_connected_dag,
}

-- A task to which a path leads from the root.
pub data Reaches (graph : Graph) (root : String) : String → Type 0 where
  here : Reaches graph root root
  onward :
      {s t : String} → Reaches graph root s → 0 < count t (neighbors s graph) → Reaches graph root t

-- Two graphs with the same edges.
abbrev pub SameEdges : Graph → Graph → Type 0
SameEdges a b = (s : String) → neighbors s a ≡ neighbors s b

All-of_count :
    (P : String → Type 0) (xs : List String) → ((x : String) → 0 < count x xs → P x) → All P xs
unfolding count
All-of_count P [] h = tt
All-of_count P (x ∷ xs) h = (
  h x (ground (arith, string_eq.beq_iff x x)),
  All-of_count P xs (λ y l. h y (ground (arith, l))),
)

All-append : (P : String → Type 0) (xs ys : List String) → All P xs → All P ys → All P (xs ++ ys)
All-append P [] ys h g = g
All-append P (x ∷ xs) ys (h, hs) g = (h, All-append P xs ys hs g)

All-contains :
    (P : String → Type 0) (x : String) (xs : List String) → All P xs → contains x xs ≡ true → P x
unfolding contains
All-contains P x [] h c = absurd (ground (arith, c))
All-contains P x (y ∷ ys) (h, hs) c = elim (Bool-cases (y == x)) [
  | inl same ↦ subst P ((string_eq.beq_iff y x).0 same) h
  | inr other ↦ All-contains P x ys hs (ground (arith, c, other))
]

neighbors-put :
    (s n : String) (graph : Graph)
    → neighbors s (put n (neighbors n graph) graph) ≡ neighbors s graph
unfolding neighbors
neighbors-put s n graph =
    ground (arith, get-put n s (neighbors n graph) graph, string_eq.beq_iff n s)

module _ (graph : Graph) (root : String) where
  visited-Reaches :
      (fuel : ℕ) (g : Graph) (visited queue : List String) (found : List String × Graph)
      → SameEdges g graph
      → All (Reaches graph root) visited
      → All (Reaches graph root) queue
      → search_from fuel g visited queue ≡ some found
      → All (Reaches graph root) found.0 × SameEdges found.1 graph
  unfolding search_from
  visited-Reaches zero g visited queue found same v q = λ e. absurd (ground (arith, e))
  visited-Reaches (suc fuel) g visited [] found same v q = λ e. (
    subst (All (Reaches graph root)) (ground (arith, e)) v,
    subst (λ k. SameEdges k graph) (ground (arith, e)) same,
  )
  visited-Reaches (suc fuel) g visited (current ∷ queue) found same v (r, q) =
      elim (Bool-cases (contains current visited)) [
        | inl old ↦ rw (old, search_from) (visited-Reaches fuel g visited queue found same v q)
        | inr new ↦
            rw (new, search_from)
              (visited-Reaches fuel (put current (neighbors current g) g) (current ∷ visited)
                (queue ++ neighbors current g) found (λ s. neighbors-put s current g ∙ same s)
                (r, v)
                (All-append (Reaches graph root) queue (neighbors current g) q (
                  All-of_count (Reaches graph root) (neighbors current g)
                    (λ t l. onward r (subst (λ ns. 0 < count t ns) (same current) l)))))
      ]

outside-nil :
    (visited all : List String)
    → is_nil (outside visited all) ≡ true
    → All (λ i. contains i visited ≡ true) all
unfolding keep
outside-nil visited [] h = tt
outside-nil visited (i ∷ all) h = elim (Bool-cases (contains i visited)) [
  | inl there ↦ (there, outside-nil visited all (ground (arith, h, there)))
  | inr missing ↦ absurd (ground (arith, h, missing))
]

compare_visited-ok :
    (all : List String) (found : List String × Graph) (graph : Graph)
    → compare_visited all found ≡ ok graph
    → (is_nil (outside found.0 all) ≡ true) × (found.1 ≡ graph)
unfolding compare_visited
compare_visited-ok all (visited, g) graph h = ground (arith, h)

All-map :
    (P Q : String → Type 0) (xs : List String) → ((x : String) → P x → Q x) → All P xs → All Q xs
All-map P Q [] f h = tt
All-map P Q (x ∷ xs) f (h, hs) = (f x h, All-map P Q xs f hs)

Reaches-same : (a b : Graph) (root t : String) → SameEdges a b → Reaches b root t → Reaches a root t
Reaches-same a b root t same here = here
Reaches-same a b root t same (onward r l) =
    onward (Reaches-same a b root _ same r) (subst (λ ns. 0 < count t ns) (sym (same _)) l)

-- Tasks that pass the check: a path leads from the first to each of them, in the graph that the
-- check leaves.
pub validate_single_connected_dag-Reaches :
    (task : Task) (tasks : List Task) (before graph : Graph)
    → validate_single_connected_dag (task ∷ tasks) before ≡ ok graph
    → All (Reaches graph task.id) (map (λ t. t.id) (task ∷ tasks))
unfolding validate_single_connected_dag
validate_single_connected_dag-Reaches task tasks before graph =
    elim (Option-cases (search_from (2 + edges before) before [] (task.id ∷ []))) [
      | inl short ↦ rw (short, validate_single_connected_dag) (λ h. absurd (ground (arith, h)))
      | inr (found, e) ↦
          rw (e, validate_single_connected_dag)
            (λ h.
              let all = map (λ t. t.id) (task ∷ tasks) in
              let (inside, is) = compare_visited-ok all found graph h in
              let (reached, same) =
                visited-Reaches before task.id (2 + edges before) before [] (task.id ∷ []) found
                  (λ s. refl) tt (here, tt) e in
              All-map (λ i. contains i found.0 ≡ true) (Reaches graph task.id) all
                (λ i c.
                  Reaches-same graph before task.id i
                    (λ s. subst (λ g. neighbors s g ≡ neighbors s before) is (same s))
                    (All-contains (Reaches before task.id) i found.0 reached c))
                (outside-nil found.0 all inside))
    ]

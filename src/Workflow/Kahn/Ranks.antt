-- ===== src/Workflow/Kahn/Ranks.antt =====
-- Where Kahn's algorithm takes every node, the places in its order are ranks of the graph.
use agentcy.Prelude.{
  ℕ, zero, suc, ◌+◌, ◌-◌, ◌≤◌, ◌<◌, ◌≡◌, ◌⊎◌, inl, inr, refl, sym, ◌∙◌, ap, subst, append-nil,
  append_assoc, String, List, [], ◌∷◌, ◌++◌, Option, some, arith, ◌==◌, string_eq, eq_iff, put,
  keys, length, nat_beq, Bool-cases, Option-cases, if◌then◌else◌, count, count-append,
}
use agentcy.Workflow.Kahn.{
  Graph, Degrees, neighbors, degree, relax, pop_right, drain, sources, topological,
}
use agentcy.Workflow.Kahn.Fuel.{pop_right-ne_none}
use agentcy.Workflow.Kahn.Follows.{
  Follows, outstanding, Settled, degree-put, relax-IsSettled, take_step, outstanding_of_taken,
  sources-count, outstanding-settled,
}

-- A node is taken from the queue, and the others stay in it.
abbrev Leaves : (List String → Option (String × List String)) → Type 0
Leaves pop =
    (queue : List String) (node : String) (rest : List String)
    → pop queue ≡ some (node, rest)
    → (x : String) → count x queue ≡ count x (node ∷ rest)

pop_right-Leaves : Leaves pop_right
unfolding pop_right count
pop_right-Leaves [] node rest e x = absurd (ground (arith, e))
pop_right-Leaves (y ∷ []) node rest e x = ground (arith, e, eq_iff y x, eq_iff node x)
pop_right-Leaves (y ∷ (z ∷ ys)) node rest e x = elim (Option-cases (pop_right (z ∷ ys))) [
  | inl last ↦ absurd (pop_right-ne_none z ys last)
  | inr ((w, ws), more) ↦
      let is : w ≡ node = ground (arith, e, more) in
      let at : y ∷ ws ≡ rest = ground (arith, e, more) in
      rw (← is, ← at) (omega (arith, pop_right-Leaves (z ∷ ys) w ws more x))
]

-- A node that is not known has degree zero and has not come.
abbrev IsApart : List String → Degrees → ℕ → String → Type 0
IsApart ids degrees came x = count x ids ≡ 0 → (degree x degrees ≡ 0) × (came ≡ 0)

module _ (ids : List String) (taken : String → ℕ) where
  relax_step-IsApart :
      (x n : String) (degrees : Degrees) (queue : List String)
      → IsApart ids degrees (count x queue + taken x) x
      → IsApart ids
          (put n (degree n degrees - 1) degrees)
          (count x (if nat_beq (degree n degrees) 1 then queue ++ (n ∷ []) else queue) + taken x)
          x
  unfolding count
  relax_step-IsApart x n degrees queue h = ground (
    arith,
    degree-put x n (degree n degrees - 1) degrees,
    count-append x queue (n ∷ []),
    string_eq.beq_iff n x,
  )

  relax-IsApart :
      (ns : List String) (degrees : Degrees) (queue : List String)
      → ((x : String) → IsApart ids degrees (count x queue + taken x) x)
      → (x : String)
      → IsApart ids (relax ns degrees queue).0 (count x (relax ns degrees queue).1 + taken x) x
  unfolding relax
  relax-IsApart [] degrees queue h x = h x
  relax-IsApart (n ∷ ns) degrees queue h x =
      relax-IsApart ns (put n (degree n degrees - 1) degrees)
        (if nat_beq (degree n degrees) 1 then queue ++ (n ∷ []) else queue)
        (λ y. relax_step-IsApart y n degrees queue (h y)) x

module _ (pop : List String → Option (String × List String)) (leaves : Leaves pop)
    (ids : List String) (graph : Graph) where
  popped :
      (degrees : Degrees) (queue done : List String) (node : String) (rest : List String)
      → pop queue ≡ some (node, rest)
      → Settled graph degrees queue done
      → Settled graph degrees (node ∷ rest) done
  unfolding count
  popped degrees queue done node rest e h x = ground (arith, h x, leaves queue node rest e x)

  popped-IsApart :
      (degrees : Degrees) (queue done : List String) (node : String) (rest : List String)
      → pop queue ≡ some (node, rest)
      → ((x : String) → IsApart ids degrees (count x queue + count x done) x)
      → (x : String) → IsApart ids degrees (count x rest + count x (done ++ (node ∷ []))) x
  unfolding count
  popped-IsApart degrees queue done node rest e h x =
      ground (arith, h x, leaves queue node rest e x, count-append x done (node ∷ []))

  -- The rest of an order follows the graph, and the order has known nodes, each once at most.
  Ordered : List String → List String → Type 0
  Ordered done order =
      (rest : List String) × (order ≡ done ++ rest)
      × Follows graph done rest
      × ((x : String) → count x order ≤ count x ids)

  drain-Ordered :
      (fuel : ℕ) (degrees : Degrees) (queue done order : List String)
      → Settled graph degrees queue done
      → ((x : String) → IsApart ids degrees (count x queue + count x done) x)
      → drain pop graph fuel degrees queue done ≡ some order
      → Ordered done order
  unfolding drain Follows Ordered
  drain-Ordered zero degrees queue done order h k = λ e. absurd (ground (arith, e))
  drain-Ordered (suc fuel) degrees queue done order h k = elim (Option-cases (pop queue)) [
    | inl empty ↦
        rw (empty, drain)
          (λ e.
            let is : done ≡ order = ground (arith, e) in
            ([], sym is ∙ sym (append-nil done), tt, λ x. rw (← is) (ground (arith, h x, k x))))
    | inr ((node, rest), e) ↦
        rw (e, drain)
          (λ f.
            let settled = popped degrees queue done node rest e h in
            let (later, is, follows, known) =
              drain-Ordered fuel (relax (neighbors node graph) degrees rest).0
                (relax (neighbors node graph) degrees rest).1 (done ++ (node ∷ [])) order
                (relax-IsSettled (λ x. outstanding x (done ++ (node ∷ [])) graph)
                  (λ x. count x (done ++ (node ∷ []))) (neighbors node graph) degrees rest
                  (take_step graph degrees node rest done settled))
                (relax-IsApart ids (λ x. count x (done ++ (node ∷ []))) (neighbors node graph)
                  degrees rest (popped-IsApart degrees queue done node rest e k))
                f in
            (
              node ∷ later,
              is ∙ append_assoc done (node ∷ []) later,
              (outstanding_of_taken graph degrees node rest done settled, follows),
              known,
            ))
  ]

-- One occurrence of an element is taken away.
take_away :
    (a : String) (bs : List String)
    → 0 < count a bs
    → (rest : List String) × (length bs ≡ suc (length rest))
      × ((x : String) → count x bs ≡ count x (a ∷ rest))
unfolding count
take_away a [] h = absurd (omega arith)
take_away a (b ∷ bs) h = elim (Bool-cases (b == a)) [
  | inl here ↦
      (bs, refl, λ x. ap (λ c. (if c == x then 1 else 0) + count x bs) ((eq_iff b a).0 here))
  | inr other ↦
      let (rest, len, same) = take_away a bs (ground (arith, h, other)) in
      (b ∷ rest, omega (arith, len), λ x. omega (arith, same x))
]

-- A list that has no element more often than another of its length has each as often.
count-eq_of_length :
    (xs ys : List String)
    → ((x : String) → count x xs ≤ count x ys)
    → length xs ≡ length ys
    → (x : String) → count x ys ≤ count x xs
unfolding count
count-eq_of_length [] [] h e x = omega arith
count-eq_of_length [] (y ∷ ys) h e x = absurd (omega (arith, e))
count-eq_of_length (a ∷ xs) ys h e x =
    let (rest, len, same) = take_away a ys (ground (arith, h a, eq_iff a a)) in
    omega (
      arith,
      same x,
      count-eq_of_length xs rest (λ y. omega (arith, h y, same y)) (omega (arith, e, len)) x,
    )

-- The place of a node in an order.
unfoldable pub place_of : List String → String → ℕ
place_of [] x = 0
place_of (y ∷ ys) x = let rest = place_of ys x in if y == x then 0 else suc rest

Follows-place_of :
    (graph : Graph) (s t : String) (done order : List String)
    → Follows graph done order
    → 0 < count t order
    → 0 < count t (neighbors s graph)
    → (0 < count s done) ⊎ (place_of order s < place_of order t)
unfolding Follows place_of count
Follows-place_of graph s t done [] f m edge = absurd (omega arith)
Follows-place_of graph s t done (x ∷ order) (settled, f) m edge = elim (Bool-cases (x == t)) [
  | inl here ↦ inl (
      outstanding-settled t s done graph
        (ap (λ y. outstanding y done graph) (sym ((eq_iff x t).0 here)) ∙ settled) edge)
  | inr later ↦ ground (
    arith,
    later,
    count-append s done (x ∷ []),
    eq_iff x s,
    Follows-place_of graph s t (done ++ (x ∷ [])) order f (ground (arith, m, later)) edge,
  )
]

-- An order of all nodes, each once, puts the start of each edge before its end.
pub topological-place_of :
    (ids : List String) (graph : Graph) (degrees : Degrees) (order : List String)
    → ((x : String) → (outstanding x [] graph ≤ degree x degrees) × (count x (keys degrees) ≤ 1))
    → ((x : String) → count x ids ≡ 0 → (degree x degrees ≡ 0) × (count x (keys degrees) ≡ 0))
    → topological pop_right graph degrees (sources degrees) ≡ some order
    → length order ≡ length ids
    → (s t : String) → 0 < count t ids
    → 0 < count t (neighbors s graph)
    → place_of order s < place_of order t
unfolding topological count Ordered
topological-place_of ids graph degrees order h k e len s t m edge =
    let (rest, is, follows, known) =
      drain-Ordered pop_right pop_right-Leaves ids graph
        (suc (length (sources degrees) + length degrees)) degrees (sources degrees) [] order
        (λ x. ground (arith, h x, sources-count x degrees (λ y. (h y).1)))
        (λ x. ground (arith, k x, sources-count x degrees (λ y. (h y).1))) e in
    elim (Follows-place_of graph s t [] order (subst (Follows graph []) (sym is) follows)
      (omega (arith, m, count-eq_of_length order ids known len t)) edge) [
        | inl impossible ↦ absurd (omega (arith, impossible))
        | inr before ↦ before
      ]

-- ===== src/Workflow/Kahn/Fuel.antt =====
-- The loop of Kahn's algorithm ends within its fuel.
use agentcy.Prelude.{
  ℕ, zero, suc, ◌+◌, ◌-◌, ◌≤◌, ◌<◌, ◌≡◌, ◌≢◌, refl, String, List, [], ◌∷◌, ◌++◌, Option, none, some,
  arith, ◌==◌, string_eq, get, put, length, length-append, nat_beq, Option-cases, Bool-cases, inl,
  inr, if◌then◌else◌,
}
use agentcy.Workflow.Kahn.{
  Graph, Degrees, neighbors, degree, relax, pop_left, pop_right, drain, topological,
}

-- How many nodes have a degree above zero.
unfoldable pub positives : Degrees → ℕ
positives [] = 0
positives ((n, d) ∷ degrees) = (if nat_beq d 0 then 0 else 1) + positives degrees

pub positives-le : (degrees : Degrees) → positives degrees ≤ length degrees
unfolding positives
positives-le [] = omega arith
positives-le ((n, d) ∷ degrees) = ground (arith, positives-le degrees)

-- Putting a degree for a node exchanges its old place for the new one.
positives-put :
    (n : String) (d : ℕ) (degrees : Degrees)
    → positives (put n d degrees) + (if nat_beq (degree n degrees) 0 then 0 else 1)
      ≤ positives degrees + (if nat_beq d 0 then 0 else 1)
unfolding positives put degree get
positives-put n d [] = ground arith
positives-put n d ((m, c) ∷ degrees) = elim (Bool-cases (m == n)) [
  | inl here ↦ rw here (ground arith)
  | inr other ↦ rw other (ground (arith, positives-put n d degrees))
]

-- What is queued and what may still be queued do not grow.
pub relax-le :
    (ns : List String) (degrees : Degrees) (queue : List String)
    → length (relax ns degrees queue).1 + positives (relax ns degrees queue).0
      ≤ length queue + positives degrees
unfolding relax
relax-le [] degrees queue = omega arith
relax-le (n ∷ ns) degrees queue = ground (
  arith,
  positives-put n (degree n degrees - 1) degrees,
  length-append queue (n ∷ []),
  relax-le ns (put n (degree n degrees - 1) degrees)
      (if nat_beq (degree n degrees) 1 then queue ++ (n ∷ []) else queue),
)

-- A way to take one node from the queue.
abbrev pub Takes : (List String → Option (String × List String)) → Type 0
Takes pop =
    (queue : List String) (node : String) (rest : List String)
    → pop queue ≡ some (node, rest)
    → length rest + 1 ≡ length queue

pub pop_left-Takes : Takes pop_left
unfolding pop_left
pop_left-Takes [] node rest e = cc
pop_left-Takes (x ∷ xs) node rest e = ground (arith, e)

pub pop_right-ne_none : (x : String) (xs : List String) → pop_right (x ∷ xs) ≢ none
unfolding pop_right
pop_right-ne_none x xs e = elim (Option-cases (pop_right xs)) [
  | inl last ↦ ground (arith, e, last)
  | inr ((y, ys), more) ↦ ground (arith, e, more)
]

pub pop_right-Takes : Takes pop_right
unfolding pop_right
pop_right-Takes [] node rest e = cc
pop_right-Takes (x ∷ []) node rest e = ground (arith, e)
pop_right-Takes (x ∷ (y ∷ ys)) node rest e = elim (Option-cases (pop_right (y ∷ ys))) [
  | inl last ↦ absurd (pop_right-ne_none y ys last)
  | inr ((z, zs), more) ↦ ground (arith, more, e, pop_right-Takes (y ∷ ys) z zs more)
]

module _ (pop : List String → Option (String × List String)) (takes : Takes pop)
    (graph : Graph) where
  drain_total :
      (fuel : ℕ) (degrees : Degrees) (queue taken : List String)
      → length queue + positives degrees < fuel
      → (order : List String) × (drain pop graph fuel degrees queue taken ≡ some order)
  unfolding drain
  drain_total zero degrees queue taken h = absurd (omega arith)
  drain_total (suc fuel) degrees queue taken h = elim (Option-cases (pop queue)) [
    | inl empty ↦ (taken, rw (empty, drain) refl)
    | inr ((node, rest), e) ↦
        rw (e, drain)
          (drain_total fuel (relax (neighbors node graph) degrees rest).0
            (relax (neighbors node graph) degrees rest).1 (taken ++ (node ∷ []))
            (omega (arith, relax-le (neighbors node graph) degrees rest, takes queue node rest e)))
  ]

  -- From any degrees and any queue, the algorithm returns an order.
  pub topological_total :
      (degrees : Degrees) (queue : List String)
      → (order : List String) × (topological pop graph degrees queue ≡ some order)
  unfolding topological
  topological_total degrees queue =
      drain_total (suc (length queue + length degrees)) degrees queue []
        (omega (arith, positives-le degrees))

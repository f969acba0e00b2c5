-- ===== src/Topology/Mutation/Before.antt =====
-- An insertion before a step keeps a plan free of cycles.
use agentcy.Prelude.{
  ℕ, ◌+◌, ◌*◌, ◌<◌, ◌≡◌, refl, sym, subst, ap, String, true, false, ◌||◌, List, [], ◌∷◌, none, some,
  arith, ◌==◌, string_eq, eq_iff, contains, All, if◌then◌else◌, Bool-cases, Option-cases, inl, inr,
}
use agentcy.Topology.Mutation.{
  SkeletonStep, find_step_index, find_step, insert_at, replace_first, insert_step_before,
}
use agentcy.Topology.Mutation.Dag.{
  ids_of, IsBelow, IsDag, All-mono, All-both, All-insert_at, All-replace_first, find_step-All,
  contains-insert_at, All-contains, found-contains,
}

-- The ranks with room for a new step right below the target.
unfoldable below : (String → ℕ) → String → String → String → ℕ
below rank target new x = if x == new then 2 * rank target else 2 * rank x + 1

pub replace_first-ids_of :
    (t : String) (f : SkeletonStep → SkeletonStep) (steps : List SkeletonStep)
    → ((s : SkeletonStep) → (f s).step_id ≡ s.step_id)
    → ids_of (replace_first t f steps) ≡ ids_of steps
unfolding replace_first
replace_first-ids_of t f [] same = refl
replace_first-ids_of t f (s ∷ steps) same = elim (Bool-cases (s.step_id == t)) [
  | inl e ↦ rw e (ap (λ i. i ∷ ids_of steps) (same s))
  | inr e ↦ rw e (ap (◌∷◌ s.step_id) (replace_first-ids_of t f steps same))
]

pub find_step-step_id :
    (t : String) (steps : List SkeletonStep) (s : SkeletonStep)
    → find_step t steps ≡ some s
    → s.step_id ≡ t
unfolding find_step
find_step-step_id t [] s e = absurd (cc e)
find_step-step_id t (u ∷ steps) s e = elim (Bool-cases (u.step_id == t)) [
  | inl same ↦
      let found : u ≡ s = cc (e, same) in
      subst (λ (v : SkeletonStep). v.step_id ≡ t) found ((eq_iff u.step_id t).0 same)
  | inr other ↦ find_step-step_id t steps s (ground (arith, e, other))
]

-- A step that is there is found.
find_step-found :
    (t : String) (steps : List SkeletonStep)
    → contains t (ids_of steps) ≡ true
    → find_step t steps ≡ none
    → ⊥
unfolding find_step contains
find_step-found t [] among absent = absurd (cc among)
find_step-found t (s ∷ steps) among absent = elim (Bool-cases (s.step_id == t)) [
  | inl e ↦ absurd (cc (e, absent))
  | inr e ↦ find_step-found t steps (ground (arith, e, among)) (ground (arith, e, absent))
]

module _ (rank : String → ℕ) (target new : String) (ids ids' : List String)
    (fresh : contains new ids ≡ false)
    (grown : (d : String) → contains d ids' ≡ (contains d ids || new == d)) where
  differs : (d : String) → contains d ids ≡ true → (d == new) ≡ false
  differs d among = ground (arith, among, fresh, eq_iff d new, ap (λ k. contains k ids))

  below-old :
      (d : String) (n : ℕ)
      → (contains d ids ≡ true) × (rank d < n)
      → (contains d ids' ≡ true) × (below rank target new d < 2 * n)
  unfolding below
  below-old d n (among, lower) =
      (ground (arith, grown d, among), ground (arith, differs d among, lower))

  old-IsBelow :
      (s : SkeletonStep)
      → (contains s.step_id ids ≡ true) × IsBelow rank ids s
      → IsBelow (below rank target new) ids' s
  unfolding below
  old-IsBelow s (own, low) = rw (differs s.step_id own) (
      All-mono _ _ s.dependencies
        (λ d h. let k = below-old d (rank s.step_id) h in (k.0, omega (arith, k.1))) low)

  below-new : below rank target new new ≡ 2 * rank target
  unfolding below
  below-new = rw ((eq_iff new new).1 refl) refl

  -- The new step in front of its target, with the dependencies of that.
  front-IsBelow :
      (s : SkeletonStep)
      → s.step_id ≡ new
      → All (λ d. (contains d ids ≡ true) × (rank d < rank target)) s.dependencies
      → IsBelow (below rank target new) ids' s
  front-IsBelow s named low =
      All-mono _ _ s.dependencies (λ d h. rw (named, below-new) (below-old d (rank target) h)) low

  target-IsBelow :
      (s : SkeletonStep)
      → s.step_id ≡ target
      → contains target ids ≡ true
      → IsBelow (below rank target new) ids' (record s { dependencies = new ∷ [] })
  unfolding below
  target-IsBelow s named among =
      rw (named, differs target among)
        (rw ((eq_iff new new).1 refl)
          ((ground (arith, grown new, eq_iff new new), omega arith), tt))

module _ (rank : String → ℕ) (target : String) (step : SkeletonStep) (steps : List SkeletonStep)
    (fresh : contains step.step_id (ids_of steps) ≡ false) (dag : IsDag rank steps) where
  before_found :
      (i : ℕ) (found : SkeletonStep)
      → contains target (ids_of steps) ≡ true
      → find_step target (insert_at i step steps) ≡ some found
      → IsDag (below rank target step.step_id) (
          replace_first target
            (λ s. record s { dependencies = step.step_id ∷ [] })
            (insert_at i (record step { dependencies = found.dependencies }) steps))
  before_found i found among e =
      subst
        (λ ids.
          All (IsBelow (below rank target step.step_id) ids) (replace_first target onto placed))
        (sym (replace_first-ids_of target onto placed (λ s. refl)))
        (All-replace_first _ target onto placed
          (λ s named.
            target-IsBelow rank target step.step_id (ids_of steps) (ids_of placed) fresh grown s
              named among)
          (All-insert_at _ i new_step steps
            (front-IsBelow rank target step.step_id (ids_of steps) (ids_of placed) fresh grown
              new_step refl
              (find_step-All Low target (insert_at i step steps) found e
                (All-insert_at Low i step steps
                  (λ named. absurd (cc (fresh, among, ap (λ k. contains k (ids_of steps)) named)))
                  (All-mono _ _ steps
                    (λ s low named.
                      subst
                        (λ n.
                          All (λ d. (contains d (ids_of steps) ≡ true) × (rank d < rank n))
                            s.dependencies)
                        named low)
                    dag))
                (find_step-step_id target (insert_at i step steps) found e)))
            (All-mono _ _ steps
              (old-IsBelow rank target step.step_id (ids_of steps) (ids_of placed) fresh grown)
              (All-both _ _ steps (All-contains steps) dag))))
    where
      new_step : SkeletonStep
      new_step = record step { dependencies = found.dependencies }

      placed : List SkeletonStep
      placed = insert_at i new_step steps

      onto : SkeletonStep → SkeletonStep
      onto s = record s { dependencies = step.step_id ∷ [] }

      Low : SkeletonStep → Type 0
      Low s =
          s.step_id ≡ target
          → All (λ d. (contains d (ids_of steps) ≡ true) × (rank d < rank target)) s.dependencies

      grown :
          (d : String)
          → contains d (ids_of placed) ≡ (contains d (ids_of steps) || step.step_id == d)
      grown d = contains-insert_at d i new_step steps

  -- A new step in front of its target takes over the dependencies of that and leaves no cycle and
  -- no dependency on a step that is not there.
  pub insert_step_before-IsDag :
      (rank' : String → ℕ) × IsDag rank' (insert_step_before steps target step)
  unfolding insert_step_before
  insert_step_before-IsDag = elim (Option-cases (find_step_index steps target)) [
    | inl e ↦ rw (e, insert_step_before) (rank, dag)
    | inr (i, e) ↦ elim (Option-cases (find_step target (insert_at i step steps))) [
      | inl absent ↦ absurd (
          find_step-found target (insert_at i step steps)
            (rw contains-insert_at (ground (arith, found-contains target i steps e))) absent)
      | inr (found, f) ↦
          rw (e, insert_step_before)
            (rw f (
              below rank target step.step_id,
              before_found i found (found-contains target i steps e) f,
            ))
    ]
  ]

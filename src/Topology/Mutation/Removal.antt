-- ===== src/Topology/Mutation/Removal.antt =====
-- A removal keeps a plan free of cycles.
use agentcy.Prelude.{
  ℕ, suc, ◌<◌, ◌≡◌, sym, subst, ap, String, true, false, not, List, [], ◌∷◌, some, map, arith, ◌==◌,
  string_eq, eq_iff, contains, keep, All, Bool-cases, Option-cases, inl, inr,
}
use agentcy.Topology.Mutation.{
  SkeletonStep, find_step_index, find_step, pop_at, bypass, remove_step,
}
use agentcy.Topology.Mutation.Dag.{
  ids_of, IsBelow, IsDag, map-ids_of, All-mono, All-append, All-keep, All-map, All-from_keys,
  All-pop_at, find_step-All,
}
use agentcy.Topology.Mutation.Before.{find_step-step_id}

All-lookup :
    (P : String → Type 0) (t : String) (deps : List String)
    → contains t deps ≡ true
    → All P deps
    → P t
unfolding contains
All-lookup P t [] e all = absurd (cc e)
All-lookup P t (d ∷ deps) e (p, all) = elim (Bool-cases (d == t)) [
  | inl same ↦ subst P ((eq_iff d t).0 same) p
  | inr other ↦ All-lookup P t deps (ground (arith, e, other)) all
]

-- Where a target is not among some dependencies, none of them is the target.
All-without :
    (P : String → Type 0) (t : String) (deps : List String)
    → contains t deps ≡ false
    → All P deps
    → All (λ d. P d × ((d == t) ≡ false)) deps
unfolding contains
All-without P t [] e all = tt
All-without P t (d ∷ deps) e (p, all) =
    ((p, ground (arith, e)), All-without P t deps (ground (arith, e)) all)

bypass-step_id :
    (t : String) (deps : List String) (s : SkeletonStep) → (bypass t deps s).step_id ≡ s.step_id
unfolding bypass
bypass-step_id t deps s = ground arith

-- The other steps are still there.
contains-pop_at :
    (d t : String) (i : ℕ) (f : SkeletonStep → SkeletonStep) (steps : List SkeletonStep)
    → ((s : SkeletonStep) → (f s).step_id ≡ s.step_id)
    → find_step_index steps t ≡ some i
    → (d == t) ≡ false
    → contains d (ids_of steps) ≡ true
    → contains d (ids_of (pop_at i (map f steps))) ≡ true
unfolding find_step_index pop_at contains
contains-pop_at d t i f [] same e other among = absurd (cc e)
contains-pop_at d t i f (s ∷ steps) same e other among = elim (Bool-cases (s.step_id == t)) [
  | inl first ↦
      let here : 0 ≡ i = cc (e, first) in
      subst (λ k. contains d (ids_of (pop_at k (f s ∷ map f steps))) ≡ true) here
        (rw map-ids_of
          (ground (arith, among, other, first, eq_iff s.step_id t, eq_iff s.step_id d, eq_iff d t)))
  | inr later ↦ elim (Option-cases (find_step_index steps t)) [
    | inl absent ↦ absurd (cc (e, later, absent))
    | inr (j, found) ↦
        let there : suc j ≡ i = cc (e, later, found) in
        subst (λ k. contains d (ids_of (pop_at k (f s ∷ map f steps))) ≡ true) there
          (rw same (ground (arith, among, contains-pop_at d t j f steps same found other)))
  ]
]

module _ (rank : String → ℕ) (target : String) (steps : List SkeletonStep)
    (dag : IsDag rank steps) where
  -- A dependency that may stay: it is a step below, and not the removed one.
  Stays : ℕ → String → Type 0
  Stays n d = ((contains d (ids_of steps) ≡ true) × (rank d < n)) × ((d == target) ≡ false)

  bypass-Stays :
      (removed s : SkeletonStep)
      → All (Stays (rank target)) removed.dependencies
      → IsBelow rank (ids_of steps) s
      → All (Stays (rank s.step_id)) (bypass target removed.dependencies s).dependencies
  unfolding bypass Stays
  bypass-Stays removed s own low = elim (Bool-cases (contains target s.dependencies)) [
    | inl e ↦ rw e (
        All-from_keys _ [] _ (
          All-append _ (keep (λ d. not (d == target)) s.dependencies) removed.dependencies
            (All-keep _ _ _ s.dependencies (λ d h k. (h, ground (arith, k))) low)
            (All-mono _ _ removed.dependencies
              (λ d h. ((h.0.0, lower d (h.0.1) (All-lookup _ target s.dependencies e low)), h.1))
              own)))
    | inr e ↦ rw e (All-without _ target s.dependencies e low)
  ]
    where
      lower :
          (d : String)
          → rank d < rank target
          → (contains target (ids_of steps) ≡ true) × (rank target < rank s.step_id)
          → rank d < rank s.step_id
      lower d h k = omega (arith, h, k.1)

  removed_found :
      (i : ℕ) (removed : SkeletonStep)
      → find_step_index steps target ≡ some i
      → find_step target steps ≡ some removed
      → IsDag rank (pop_at i (map (bypass target removed.dependencies) steps))
  unfolding Stays
  removed_found i removed e f = All-pop_at _ i (map around steps) (
      All-map _ around steps (
        All-mono _ _ steps
          (λ s low.
            subst
              (λ n.
                All (λ d. (contains d (ids_of left) ≡ true) × (rank d < n)) (around s).dependencies)
              (ap rank (sym (bypass-step_id target removed.dependencies s)))
              (All-mono _ _ (around s).dependencies
                (λ d h. (
                  contains-pop_at d target i around steps
                      (bypass-step_id target removed.dependencies) e h.1 (h.0.0),
                  h.0.1,
                ))
                (bypass-Stays removed s own low)))
          dag))
    where
      around : SkeletonStep → SkeletonStep
      around = bypass target removed.dependencies

      left : List SkeletonStep
      left = pop_at i (map around steps)

      apart : (d : String) → rank d < rank target → (d == target) ≡ false
      apart d h = elim (Bool-cases (d == target)) [
        | inl e ↦ absurd (omega (arith, h, ap rank ((eq_iff d target).0 e)))
        | inr e ↦ e
      ]

      own : All (Stays (rank target)) removed.dependencies
      own =
          All-mono _ _ removed.dependencies (λ d h. (h, apart d (h.1)))
            (subst
              (λ n.
                All (λ d. (contains d (ids_of steps) ≡ true) × (rank d < rank n))
                  removed.dependencies)
              (find_step-step_id target steps removed f)
              (find_step-All (IsBelow rank (ids_of steps)) target steps removed f dag))

  -- A removed step leaves no cycle and no dependency on it or on another step that is not there:
  -- the steps behind it depend on what it depended on.
  pub remove_step-IsDag : IsDag rank (remove_step steps target)
  unfolding remove_step
  remove_step-IsDag = elim (Option-cases (find_step_index steps target)) [
    | inl e ↦ rw (e, remove_step) dag
    | inr (i, e) ↦ elim (Option-cases (find_step target steps)) [
      | inl f ↦ rw (e, remove_step) (rw f dag)
      | inr (removed, f) ↦ rw (e, remove_step) (rw f (removed_found i removed e f))
    ]
  ]

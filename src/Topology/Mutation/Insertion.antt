-- ===== src/Topology/Mutation/Insertion.antt =====
-- An insertion keeps a plan free of cycles.
use agentcy.Prelude.{
  ℕ, suc, ◌+◌, ◌*◌, ◌<◌, ◌≡◌, refl, sym, subst, ap, String, true, false, ◌||◌, List, [], ◌∷◌, map,
  arith, ◌==◌, string_eq, eq_iff, contains, All, if◌then◌else◌, Bool-cases, Option-cases, inl, inr,
}
use agentcy.Topology.Mutation.{
  SkeletonStep, find_step_index, insert_at, redirect, rewire, behind, insert_step_after,
}
use agentcy.Topology.Mutation.Dag.{
  ids_of, IsBelow, IsDag, map-ids_of, All-mono, All-both, All-append, All-map, All-insert_at,
  contains-insert_at, All-contains, found-contains,
}

-- The ranks with room for a new step right above the target.
unfoldable pub above : (String → ℕ) → String → String → String → ℕ
above rank target new x = if x == new then 2 * rank target + 1 else 2 * rank x

module _ (rank : String → ℕ) (target new : String) (ids ids' : List String)
    (fresh : contains new ids ≡ false)
    (grown : (d : String) → contains d ids' ≡ (contains d ids || new == d)) where
  new-contains : contains new ids' ≡ true
  new-contains = ground (arith, grown new, eq_iff new new)

  differs : (d : String) → contains d ids ≡ true → (d == new) ≡ false
  differs d among = ground (arith, among, fresh, eq_iff d new, ap (λ k. contains k ids))

  above-old :
      (d : String) (n : ℕ)
      → (contains d ids ≡ true) × (rank d < n)
      → (contains d ids' ≡ true) × (above rank target new d < 2 * n)
  unfolding above
  above-old d n (among, lower) =
      (ground (arith, grown d, among), ground (arith, differs d among, lower))

  above-own : (s : String) → contains s ids ≡ true → above rank target new s ≡ 2 * rank s
  unfolding above
  above-own s own = rw (differs s own) refl

  redirect-All :
      (n : ℕ) (deps : List String)
      → All (λ d. (contains d ids ≡ true) × (rank d < n)) deps
      → All
          (λ d. (contains d ids' ≡ true) × (above rank target new d < 2 * n))
          (redirect target new deps)
  unfolding redirect above
  redirect-All n [] all = tt
  redirect-All n (d ∷ deps) ((among, lower), all) = elim (Bool-cases (d == target)) [
    | inl e ↦ rw e ((new-contains, at_target e lower), redirect-All n deps all)
    | inr e ↦ rw e (above-old d n (among, lower), redirect-All n deps all)
  ]
    where
      at_target : (d == target) ≡ true → rank d < n → above rank target new new < 2 * n
      at_target e lower = ground (arith, lower, eq_iff new new, ap rank ((eq_iff d target).0 e))

  -- An old step after its rewiring.
  rewire-IsBelow :
      (s : SkeletonStep)
      → (contains s.step_id ids ≡ true) × IsBelow rank ids s
      → IsBelow (above rank target new) ids' (rewire target new s)
  unfolding rewire
  rewire-IsBelow s (own, low) =
      rw (differs s.step_id own) (elim (Bool-cases (contains target s.dependencies)) [
        | inl e ↦ rw e (
            subst
              (λ n.
                All (λ d. (contains d ids' ≡ true) × (above rank target new d < n))
                  (redirect target new s.dependencies))
              (sym (above-own s.step_id own)) (redirect-All (rank s.step_id) s.dependencies low))
        | inr e ↦ rw e (
            subst
              (λ n.
                All (λ d. (contains d ids' ≡ true) × (above rank target new d < n)) s.dependencies)
              (sym (above-own s.step_id own))
              (All-mono _ _ s.dependencies (λ d. above-old d (rank s.step_id)) low))
      ])

  below_new :
      (s : String) (d : String)
      → contains target ids ≡ true
      → s ≡ new
      → d ≡ target
      → (contains d ids' ≡ true) × (above rank target new d < above rank target new s)
  unfolding above
  below_new s d among named same =
      rw (named, same)
        (
          ground (arith, grown target, among),
          rw (differs target among) (ground (arith, eq_iff new new)),
        )

  -- The new step behind its target.
  behind-IsBelow :
      (s : SkeletonStep)
      → s.step_id ≡ new
      → contains target ids ≡ true
      → All (λ d. d ≡ target) s.dependencies
      → IsBelow (above rank target new) ids' (behind target s)
  unfolding behind
  behind-IsBelow s named among own = elim (Bool-cases (contains target s.dependencies)) [
    | inl e ↦ rw e (All-mono _ _ s.dependencies (λ d. below_new s.step_id d among named) own)
    | inr e ↦ rw e (
        All-append _ s.dependencies (target ∷ [])
          (All-mono _ _ s.dependencies (λ d. below_new s.step_id d among named) own)
          (below_new s.step_id target among named refl, tt))
  ]

rewire-new : (target : String) (s : SkeletonStep) → rewire target s.step_id s ≡ s
unfolding rewire
rewire-new target s = rw ((eq_iff s.step_id s.step_id).1 refl) refl

rewire-step_id :
    (target new : String) (s : SkeletonStep) → (rewire target new s).step_id ≡ s.step_id
unfolding rewire
rewire-step_id target new s = ground arith

behind-step_id : (target : String) (s : SkeletonStep) → (behind target s).step_id ≡ s.step_id
unfolding behind
behind-step_id target s = ground arith

module _ (rank : String → ℕ) (target : String) (step : SkeletonStep) (steps : List SkeletonStep)
    (fresh : contains step.step_id (ids_of steps) ≡ false) (dag : IsDag rank steps) where
  after_found :
      (i : ℕ)
      → contains target (ids_of steps) ≡ true
      → All (λ d. d ≡ target) step.dependencies
      → IsDag
          (above rank target step.step_id)
          (map (rewire target step.step_id) (insert_at i (behind target step) steps))
  after_found i among own =
      subst
        (λ ids.
          All (IsBelow (above rank target step.step_id) ids)
            (map (rewire target step.step_id) placed))
        (sym (map-ids_of (rewire target step.step_id) placed (rewire-step_id target step.step_id)))
        (All-map _ (rewire target step.step_id) placed (
          All-insert_at _ i (behind target step) steps
            (subst (IsBelow (above rank target step.step_id) (ids_of placed)) (sym unmoved) (
              behind-IsBelow rank target step.step_id (ids_of steps) (ids_of placed) fresh grown
                step refl among own))
            (All-mono _ _ steps
              (rewire-IsBelow rank target step.step_id (ids_of steps) (ids_of placed) fresh grown)
              (All-both _ _ steps (All-contains steps) dag))))
    where
      placed : List SkeletonStep
      placed = insert_at i (behind target step) steps

      grown :
          (d : String)
          → contains d (ids_of placed) ≡ (contains d (ids_of steps) || step.step_id == d)
      grown d =
          subst (λ n. contains d (ids_of placed) ≡ (contains d (ids_of steps) || n == d))
            (behind-step_id target step) (contains-insert_at d i (behind target step) steps)

      unmoved : rewire target step.step_id (behind target step) ≡ behind target step
      unmoved =
          subst (λ n. rewire target n (behind target step) ≡ behind target step)
            (behind-step_id target step) (rewire-new target (behind target step))

  -- A new step behind its target, which depends on nothing else, leaves no cycle and no dependency
  -- on a step that is not there.
  pub insert_step_after-IsDag :
      All (λ d. d ≡ target) step.dependencies
      → (rank' : String → ℕ) × IsDag rank' (insert_step_after steps target step)
  unfolding insert_step_after
  insert_step_after-IsDag own = elim (Option-cases (find_step_index steps target)) [
    | inl e ↦ rw (e, insert_step_after) (rank, dag)
    | inr (i, e) ↦
        rw (e, insert_step_after)
          (
            above rank target step.step_id,
            after_found (suc i) (found-contains target i steps e) own,
          )
  ]

-- ===== src/Topology/Mutation/Rules.antt =====
-- The rules of a skeleton keep its steps free of cycles.
use agentcy.Prelude.{
  ℕ, ◌≡◌, refl, sym, subst, String, Bool, true, false, List, [], ◌∷◌, none, some, ap, string_eq,
  contains, All, keep, map, Bool-cases, inl, inr, if◌then◌else◌, ◌==◌,
}
use agentcy.Contracts.Ranking.{sort_desc}
use agentcy.Topology.Mutation.{
  SkeletonStep, Change, set_step_id, set_role, set_name, set_is_entry, set_is_final,
  set_dependencies, unknown, MutationAction, insert_after, insert_before, remove, modify_field,
  MutationRule, replace_first, change_step, apply_action, apply_actions, all_hold, apply_rules,
  apply_mutations,
}
use agentcy.Topology.Mutation.Dag.{ids_of, IsBelow, IsDag}
use agentcy.Topology.Mutation.Insertion.{insert_step_after-IsDag}
use agentcy.Topology.Mutation.Before.{insert_step_before-IsDag, replace_first-ids_of}
use agentcy.Topology.Mutation.Removal.{remove_step-IsDag}

-- A change of a field that no dependency reads.
unfoldable pub IsPlain : Change → Type 0
IsPlain (set_step_id v) = ⊥
IsPlain (set_dependencies v) = ⊥
IsPlain (set_role v) = Unit
IsPlain (set_name v) = Unit
IsPlain (set_is_entry v) = Unit
IsPlain (set_is_final v) = Unit
IsPlain unknown = Unit

-- An action that fits some steps: a new step has a name of its own and, behind its target, depends
-- on nothing else; a change leaves the identifier and the dependencies.
unfoldable pub Fits : List SkeletonStep → MutationAction → Type 0
Fits steps (insert_after target_id none) = Unit
Fits steps (insert_after target_id (some step)) =
    (contains step.step_id (ids_of steps) ≡ false) × All (λ d. d ≡ target_id) step.dependencies
Fits steps (insert_before target_id none) = Unit
Fits steps (insert_before target_id (some step)) = contains step.step_id (ids_of steps) ≡ false
Fits steps (remove target_id) = Unit
Fits steps (modify_field target_id none) = Unit
Fits steps (modify_field target_id (some change)) = IsPlain change

-- Each action fits the steps that it meets.
unfoldable pub FitAll : List SkeletonStep → List MutationAction → Type 0
FitAll steps [] = Unit
FitAll steps (action ∷ actions) = Fits steps action × FitAll (apply_action steps action) actions

HasRanks : List SkeletonStep → Type 0
HasRanks steps = (rank : String → ℕ) × IsDag rank steps

change_step-step_id :
    (change : Change) (s : SkeletonStep)
    → IsPlain change
    → (change_step change s).step_id ≡ s.step_id
unfolding change_step IsPlain
change_step-step_id (set_step_id v) s plain = absurd plain
change_step-step_id (set_dependencies v) s plain = absurd plain
change_step-step_id (set_role v) s plain = refl
change_step-step_id (set_name v) s plain = refl
change_step-step_id (set_is_entry v) s plain = refl
change_step-step_id (set_is_final v) s plain = refl
change_step-step_id unknown s plain = refl

change_step-IsBelow :
    (rank : String → ℕ) (ids : List String) (change : Change) (s : SkeletonStep)
    → IsPlain change
    → IsBelow rank ids s
    → IsBelow rank ids (change_step change s)
unfolding change_step IsPlain
change_step-IsBelow rank ids (set_step_id v) s plain low = absurd plain
change_step-IsBelow rank ids (set_dependencies v) s plain low = absurd plain
change_step-IsBelow rank ids (set_role v) s plain low = low
change_step-IsBelow rank ids (set_name v) s plain low = low
change_step-IsBelow rank ids (set_is_entry v) s plain low = low
change_step-IsBelow rank ids (set_is_final v) s plain low = low
change_step-IsBelow rank ids unknown s plain low = low

changed-All :
    (rank : String → ℕ) (ids : List String) (t : String) (change : Change)
    (steps : List SkeletonStep)
    → IsPlain change
    → All (IsBelow rank ids) steps
    → All (IsBelow rank ids) (replace_first t (change_step change) steps)
unfolding replace_first
changed-All rank ids t change [] plain all = tt
changed-All rank ids t change (s ∷ steps) plain (low, all) = elim (Bool-cases (s.step_id == t)) [
  | inl e ↦ rw e (change_step-IsBelow rank ids change s plain low, all)
  | inr e ↦ rw e (low, changed-All rank ids t change steps plain all)
]

apply_action-HasRanks :
    (steps : List SkeletonStep) (action : MutationAction)
    → Fits steps action
    → HasRanks steps
    → HasRanks (apply_action steps action)
unfolding apply_action Fits HasRanks
apply_action-HasRanks steps (insert_after t none) fits ranks = ranks
apply_action-HasRanks steps (insert_after t (some step)) (fresh, own) (rank, dag) =
    insert_step_after-IsDag rank t step steps fresh dag own
apply_action-HasRanks steps (insert_before t none) fits ranks = ranks
apply_action-HasRanks steps (insert_before t (some step)) fresh (rank, dag) =
    insert_step_before-IsDag rank t step steps fresh dag
apply_action-HasRanks steps (remove t) fits (rank, dag) = (rank, remove_step-IsDag rank t steps dag)
apply_action-HasRanks steps (modify_field t none) fits ranks = ranks
apply_action-HasRanks steps (modify_field t (some change)) plain (rank, dag) = (
  rank,
  subst (λ ids. All (IsBelow rank ids) (replace_first t (change_step change) steps))
      (sym (
        replace_first-ids_of t (change_step change) steps
          (λ s. change_step-step_id change s plain)))
      (changed-All rank (ids_of steps) t change steps plain dag),
)

apply_actions-HasRanks :
    (steps : List SkeletonStep) (actions : List MutationAction)
    → FitAll steps actions
    → HasRanks steps
    → HasRanks (apply_actions steps actions)
unfolding apply_actions FitAll
apply_actions-HasRanks steps [] fits ranks = ranks
apply_actions-HasRanks steps (action ∷ actions) (fits, rest) ranks =
    apply_actions-HasRanks (apply_action steps action) actions rest
      (apply_action-HasRanks steps action fits ranks)

module _ {C : Type 0} (holds : C → Bool) where
  -- The actions of each rule that applies fit the steps that they meet.
  unfoldable pub FitRules : List SkeletonStep → List (MutationRule C) → Type 0
  FitRules steps [] = Unit
  FitRules steps (rule ∷ rules) =
      (all_hold holds rule.conditions ≡ true → FitAll steps rule.actions)
      × FitRules
          (if all_hold holds rule.conditions then apply_actions steps rule.actions else steps) rules

  apply_rules-HasRanks :
      (steps : List SkeletonStep) (rules : List (MutationRule C))
      → FitRules steps rules
      → HasRanks steps
      → HasRanks (apply_rules holds steps rules).0
  unfolding apply_rules FitRules
  apply_rules-HasRanks steps [] fits ranks = ranks
  apply_rules-HasRanks steps (rule ∷ rules) (fit, rest) ranks =
      elim (Bool-cases (all_hold holds rule.conditions)) [
        | inl e ↦
            rw (e, apply_rules)
              (apply_rules-HasRanks (apply_actions steps rule.actions) rules
                (subst (λ b. FitRules (if b then apply_actions steps rule.actions else steps) rules)
                  e rest)
                (apply_actions-HasRanks steps rule.actions (fit e) ranks))
        | inr e ↦
            rw (e, apply_rules)
              (apply_rules-HasRanks steps rules
                (subst (λ b. FitRules (if b then apply_actions steps rule.actions else steps) rules)
                  e rest)
                ranks)
      ]

  apply_rules-ids :
      (steps : List SkeletonStep) (rules : List (MutationRule C))
      → (apply_rules holds steps rules).1
        ≡ map (λ rule. rule.rule_id) (keep (λ rule. all_hold holds rule.conditions) rules)
  unfolding apply_rules keep
  apply_rules-ids steps [] = refl
  apply_rules-ids steps (rule ∷ rules) = elim (Bool-cases (all_hold holds rule.conditions)) [
    | inl e ↦
        rw (e, apply_rules)
          (ap (◌∷◌ rule.rule_id) (apply_rules-ids (apply_actions steps rule.actions) rules))
    | inr e ↦ rw (e, apply_rules) (apply_rules-ids steps rules)
  ]

  -- The rules that apply are those whose conditions all hold, by falling priority; and where each of
  -- their actions fits the steps that it meets, a skeleton whose dependencies are steps without a
  -- cycle becomes another one.
  pub apply_mutations-HasRanks :
      (steps : List SkeletonStep) (rules : List (MutationRule C))
      → ((rank : String → ℕ) × IsDag rank steps)
      → FitRules steps (sort_desc (λ rule. rule.priority) rules)
      → ((rank : String → ℕ) × IsDag rank (apply_mutations holds steps rules).0)
        × ((apply_mutations holds steps rules).1
            ≡ map
                (λ rule. rule.rule_id)
                (keep
                  (λ rule. all_hold holds rule.conditions)
                  (sort_desc (λ rule. rule.priority) rules)))
  unfolding apply_mutations HasRanks
  apply_mutations-HasRanks steps rules ranks fits = (
    apply_rules-HasRanks steps (sort_desc (λ rule. rule.priority) rules) fits ranks,
    apply_rules-ids steps (sort_desc (λ rule. rule.priority) rules),
  )

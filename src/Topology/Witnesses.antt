-- ===== src/Topology/Witnesses.antt =====
-- The theorem on skeletons at one of three steps, with a check behind the second.
use agentcy.Prelude.{
  get, none, ℕ, ◌≡◌, refl, String, Bool, true, false, List, [], ◌∷◌, some, string_eq, contains,
  keep, map, ◌==◌, if◌then◌else◌, arith,
}
use agentcy.Contracts.Ranking.{sort_desc, insert_desc}
use agentcy.Topology.Mutation.{
  SkeletonStep, MutationRule, insert_after, remove, apply_mutations, all_hold,
}
use agentcy.Topology.Conditions.{
  BusinessTemplate, number, Operator, MutationCondition, resolve_field, to_float, at_least,
  evaluate_condition,
}
use agentcy.Topology.Mutation.Dag.{IsDag}
use agentcy.Topology.Mutation.Rules.{Fits, FitAll, FitRules, apply_mutations-HasRanks}

abbrev step : String → List String → SkeletonStep
step step_id dependencies = record {
  step_id = step_id;
  role = "execute";
  name = step_id;
  is_entry = false;
  is_final = false;
  dependencies = dependencies;
}

abbrev steps : List SkeletonStep
steps = step "intake" [] ∷ step "classify" ("intake" ∷ []) ∷ step "decide" ("classify" ∷ []) ∷ []

abbrev template : BusinessTemplate
template = ("volume_per_day", number 500) ∷ []

abbrev asks : ℕ → MutationCondition
asks n = record { field = "volume_per_day" ∷ []; operator = Operator.gte; value = number n }

abbrev holds : MutationCondition → Bool
holds condition = evaluate_condition (λ s. none) template condition

abbrev rules : List (MutationRule MutationCondition)
rules =
    record {
      rule_id = "skip";
      conditions = asks 9000 ∷ [];
      actions = remove "intake" ∷ [];
      priority = 9;
    }
    ∷ record {
      rule_id = "check";
      conditions = asks 100 ∷ [];
      actions = insert_after "classify" (some (step "verify" [])) ∷ remove "classify" ∷ [];
      priority = 1;
    }
    ∷ []

abbrev rank : String → ℕ
rank s = if s == "intake" then 0 else (if s == "classify" then 1 else 2)

apply_mutations-HasRanks_example :
    ((rank' : String → ℕ) × IsDag rank' (apply_mutations holds steps rules).0)
    × ((apply_mutations holds steps rules).1
        ≡ map
            (λ rule. rule.rule_id)
            (keep
              (λ rule. all_hold holds rule.conditions)
              (sort_desc (λ rule. rule.priority) rules)))
unfolding sort_desc insert_desc all_hold FitRules FitAll Fits contains evaluate_condition
    resolve_field to_float at_least get
apply_mutations-HasRanks_example =
    apply_mutations-HasRanks holds steps rules
      (rank, (tt, (((refl, omega arith), tt), (((refl, omega arith), tt), tt))))
      (λ (e : false ≡ true). absurd (cc e), ((λ e. ((refl, tt), (tt, tt))), tt))

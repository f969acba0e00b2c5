-- ===== src/Topology/Mutation.antt =====
-- src/agentcy/cognitive/topology/mutation.py, with the steps and rules of
-- src/agentcy/pydantic_models/topology_models.py. Whether a condition holds is a parameter, which
-- Topology/Conditions fills. Priorities are counted from the least.
pub mod Dag
pub mod Insertion
pub mod Before
pub mod Removal
pub mod Rules
use agentcy.Prelude.{
  ℕ, zero, suc, String, Bool, true, false, not, List, [], ◌∷◌, ◌++◌, Option, none, some, map, ◌==◌,
  string_eq, contains, keep, if◌then◌else◌,
}
use agentcy.Contracts.Ranking.{sort_desc}

-- A step; the fields that no rewiring reads are `role`, `name` and the flags.
pub record SkeletonStep : Type 0 where
  pub step_id : String
  pub role : String
  pub name : String
  pub is_entry : Bool
  pub is_final : Bool
  pub dependencies : List String

-- The field that a rule sets, with its value; `unknown` is no field of a step.
pub data Change : Type 0 where
  set_step_id : String → Change
  set_role : String → Change
  set_name : String → Change
  set_is_entry : Bool → Change
  set_is_final : Bool → Change
  set_dependencies : List String → Change
  unknown : Change

-- An action relative to a step; an insertion without a step, or a change without a field, does
-- nothing.
pub data MutationAction : Type 0 where
  insert_after : (target_step_id : String) (step : Option SkeletonStep) → MutationAction
  insert_before : (target_step_id : String) (step : Option SkeletonStep) → MutationAction
  remove : (target_step_id : String) → MutationAction
  modify_field : (target_step_id : String) (change : Option Change) → MutationAction

pub record MutationRule (C : Type 0) : Type 0 where
  pub rule_id : String
  pub conditions : List C
  pub actions : List MutationAction
  pub priority : ℕ

unfoldable pub find_step_index : List SkeletonStep → String → Option ℕ
find_step_index [] step_id = none
find_step_index (s ∷ steps) step_id =
    let rest = find_step_index steps step_id in
    if s.step_id == step_id then some 0 else elim rest [ none ↦ none | some i ↦ some (suc i) ]

-- steps.insert(i, step)
unfoldable pub insert_at : ℕ → SkeletonStep → List SkeletonStep → List SkeletonStep
insert_at zero step steps = step ∷ steps
insert_at (suc i) step [] = step ∷ []
insert_at (suc i) step (s ∷ steps) = s ∷ insert_at i step steps

-- steps.pop(i)
unfoldable pub pop_at : ℕ → List SkeletonStep → List SkeletonStep
pop_at i [] = []
pop_at zero (s ∷ steps) = steps
pop_at (suc i) (s ∷ steps) = s ∷ pop_at i steps

-- The step with an identifier, the first of them.
unfoldable pub find_step : String → List SkeletonStep → Option SkeletonStep
find_step step_id [] = none
find_step step_id (s ∷ steps) =
    let rest = find_step step_id steps in if s.step_id == step_id then some s else rest

unfoldable pub replace_first :
    String → (SkeletonStep → SkeletonStep) → List SkeletonStep → List SkeletonStep
replace_first step_id f [] = []
replace_first step_id f (s ∷ steps) =
    let rest = replace_first step_id f steps in
    if s.step_id == step_id then f s ∷ steps else s ∷ rest

-- [new_step.step_id if d == target_id else d for d in deps]
unfoldable pub redirect : String → String → List String → List String
redirect target_id new_id deps = map (λ d. if d == target_id then new_id else d) deps

-- A step that depended on the target depends on the new step.
unfoldable pub rewire : String → String → SkeletonStep → SkeletonStep
rewire target_id new_id s =
    if s.step_id == new_id
    then s
    else (if contains target_id s.dependencies
        then record s { dependencies = redirect target_id new_id s.dependencies }
        else s)

-- The new step behind its target.
unfoldable pub behind : String → SkeletonStep → SkeletonStep
behind target_id step =
    if contains target_id step.dependencies
    then step
    else record step { dependencies = step.dependencies ++ target_id ∷ [] }

unfoldable pub insert_step_after : List SkeletonStep → String → SkeletonStep → List SkeletonStep
insert_step_after steps target_id step = elim (find_step_index steps target_id) [
  | none ↦ steps
  | some i ↦
      let new_step = behind target_id step in
      map (rewire target_id step.step_id) (insert_at (suc i) new_step steps)
]

-- The first step with the identifier of the target is looked for again once the new one is in the
-- list; a new step with that identifier is found itself.
unfoldable pub insert_step_before : List SkeletonStep → String → SkeletonStep → List SkeletonStep
insert_step_before steps target_id step = elim (find_step_index steps target_id) [
  | none ↦ steps
  | some i ↦ elim (find_step target_id (insert_at i step steps)) [
    | none ↦ insert_at i step steps
    | some target ↦
        replace_first target_id (λ s. record s { dependencies = step.step_id ∷ [] })
          (insert_at i (record step { dependencies = target.dependencies }) steps)
  ]
]

-- dict.fromkeys(deps)
unfoldable pub from_keys : List String → List String → List String
from_keys seen [] = []
from_keys seen (d ∷ deps) =
    let rest = from_keys (d ∷ seen) deps in
    if contains d seen then from_keys seen deps else d ∷ rest

-- A step that depended on the removed one depends on what that depended on.
unfoldable pub bypass : String → List String → SkeletonStep → SkeletonStep
bypass target_id removed_deps s =
    if contains target_id s.dependencies
    then record s {
      dependencies = from_keys [] (keep (λ d. not (d == target_id)) s.dependencies ++ removed_deps);
    }
    else s

unfoldable pub remove_step : List SkeletonStep → String → List SkeletonStep
remove_step steps target_id = elim (find_step_index steps target_id) [
  | none ↦ steps
  | some i ↦ elim (find_step target_id steps) [
    | none ↦ steps
    | some removed ↦ pop_at i (map (bypass target_id removed.dependencies) steps)
  ]
]

unfoldable pub change_step : Change → SkeletonStep → SkeletonStep
change_step (set_step_id v) s = record s { step_id = v }
change_step (set_role v) s = record s { role = v }
change_step (set_name v) s = record s { name = v }
change_step (set_is_entry v) s = record s { is_entry = v }
change_step (set_is_final v) s = record s { is_final = v }
change_step (set_dependencies v) s = record s { dependencies = v }
change_step unknown s = s

unfoldable pub apply_action : List SkeletonStep → MutationAction → List SkeletonStep
apply_action steps (insert_after target_id none) = steps
apply_action steps (insert_after target_id (some step)) = insert_step_after steps target_id step
apply_action steps (insert_before target_id none) = steps
apply_action steps (insert_before target_id (some step)) = insert_step_before steps target_id step
apply_action steps (remove target_id) = remove_step steps target_id
apply_action steps (modify_field target_id none) = steps
apply_action steps (modify_field target_id (some change)) =
    replace_first target_id (change_step change) steps

unfoldable pub apply_actions : List SkeletonStep → List MutationAction → List SkeletonStep
apply_actions steps [] = steps
apply_actions steps (action ∷ actions) = apply_actions (apply_action steps action) actions

module _ {C : Type 0} (holds : C → Bool) where
  unfoldable pub all_hold : List C → Bool
  all_hold [] = true
  all_hold (c ∷ cs) = let rest = all_hold cs in if holds c then rest else false

  unfoldable pub apply_rules :
      List SkeletonStep → List (MutationRule C) → List SkeletonStep × List String
  apply_rules steps [] = (steps, [])
  apply_rules steps (rule ∷ rules) = elim (all_hold rule.conditions) [
    | false ↦ apply_rules steps rules
    | true ↦
        let later = apply_rules (apply_actions steps rule.actions) rules in
        (later.0, rule.rule_id ∷ later.1)
  ]

  -- The steps of the mutated skeleton and the identifiers of the rules that were applied.
  unfoldable pub apply_mutations :
      List SkeletonStep → List (MutationRule C) → List SkeletonStep × List String
  apply_mutations steps rules = apply_rules steps (sort_desc (λ rule. rule.priority) rules)

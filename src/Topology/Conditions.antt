-- ===== src/Topology/Conditions.antt =====
-- `evaluate_condition` of src/agentcy/cognitive/topology/mutation.py, on the fields of a business
-- template (src/agentcy/pydantic_models/topology_models.py), none of which is a dictionary itself.
-- Numbers are whole and at least zero, and how Python reads a number in a string is given.
use agentcy.Prelude.{
  ℕ, String, Bool, true, false, not, ◌&&◌, List, [], ◌∷◌, Option, none, some, ◌==◌, string_eq,
  nat_eq, contains, Dict, get, leb,
}
use agentcy.Topology.Mutation.{SkeletonStep, MutationRule, apply_mutations}

-- The value of a field, or of a condition; `other` is a time, which equals none of these.
pub data Value : Type 0 where
  null : Value
  text : (s : String) → Value
  number : (n : ℕ) → Value
  flag : (b : Bool) → Value
  texts : (xs : List String) → Value
  other : Value

abbrev pub BusinessTemplate : Type 0
BusinessTemplate = Dict String Value

pub data Operator : Type 0 where
  eq neq is_in gte lte : Operator

-- `field` is the dotted path, in its parts.
pub record MutationCondition : Type 0 where
  pub field : List String
  pub operator : Operator
  pub value : Value

unfoldable pub resolve_field : BusinessTemplate → List String → Value
resolve_field template [] = null
resolve_field template (part ∷ []) = elim (get part template) [ none ↦ null | some v ↦ v ]
resolve_field template (part ∷ next ∷ parts) = null

abbrev texts_eq : List String → List String → Bool
texts_eq [] [] = true
texts_eq (x ∷ xs) (y ∷ ys) = x == y && texts_eq xs ys
texts_eq _ _ = false

-- Python counts True as 1 and False as 0.
abbrev pub as_number : Bool → ℕ
as_number true = 1
as_number false = 0

unfoldable pub value_eq : Value → Value → Bool
value_eq null null = true
value_eq (text a) (text b) = a == b
value_eq (number m) (number n) = m == n
value_eq (flag a) (flag b) = as_number a == as_number b
value_eq (flag a) (number n) = as_number a == n
value_eq (number m) (flag b) = m == as_number b
value_eq (texts xs) (texts ys) = texts_eq xs ys
value_eq _ _ = false

module _ (parse : String → Option ℕ) where
  -- float(value), `none` where it raises.
  unfoldable pub to_float : Value → Option ℕ
  to_float (number n) = some n
  to_float (flag b) = some (as_number b)
  to_float (text s) = parse s
  to_float _ = none

  -- a >= b on the numbers of two values.
  unfoldable pub at_least : Value → Value → Bool
  at_least a b = elim (to_float a) [
    | none ↦ false
    | some m ↦ elim (to_float b) [ none ↦ false | some n ↦ leb n m ]
  ]

  abbrev pub compare_with : Operator → Value → Value → Bool
  compare_with eq actual expected = value_eq actual expected
  compare_with neq actual expected = not (value_eq actual expected)
  compare_with is_in (texts xs) (text s) = contains s xs
  compare_with is_in _ _ = false
  compare_with gte actual expected = at_least actual expected
  compare_with lte actual expected = at_least expected actual

  unfoldable pub evaluate_condition : BusinessTemplate → MutationCondition → Bool
  evaluate_condition template condition =
      compare_with condition.operator (resolve_field template condition.field) condition.value

  -- The mutation of a skeleton for a template.
  unfoldable pub apply_to_template :
      BusinessTemplate
      → List SkeletonStep
      → List (MutationRule MutationCondition)
      → List SkeletonStep × List String
  apply_to_template template steps rules = apply_mutations (evaluate_condition template) steps rules

-- ===== src/Plans/Gate.antt =====
-- The verdicts on a plan: `validate_plan_draft` of
-- src/agentcy/agent_runtime/services/plan_validator.py, with the drafts of one user by plan, and
-- `validate_candidate_graph` of src/agentcy/agent_runtime/services/plan_revision_utils.py. The SHACL
-- engine and the review by a language model are parameters, `none` where there is no result. Of the
-- report the draft keeps the violations and the verdict. The draft is looked up by its plan.
pub mod Valid
use agentcy.Prelude.{
  String, Bool, true, false, ◌&&◌, List, [], ◌∷◌, Option, none, some, string_eq, Dict, get, put,
  if◌then◌else◌,
}
use agentcy.Plans.Graph.{GraphSpec}
use agentcy.Plans.Runtime.{Violation, validate_runtime_constraints}
use agentcy.Plans.Validator.{Fault, PlanSpec, validate_graph_spec}

pub record Draft : Type 0 where
  pub plan_id : String
  pub spec : PlanSpec
  pub is_valid : Bool
  pub violations : List Fault

-- `SHACL_ENABLE`, what the engine says, whether a provider of a language model is configured, and
-- whether its review approves.
pub record Reviewers : Type 0 where
  pub shacl_enabled : Bool
  pub shacl : PlanSpec → Option Bool
  pub llm_required : Bool
  pub review : PlanSpec → List Fault → Option Bool
  pub strip : String → String

-- How `validate_plan_draft` ends: with a `RuntimeError` for want of a store, with a `ValueError` for
-- want of a draft, or with the draft that it has saved.
pub data Validated : Type 0 where
  not_configured not_found : Validated
  saved : (draft : Draft) → Validated

abbrev is_nil {ℓ} : {A : Type ℓ} → List A → Bool
is_nil [] = true
is_nil (x ∷ xs) = false

abbrev or_true : Option Bool → Bool
or_true none = true
or_true (some b) = b

abbrev or_false : Option Bool → Bool
or_false none = false
or_false (some b) = b

unfoldable pub shacl_conforms : Reviewers → PlanSpec → Bool
shacl_conforms r spec = if r.shacl_enabled then or_true (r.shacl spec) else true

-- `_llm_review` is none without a provider.
unfoldable pub llm_gate : Reviewers → PlanSpec → List Fault → Bool
llm_gate r spec faults = if r.llm_required then or_false (r.review spec faults) else true

unfoldable pub judged : Reviewers → Draft → Draft
judged r draft =
    let faults = validate_graph_spec r.strip draft.spec in
    record draft {
      is_valid = is_nil faults && shacl_conforms r draft.spec && llm_gate r draft.spec faults;
      violations = faults;
    }

unfoldable pub validate_plan_draft :
    Reviewers → Option (Dict String Draft) → String → Option (Dict String Draft) × Validated
validate_plan_draft r none plan_id = (none, not_configured)
validate_plan_draft r (some store) plan_id = elim (get plan_id store) [
  | none ↦ (some store, not_found)
  | some draft ↦ (some (put draft.plan_id (judged r draft) store), saved (judged r draft))
]

-- The verdict on a revision; the engine is asked whatever `SHACL_ENABLE` says.
unfoldable validate_candidate_graph :
    Reviewers
    → (String → String)
    → PlanSpec
    → GraphSpec
    → Option (Dict String (Option String))
    → Bool
validate_candidate_graph r upper candidate base run =
    is_nil (validate_graph_spec r.strip candidate)
    && or_true (r.shacl candidate)
    && is_nil (validate_runtime_constraints upper base candidate.graph run)

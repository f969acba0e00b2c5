-- ===== src/Coalition/Executor.antt =====
-- `execute_coalition` of src/agentcy/agent_runtime/services/coalition_executor.py, with the contract
-- and the outcome of src/agentcy/pydantic_models/multi_agent_pipeline.py.
-- The clock and the callable that runs a step are the environment: the milliseconds that have passed
-- at the check before a step and when the code returns at a step, and what a call returns, `none`
-- where it raises. The numbers of the contract are at least zero. Beside the outcome stand the calls
-- that were made, which the code has in `step_results` as far as they succeed.
pub mod Calls
pub mod Handoffs
pub mod Accounts
use agentcy.Prelude.{
  ℕ, zero, suc, ◌+◌, ◌-◌, ◌%◌, String, Bool, true, false, not, ◌&&◌, List, [], ◌∷◌, ◌++◌, map,
  Option, none, some, ◌==◌, string_eq, get_elem?, length, ltb, nat_beq, truthy, if◌then◌else◌,
}

pub record Member : Type 0 where
  pub agent_id : String
  pub role : String

-- A contract, with the entries of `execution_plan`, `timeouts` and `fallback` that are read.
pub record Contract : Type 0 where
  pub coalition_id : String
  pub task_id : String
  pub members : List Member
  pub steps : List String
  pub max_handoffs : Option ℕ
  pub overall_ms : Option ℕ
  pub mode : Option String
  pub preferred_agent_id : Option String

pub data FailureState : Type 0 where
  partner_timeout handoff_validation_failed joint_policy_blocked : FailureState
  coalition_aborted fallback_to_solo partial_completion_unusable : FailureState

-- `quality` is the quality score in tenths.
pub record Outcome : Type 0 where
  pub coalition_id : String
  pub coalition_signature : String
  pub members : List String
  pub task_id : String
  pub task_signature : String
  pub success : Bool
  pub retries : ℕ
  pub handoff_failures : ℕ
  pub latency_ms : ℕ
  pub quality : ℕ
  pub failure_state : Option FailureState

pub record Call (P : Type 0) : Type 0 where
  pub agent : String
  pub step : String
  pub input : P

-- `signature` is the sorted join of the roles, and `step_name i` the string `step_{i}`.
pub record Env (P : Type 0) : Type 0 where
  pub elapsed : ℕ → ℕ
  pub elapsed_end : ℕ → ℕ
  pub run_step : ℕ → String → String → P → Option P
  pub signature : List String → String
  pub step_name : ℕ → String

abbrev or_default {ℓ} : {A : Type ℓ} → Option A → A → A
or_default none d = d
or_default (some a) d = a

abbrev pub max_of : Contract → ℕ
max_of contract = or_default contract.max_handoffs 2

abbrev pub overall_of : Contract → ℕ
overall_of contract = or_default contract.overall_ms 15000

abbrev pub mode_of : Contract → String
mode_of contract = or_default contract.mode "fail_fast"

-- contract.members[i % member_count], where the first member is given; the index is in range.
abbrev nth : Member → List Member → ℕ → Member
nth m members i = or_default (get_elem? members (i % length members)) m

-- The names of the steps from `i` on, one for each member.
unfoldable pub step_names : (ℕ → String) → ℕ → List Member → List String
step_names name i [] = []
step_names name i (m ∷ ms) = name i ∷ step_names name (suc i) ms

unfoldable pub steps_of : (ℕ → String) → Contract → List String
steps_of name contract = elim contract.steps [
  | [] ↦ step_names name 0 contract.members
  | s ∷ ss ↦ s ∷ ss
]

module _ {P : Type 0} (env : Env P) (contract : Contract) (message : P)
    (task_signature : String) where
  abbrev outcome : String → Bool → ℕ → ℕ → ℕ → ℕ → Option FailureState → Outcome
  outcome signature success retries failures latency quality state = record {
    coalition_id = contract.coalition_id;
    coalition_signature = signature;
    members = map (λ m. m.agent_id) contract.members;
    task_id = contract.task_id;
    task_signature = task_signature;
    success = success;
    retries = retries;
    handoff_failures = failures;
    latency_ms = latency;
    quality = quality;
    failure_state = state;
  }

  abbrev signature_of : String
  signature_of = env.signature (map (λ m. m.role) contract.members)

  -- The exit of a step that raised: the preferred agent, where the contract falls back to one.
  unfoldable pub aborted : ℕ → ℕ → Outcome
  aborted i failures =
      outcome signature_of false 0 failures (env.elapsed_end i) 0 (some coalition_aborted)

  unfoldable pub fall_back : ℕ → ℕ → Outcome × List (Call P)
  fall_back i failures =
      if mode_of contract == "degrade_to_solo"
      then (elim contract.preferred_agent_id [
        | none ↦ (aborted i failures, [])
        | some preferred ↦
            if truthy preferred
            then (
              elim (env.run_step (suc i) preferred "solo_fallback" message) [
                | none ↦ aborted i failures
                | some result ↦
                    outcome signature_of true 1 failures (env.elapsed_end i) 0
                      (some fallback_to_solo)
              ],
              record { agent = preferred; step = "solo_fallback"; input = message } ∷ [],
            )
            else (aborted i failures, [])
      ])
      else (aborted i failures, [])

  module _ (first : Member) where
    abbrev pub agent_at : ℕ → String
    agent_at i = (nth first contract.members i).agent_id

    -- A step goes to another agent than the step before it.
    abbrev pub hands_over : ℕ → Bool
    hands_over zero = false
    hands_over (suc i) = not (agent_at i == agent_at (suc i))

    -- `handoff_count` at a step, after the handoffs before it.
    unfoldable pub count_at : ℕ → ℕ → ℕ
    count_at i handoffs = if hands_over i then handoffs + 1 else handoffs

    -- The overall timeout has passed, and a handoff that is one too many.
    unfoldable pub is_late : ℕ → Bool
    is_late i = ltb (overall_of contract) (env.elapsed i)

    unfoldable pub is_over : ℕ → ℕ → Bool
    is_over i handoffs = hands_over i && ltb (max_of contract) (count_at i handoffs)

    abbrev pub call_at : ℕ → String → P → Call P
    call_at i step current = record { agent = agent_at i; step = step; input = current }

    -- The loop over the steps, at step `i` after `handoffs` handoffs. No step that has been taken
    -- failed, so `handoff_failures` and `retries` are zero until the loop is left.
    unfoldable pub run_steps : ℕ → ℕ → List String → P → Outcome × List (Call P)
    run_steps i handoffs [] current =
        (outcome signature_of true 0 0 (env.elapsed_end i) 10 none, [])
    run_steps i handoffs (step ∷ steps) current = elim (is_late i) [
      | true ↦ (outcome signature_of false 0 0 (env.elapsed i) 0 (some partner_timeout), [])
      | false ↦ elim (is_over i handoffs) [
        | true ↦ (
          outcome signature_of false 0 1 (env.elapsed_end i) 0 (some handoff_validation_failed),
          [],
        )
        | false ↦ elim (env.run_step i (agent_at i) step current) [
          | none ↦ let left = fall_back i 1 in (left.0, call_at i step current ∷ left.1)
          | some result ↦
              let left = run_steps (suc i) (count_at i handoffs) steps result in
              (left.0, call_at i step current ∷ left.1)
        ]
      ]
    ]

  unfoldable pub execute_with : List Member → Outcome × List (Call P)
  execute_with [] = (outcome "empty" false 0 0 0 0 (some coalition_aborted), [])
  execute_with (first ∷ others) = run_steps first 0 0 (steps_of env.step_name contract) message

  unfoldable pub execute_coalition : Outcome × List (Call P)
  execute_coalition = execute_with contract.members

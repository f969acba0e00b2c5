-- ===== src/Coalition/Executor/Handoffs.antt =====
-- The bound on the handoffs of a coalition.
use agentcy.Prelude.{
  ℕ, suc, ◌+◌, ◌≤◌, ◌≡◌, inl, inr, refl, String, false, not, List, [], ◌∷◌, arith, ◌==◌, string_eq,
  Option-cases, Bool-cases, if◌then◌else◌,
}
use agentcy.Coalition.Executor.{
  Member, Contract, Call, Env, max_of, steps_of, aborted, fall_back, agent_at, hands_over, count_at,
  is_late, is_over, run_steps, execute_with, execute_coalition,
}

-- How often the agent changes in the calls after one to `agent`, and in all calls.
unfoldable pub changes_after : {P : Type 0} → String → List (Call P) → ℕ
changes_after agent [] = 0
changes_after agent (call ∷ calls) =
    (if agent == call.agent then 0 else 1) + changes_after call.agent calls

unfoldable pub changes : {P : Type 0} → List (Call P) → ℕ
changes [] = 0
changes (call ∷ calls) = changes_after call.agent calls

module _ {P : Type 0} (env : Env P) (contract : Contract) (message : P)
    (task_signature : String) where
  fall_back-bounds :
      (agent : String) (i failures : ℕ)
      → (changes_after agent (fall_back env contract message task_signature i failures).1 ≤ 1)
        × ((fall_back env contract message task_signature i failures).0.handoff_failures ≡ failures)
  unfolding fall_back aborted changes_after
  fall_back-bounds agent i failures = ground arith

  -- The agent of the step before, where there is one.
  abbrev Follows : Member → ℕ → String → Type 0
  Follows first i agent =
      hands_over env contract message task_signature first i
      ≡ not (agent == agent_at env contract message task_signature first i)

  -- A handoff that is not one too many.
  count_bound :
      (first : Member) (i handoffs : ℕ) (agent : String)
      → Follows first i agent
      → handoffs ≤ max_of contract
      → is_over env contract message task_signature first i handoffs ≡ false
      → (count_at env contract message task_signature first i handoffs ≤ max_of contract)
        × (count_at env contract message task_signature first i handoffs
            ≡ handoffs
              + (if agent == agent_at env contract message task_signature first i then 0 else 1))
  unfolding is_over count_at
  count_bound first i handoffs agent after le within = ground (arith, after, le, within)

  run_steps-changes-le :
      (first : Member) (i handoffs : ℕ) (agent : String) (steps : List String) (current : P)
      → Follows first i agent
      → handoffs ≤ max_of contract
      → handoffs
          + changes_after agent
              (run_steps env contract message task_signature first i handoffs steps current).1
        ≤ max_of contract
          + (run_steps env contract message task_signature first i handoffs steps
              current).0.handoff_failures
  unfolding run_steps changes_after
  run_steps-changes-le first i handoffs agent [] current after le = omega (arith, le)
  run_steps-changes-le first i handoffs agent (step ∷ steps) current after le =
      elim (Bool-cases (is_late env contract message task_signature first i)) [
        | inl late ↦ rw (late, run_steps) (omega (arith, le))
        | inr timely ↦
            rw (timely, run_steps)
              (elim (Bool-cases (is_over env contract message task_signature first i handoffs)) [
                | inl over ↦ rw (over, run_steps) (omega (arith, le))
                | inr within ↦
                    rw (within, run_steps)
                      (elim (Option-cases (
                        env.run_step i (agent_at env contract message task_signature first i) step
                          current)) [
                            | inl raised ↦
                                rw (raised, run_steps)
                                  (ground (
                                    arith,
                                    after,
                                    le,
                                    count_bound first i handoffs agent after le within,
                                    fall_back-bounds
                                        (agent_at env contract message task_signature first i) i 1,
                                  ))
                            | inr (result, e) ↦
                                rw (e, run_steps)
                                  (ground (
                                    arith,
                                    after,
                                    le,
                                    count_bound first i handoffs agent after le within,
                                    run_steps-changes-le first (suc i)
                                        (count_at env contract message task_signature first i
                                          handoffs)
                                        (agent_at env contract message task_signature first i) steps
                                        result refl,
                                  ))
                          ])
              ])
      ]

  changes-le : (agent : String) (calls : List (Call P)) → changes calls ≤ changes_after agent calls
  unfolding changes changes_after
  changes-le agent [] = omega arith
  changes-le agent (call ∷ calls) = ground arith

  execute_with-changes-le :
      (members : List Member)
      → changes (execute_with env contract message task_signature members).1
        ≤ max_of contract
          + (execute_with env contract message task_signature members).0.handoff_failures
  unfolding execute_with changes
  execute_with-changes-le [] = omega arith
  execute_with-changes-le (first ∷ others) = ground (
    arith,
    changes-le (agent_at env contract message task_signature first 0)
        (run_steps env contract message task_signature first 0 0 (steps_of env.step_name contract)
          message).1,
    run_steps-changes-le first 0 0 (agent_at env contract message task_signature first 0)
        (steps_of env.step_name contract) message
        (ground (
          arith,
          string_eq.beq_iff (agent_at env contract message task_signature first 0)
              (agent_at env contract message task_signature first 0),
        ))
        (omega arith),
  )

  -- A coalition changes from one agent to another at most `max_handoffs` times, and once more for a
  -- failed handoff that the outcome counts, as where a step fails and the preferred agent takes over.
  pub execute_coalition-changes-le :
      changes (execute_coalition env contract message task_signature).1
      ≤ max_of contract + (execute_coalition env contract message task_signature).0.handoff_failures
  unfolding execute_coalition
  execute_coalition-changes-le = execute_with-changes-le contract.members

-- ===== src/Coalition/Executor/Calls.antt =====
-- The calls that a coalition makes: each step in its turn, on what the step before it returned.
use agentcy.Prelude.{
  ℕ, suc, ◌≡◌, inl, inr, refl, ap, sym, subst, String, true, List, [], ◌∷◌, none, some, arith,
  string_eq, Option-cases, Bool-cases,
}
use agentcy.Coalition.Executor.{
  Member, Contract, Outcome, Call, Env, steps_of, aborted, fall_back, agent_at, count_at, is_late,
  is_over, run_steps, execute_with, execute_coalition,
}

module _ {P : Type 0} (env : Env P) (contract : Contract) (message : P)
    (task_signature : String) where
  -- The calls of a run of the steps in which no step fails: each step goes to the member whose turn
  -- it is, the first on the given input and each other on what the step before it returned.
  unfoldable pub Chained : Member → ℕ → List String → P → List (Call P) → Type 0
  Chained first i [] current calls = calls ≡ []
  Chained first i (step ∷ steps) current calls =
      (result : P) × (rest : List (Call P)) × (calls
        ≡ record {
          agent = agent_at env contract message task_signature first i;
          step = step;
          input = current;
        }
          ∷ rest)
      × (env.run_step i (agent_at env contract message task_signature first i) step current
          ≡ some result)
      × Chained first (suc i) steps result rest

  -- An outcome of a run that was neither abandoned nor completed by the preferred agent.
  abbrev pub IsComplete : Outcome → Type 0
  IsComplete o = (o.success ≡ true) × (o.failure_state ≡ none)

  fall_back-incomplete :
      (i failures : ℕ)
      → (IsComplete (fall_back env contract message task_signature i failures).0)
      → ⊥
  unfolding fall_back aborted
  fall_back-incomplete i failures h = absurd (ground (arith, h))

  run_steps-Chained :
      (first : Member) (i handoffs : ℕ) (steps : List String) (current : P)
      → IsComplete (run_steps env contract message task_signature first i handoffs steps current).0
      → Chained first i steps current
          (run_steps env contract message task_signature first i handoffs steps current).1
  unfolding run_steps Chained
  run_steps-Chained first i handoffs [] current = λ h. refl
  run_steps-Chained first i handoffs (step ∷ steps) current =
      elim (Bool-cases (is_late env contract message task_signature first i)) [
        | inl late ↦ rw (late, run_steps) (λ h. absurd (ground (arith, h)))
        | inr timely ↦
            rw (timely, run_steps)
              (elim (Bool-cases (is_over env contract message task_signature first i handoffs)) [
                | inl over ↦ rw (over, run_steps) (λ h. absurd (ground (arith, h)))
                | inr within ↦
                    rw (within, run_steps)
                      (elim (Option-cases (
                        env.run_step i (agent_at env contract message task_signature first i) step
                          current)) [
                            | inl raised ↦
                                rw (raised, run_steps) (λ h. absurd (fall_back-incomplete i 1 h))
                            | inr (result, e) ↦
                                rw (e, run_steps)
                                  (λ h. (
                                    result,
                                    (run_steps env contract message task_signature first (suc i)
                                        (count_at env contract message task_signature first i
                                          handoffs)
                                        steps result).1,
                                    refl,
                                    refl,
                                    run_steps-Chained first (suc i)
                                        (count_at env contract message task_signature first i
                                          handoffs)
                                        steps result h,
                                  ))
                          ])
              ])
      ]

  -- A coalition that succeeds on its own has run all steps of its plan, in order, each at the member
  -- whose turn it is and on the output of the step before it, the first step on the message.
  pub execute_coalition-Chained :
      (first : Member) (others : List Member)
      → contract.members ≡ first ∷ others
      → IsComplete (execute_coalition env contract message task_signature).0
      → Chained first 0
          (steps_of env.step_name contract)
          message
          (execute_coalition env contract message task_signature).1
  unfolding execute_coalition execute_with
  execute_coalition-Chained first others e =
      subst (λ r. IsComplete r.0 → Chained first 0 (steps_of env.step_name contract) message r.1)
        (sym (ap (execute_with env contract message task_signature) e))
        (run_steps-Chained first 0 0 (steps_of env.step_name contract) message)

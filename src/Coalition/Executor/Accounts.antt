-- ===== src/Coalition/Executor/Accounts.antt =====
-- What the outcome of a coalition says.
use agentcy.Prelude.{
  ℕ, suc, ◌≤◌, ◌≡◌, ◌≢◌, ◌⊎◌, inl, inr, refl, String, true, false, List, [], ◌∷◌, none, some, arith,
  string_eq, Option-cases, Bool-cases,
}
use agentcy.Coalition.Executor.{
  Member, Contract, Outcome, Env, fallback_to_solo, coalition_aborted, steps_of, aborted, fall_back,
  agent_at, count_at, is_late, is_over, run_steps, execute_with, execute_coalition,
}

-- A success on its own, a success of the preferred agent, or a failure.
abbrev pub IsAccounted : Outcome → Type 0
IsAccounted o =
    ((o.success ≡ true)
      × (o.failure_state ≡ none)
      × (o.retries ≡ 0)
      × (o.handoff_failures ≡ 0)
      × (o.quality ≡ 10))
    ⊎ (((o.success ≡ true)
          × (o.failure_state ≡ some fallback_to_solo)
          × (o.retries ≡ 1)
          × (o.handoff_failures ≡ 1)
          × (o.quality ≡ 0))
        ⊎ ((o.success ≡ false)
            × (o.failure_state ≢ none)
            × (o.retries ≡ 0)
            × (o.handoff_failures ≤ 1)
            × (o.quality ≡ 0)))

module _ {P : Type 0} (env : Env P) (contract : Contract) (message : P)
    (task_signature : String) where
  some≢none : {A : Type 0} (a : A) → some a ≢ none
  some≢none a e = absurd (ground (arith, e))

  fall_back-IsAccounted :
      (i : ℕ) → IsAccounted (fall_back env contract message task_signature i 1).0
  unfolding fall_back aborted
  fall_back-IsAccounted i = ground (arith, some≢none coalition_aborted)

  run_steps-IsAccounted :
      (first : Member) (i handoffs : ℕ) (steps : List String) (current : P)
      → IsAccounted (run_steps env contract message task_signature first i handoffs steps current).0
  unfolding run_steps
  run_steps-IsAccounted first i handoffs [] current = inl (refl, refl, refl, refl, refl)
  run_steps-IsAccounted first i handoffs (step ∷ steps) current =
      elim (Bool-cases (is_late env contract message task_signature first i)) [
        | inl late ↦
            rw (late, run_steps) (inr (inr (refl, (λ e. some≢none _ e), refl, omega arith, refl)))
        | inr timely ↦
            rw (timely, run_steps)
              (elim (Bool-cases (is_over env contract message task_signature first i handoffs)) [
                | inl over ↦
                    rw (over, run_steps)
                      (inr (inr (refl, (λ e. some≢none _ e), refl, omega arith, refl)))
                | inr within ↦
                    rw (within, run_steps)
                      (elim (Option-cases (
                        env.run_step i (agent_at env contract message task_signature first i) step
                          current)) [
                            | inl raised ↦ rw (raised, run_steps) (fall_back-IsAccounted i)
                            | inr (result, e) ↦
                                rw (e, run_steps)
                                  (run_steps-IsAccounted first (suc i)
                                    (count_at env contract message task_signature first i handoffs)
                                    steps result)
                          ])
              ])
      ]

  execute_with-IsAccounted :
      (members : List Member)
      → IsAccounted (execute_with env contract message task_signature members).0
  unfolding execute_with
  execute_with-IsAccounted [] = inr (inr (refl, (λ e. some≢none _ e), refl, omega arith, refl))
  execute_with-IsAccounted (first ∷ others) =
      run_steps-IsAccounted first 0 0 (steps_of env.step_name contract) message

  -- Every outcome is one of three: a success of the coalition, with no retry, no failed handoff and
  -- the full quality score; a success of the preferred agent, with one retry, one failed handoff and
  -- no quality score; or a failure with its failure state, without retries, with one failed handoff
  -- at most and no quality score.
  pub execute_coalition-IsAccounted :
      IsAccounted (execute_coalition env contract message task_signature).0
  unfolding execute_coalition
  execute_coalition-IsAccounted = execute_with-IsAccounted contract.members

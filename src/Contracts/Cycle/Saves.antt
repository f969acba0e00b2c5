-- ===== src/Contracts/Cycle/Saves.antt =====
-- The states of a cycle that are saved, and how it ends.
use agentcy.Prelude.{
  ℕ, zero, suc, ◌+◌, ◌≡◌, refl, ◌∙◌, ap, List, [], ◌∷◌, ◌++◌, Option, none, some, arith, Bool-cases,
  Option-cases, inl, inr, ◌⊎◌,
}
use agentcy.Contracts.Cycle.Rounds.{Ran, run_rounds-runs}
use agentcy.Contracts.Cycle.{
  CycleStatus, bidding, awarding, completed, failed, CycleState, Effect, saved, Env, Command, Built,
  summary_of, is_covered, after_round, round_effects, run_rounds, rounds_of, first_state,
  award_phase, handle_run_cnp_cycle,
}

-- The statuses of the saved states, in their order.
unfoldable pub statuses : List Effect → List CycleStatus
statuses [] = []
statuses (saved cycle ∷ effects) = cycle.status ∷ statuses effects
statuses (Effect.cycle_started count max ∷ effects) = statuses effects
statuses (Effect.cfp_broadcast round ids stimulus ∷ effects) = statuses effects
statuses (Effect.round_completed summary ∷ effects) = statuses effects
statuses (Effect.cycle_completed plan rounds bids awarded unawarded ∷ effects) = statuses effects

abbrev pub repeat : ℕ → CycleStatus → List CycleStatus
repeat zero s = []
repeat (suc n) s = s ∷ repeat n s

-- The status that a cycle ends with.
abbrev pub final_status : Option Built → CycleStatus
final_status none = failed
final_status (some plan) = completed

statuses-append : (xs ys : List Effect) → statuses (xs ++ ys) ≡ statuses xs ++ statuses ys
unfolding statuses
statuses-append [] ys = refl
statuses-append (saved cycle ∷ xs) ys = ap (◌∷◌ cycle.status) (statuses-append xs ys)
statuses-append (Effect.cycle_started count max ∷ xs) ys = statuses-append xs ys
statuses-append (Effect.cfp_broadcast round ids stimulus ∷ xs) ys = statuses-append xs ys
statuses-append (Effect.round_completed summary ∷ xs) ys = statuses-append xs ys
statuses-append (Effect.cycle_completed plan rounds bids awarded unawarded ∷ xs) ys =
    statuses-append xs ys

pub nat_cases : (n : ℕ) → (n ≡ 0) ⊎ ((m : ℕ) × (n ≡ suc m))
nat_cases zero = inl refl
nat_cases (suc n) = inr (n, refl)

module _ (env : Env) (cmd : Command) where
  statuses-round_effects :
      (round : ℕ) (cycle : CycleState)
      → statuses (round_effects env cmd round cycle) ≡ cycle.status ∷ []
  unfolding statuses round_effects after_round
  statuses-round_effects round cycle = refl

  statuses-run_rounds :
      (left round : ℕ) (cycle : CycleState)
      → cycle.status ≡ bidding
      → round ≡ cycle.current_round + 1
      → (n : ℕ) × ((run_rounds env cmd left round cycle).0.current_round ≡ cycle.current_round + n)
        × (statuses (run_rounds env cmd left round cycle).1 ≡ repeat n bidding)
  unfolding run_rounds statuses after_round
  statuses-run_rounds zero round cycle e next = (0, omega arith, refl)
  statuses-run_rounds (suc left) round cycle e next =
      elim (Bool-cases (is_covered (summary_of env cmd round))) [
        | inl covered ↦
            rw covered (1, next, statuses-round_effects round cycle ∙ ap (λ s. s ∷ []) e)
        | inr waiting ↦ rw waiting (
            let (n, last, same) =
              statuses-run_rounds left (suc round) (after_round env cmd round cycle) e
                (omega arith) in
            (
              suc n,
              omega (arith, last, next),
              statuses-append (round_effects env cmd round cycle) _
                  ∙ ap
                      (λ l.
                        l
                        ++ statuses
                            (run_rounds env cmd left (suc round)
                              (after_round env cmd round cycle)).1)
                      (statuses-round_effects round cycle)
                  ∙ rw same (ap (λ s. s ∷ repeat n bidding) e),
            ))
      ]

  statuses-award_phase :
      (cycle : CycleState)
      → statuses (award_phase env cmd cycle).1 ≡ awarding ∷ final_status env.built ∷ []
  unfolding statuses award_phase
  statuses-award_phase cycle = elim (Option-cases env.built) [
    | inl e ↦ rw (e, award_phase) refl
    | inr (plan, e) ↦
        rw (e, award_phase)
          (elim (nat_cases (rounds_of env cmd)) [
            | inl none_left ↦ rw none_left refl
            | inr (n, more) ↦ rw more refl
          ])
  ]

  -- A cycle runs some rounds, as `Ran` says, and saves its state as bidding once at the start and once
  -- after each of these rounds, then as awarding, and last as completed, or as failed where the graph
  -- builder fails.
  pub statuses-handle_run_cnp_cycle :
      (n : ℕ) × Ran env cmd
        (rounds_of env cmd)
        1
        (first_state env cmd)
        (run_rounds env cmd (rounds_of env cmd) 1 (first_state env cmd)).0
        n
      × (statuses (handle_run_cnp_cycle env cmd).1
          ≡ repeat (suc n) bidding ++ awarding ∷ final_status env.built ∷ [])
  unfolding handle_run_cnp_cycle statuses
  statuses-handle_run_cnp_cycle =
      let (n, ran) = run_rounds-runs env cmd in
      let (m, last, same) =
        statuses-run_rounds (rounds_of env cmd) 1 (first_state env cmd) refl refl in
      let e : m ≡ n = omega (arith, last, ran.last) in
      (
        n,
        ran,
        ap (◌∷◌ bidding) (
            statuses-append (run_rounds env cmd (rounds_of env cmd) 1 (first_state env cmd)).1 _
            ∙ rw same (rw (statuses-award_phase, e) refl)),
      )

-- ===== src/Contracts/Cycle/Ends.antt =====
-- How a cycle ends: its last saved state, its reply and its last event.
use agentcy.Prelude.{
  ℕ, zero, suc, ◌+◌, ◌<◌, ◌≡◌, refl, sym, subst, true, List, [], ◌∷◌, ◌++◌, Option, none, some,
  arith, Bool-cases, Option-cases, inl, inr, ◌⊎◌,
}
use agentcy.Contracts.Cycle.{
  CycleStatus, completed, failed, CycleState, Effect, saved, Env, Command, Reply, returned,
  unbound_variable, summary_of, is_covered, after_round, round_effects, run_rounds, rounds_of,
  task_count, first_state, award_phase, handle_run_cnp_cycle,
}
use agentcy.Contracts.Cycle.Saves.{final_status, nat_cases}

-- The state that is saved last.
unfoldable pub last_saved : List Effect → Option CycleState
last_saved [] = none
last_saved (saved cycle ∷ effects) = elim (last_saved effects) [
  | none ↦ some cycle
  | some later ↦ some later
]
last_saved (Effect.cycle_started count max ∷ effects) = last_saved effects
last_saved (Effect.cfp_broadcast round ids stimulus ∷ effects) = last_saved effects
last_saved (Effect.round_completed summary ∷ effects) = last_saved effects
last_saved (Effect.cycle_completed plan rounds bids awarded unawarded ∷ effects) =
    last_saved effects

-- How many events say that the cycle is completed.
unfoldable pub completions : List Effect → ℕ
completions [] = 0
completions (saved cycle ∷ effects) = completions effects
completions (Effect.cycle_started count max ∷ effects) = completions effects
completions (Effect.cfp_broadcast round ids stimulus ∷ effects) = completions effects
completions (Effect.round_completed summary ∷ effects) = completions effects
completions (Effect.cycle_completed plan rounds bids awarded unawarded ∷ effects) =
    suc (completions effects)

last_saved-append :
    (xs ys : List Effect) (c : CycleState) → last_saved ys ≡ some c → last_saved (xs ++ ys) ≡ some c
unfolding last_saved
last_saved-append [] ys c e = e
last_saved-append (saved cycle ∷ xs) ys c e = rw (last_saved-append xs ys c e, last_saved) refl
last_saved-append (Effect.cycle_started count max ∷ xs) ys c e = last_saved-append xs ys c e
last_saved-append (Effect.cfp_broadcast round ids stimulus ∷ xs) ys c e =
    last_saved-append xs ys c e
last_saved-append (Effect.round_completed summary ∷ xs) ys c e = last_saved-append xs ys c e
last_saved-append (Effect.cycle_completed plan rounds bids awarded unawarded ∷ xs) ys c e =
    last_saved-append xs ys c e

completions-append :
    (xs ys : List Effect) → completions (xs ++ ys) ≡ completions xs + completions ys
unfolding completions
completions-append [] ys = omega arith
completions-append (saved cycle ∷ xs) ys = completions-append xs ys
completions-append (Effect.cycle_started count max ∷ xs) ys = completions-append xs ys
completions-append (Effect.cfp_broadcast round ids stimulus ∷ xs) ys = completions-append xs ys
completions-append (Effect.round_completed summary ∷ xs) ys = completions-append xs ys
completions-append (Effect.cycle_completed plan rounds bids awarded unawarded ∷ xs) ys =
    omega (arith, completions-append xs ys)

-- The handler returns the state `c`, and has sent one event of completion if the state is completed
-- and none else; a completed state has had a round.
pub record Returns (rounds : ℕ) (c : CycleState) (reply : Reply) (sent : ℕ) : Type 0 where
  pub answer : reply ≡ returned c
  pub announced : c.status ≡ completed → sent ≡ 1
  pub silent : c.status ≡ failed → sent ≡ 0
  pub has_round : c.status ≡ completed → 0 < rounds

-- The handler raises after a cycle without rounds that is completed, and has not sent the event.
pub record Raises (rounds : ℕ) (c : CycleState) (reply : Reply) (sent : ℕ) : Type 0 where
  pub answer : reply ≡ unbound_variable
  pub unannounced : sent ≡ 0
  pub no_round : rounds ≡ 0
  pub done : c.status ≡ completed

-- The end of a cycle of at most `rounds` rounds and of the given status.
pub record Ended (rounds : ℕ) (ending : CycleStatus) (reply : Reply) (effects : List Effect)
    (c : CycleState) : Type 0 where
  pub stored : last_saved effects ≡ some c
  pub over : c.is_over ≡ true
  pub status : c.status ≡ ending
  pub ends :
      Returns rounds c reply (completions effects) ⊎ Raises rounds c reply (completions effects)

module _ (env : Env) (cmd : Command) where
  completions-run_rounds :
      (left round : ℕ) (cycle : CycleState)
      → completions (run_rounds env cmd left round cycle).1 ≡ 0
  unfolding run_rounds completions round_effects
  completions-run_rounds zero round cycle = refl
  completions-run_rounds (suc left) round cycle =
      let rest = completions-run_rounds left (suc round) (after_round env cmd round cycle) in
      elim (Bool-cases (is_covered (summary_of env cmd round))) [
        | inl covered ↦ rw covered refl
        | inr waiting ↦ rw waiting rest
      ]

  award_phase-Ended :
      (cycle : CycleState)
      → (c : CycleState) × Ended
          (rounds_of env cmd)
          (final_status env.built)
          (award_phase env cmd cycle).0
          (award_phase env cmd cycle).1
          c
  unfolding award_phase last_saved completions rounds_of
  award_phase-Ended cycle = elim (Option-cases env.built) [
    | inl e ↦
        rw (e, award_phase)
          (
            _,
            record {
              stored = refl;
              over = refl;
              status = refl;
              ends = inl (record {
                answer = refl;
                announced = λ h. absurd (cc h);
                silent = λ h. refl;
                has_round = λ h. absurd (cc h);
              });
            },
          )
    | inr (plan, e) ↦
        rw (e, award_phase)
          (elim (nat_cases (rounds_of env cmd)) [
            | inl none_left ↦ rw none_left (
              _,
              record {
                stored = refl;
                over = refl;
                status = refl;
                ends =
                    inr
                      (record { answer = refl; unannounced = refl; no_round = refl; done = refl });
              },
            )
            | inr (n, more) ↦ rw more (
              _,
              record {
                stored = refl;
                over = refl;
                status = refl;
                ends = inl (record {
                  answer = refl;
                  announced = λ h. refl;
                  silent = λ h. absurd (cc h);
                  has_round = λ h. omega arith;
                });
              },
            )
          ])
  ]

  -- The last state that a cycle saves is over, and completed or failed as the graph builder has
  -- succeeded or not. Either the handler returns this state, with one event of completion where it is
  -- completed, after at least one allowed round, and with none where it has failed; or no round is
  -- allowed, the state is completed, and the handler raises without the event.
  pub handle_run_cnp_cycle-Ended :
      (c : CycleState) × Ended
        (rounds_of env cmd)
        (final_status env.built)
        (handle_run_cnp_cycle env cmd).0
        (handle_run_cnp_cycle env cmd).1
        c
  unfolding handle_run_cnp_cycle last_saved completions
  handle_run_cnp_cycle-Ended =
      let rounds = run_rounds env cmd (rounds_of env cmd) 1 (first_state env cmd) in
      let (c, ended) = award_phase-Ended rounds.0 in (c, lifted c ended)
    where
      count :
          completions (handle_run_cnp_cycle env cmd).1
          ≡ completions
              (award_phase env cmd
                (run_rounds env cmd (rounds_of env cmd) 1 (first_state env cmd)).0).1
      count = omega (
        arith,
        completions-append (run_rounds env cmd (rounds_of env cmd) 1 (first_state env cmd)).1
            (award_phase env cmd
              (run_rounds env cmd (rounds_of env cmd) 1 (first_state env cmd)).0).1,
        completions-run_rounds (rounds_of env cmd) 1 (first_state env cmd),
      )

      lifted :
          (c : CycleState)
          → Ended
              (rounds_of env cmd)
              (final_status env.built)
              (award_phase env cmd
                (run_rounds env cmd (rounds_of env cmd) 1 (first_state env cmd)).0).0
              (award_phase env cmd
                (run_rounds env cmd (rounds_of env cmd) 1 (first_state env cmd)).0).1
              c
          → Ended
              (rounds_of env cmd)
              (final_status env.built)
              (handle_run_cnp_cycle env cmd).0
              (handle_run_cnp_cycle env cmd).1
              c
      lifted c ended = record {
        stored =
            last_saved-append
              (saved (first_state env cmd)
                ∷ Effect.cycle_started (task_count env cmd) (rounds_of env cmd)
                ∷ (run_rounds env cmd (rounds_of env cmd) 1 (first_state env cmd)).1)
              (award_phase env cmd
                (run_rounds env cmd (rounds_of env cmd) 1 (first_state env cmd)).0).1
              c ended.stored;
        over = ended.over;
        status = ended.status;
        ends =
            subst
              (λ k.
                Returns (rounds_of env cmd) c (handle_run_cnp_cycle env cmd).0 k
                ⊎ Raises (rounds_of env cmd) c (handle_run_cnp_cycle env cmd).0 k)
              (sym count) ended.ends;
      }

-- ===== src/Contracts/Cycle/Rounds.antt =====
-- The rounds that a cycle runs.
use agentcy.Prelude.{
  ℕ, zero, suc, ◌+◌, ◌≤◌, ◌<◌, ◌≡◌, refl, sym, ◌∙◌, ap, ◌⊎◌, inl, inr, true, false, List, [], ◌∷◌,
  ◌++◌, arith, append-nil, append_assoc, Bool-cases,
}
use agentcy.Contracts.Cycle.{
  RoundSummary, CycleState, Env, Command, summary_of, is_covered, after_round, run_rounds,
  rounds_of, first_state,
}

-- The summaries of `n` rounds from `round` on.
unfoldable pub summaries : Env → Command → ℕ → ℕ → List RoundSummary
summaries env cmd round zero = []
summaries env cmd round (suc n) = summary_of env cmd round ∷ summaries env cmd (suc round) n

unfoldable pub bids_in : List RoundSummary → ℕ
bids_in [] = 0
bids_in (s ∷ ss) = s.bids_collected + bids_in ss

-- Of `n` rounds from `round` on, none but the last covers all tasks.
unfoldable pub Waits : Env → Command → ℕ → ℕ → Type 0
Waits env cmd round zero = Unit
Waits env cmd round (suc zero) = Unit
Waits env cmd round (suc (suc n)) =
    (is_covered (summary_of env cmd round) ≡ false) × Waits env cmd (suc round) (suc n)

-- The last of `n` rounds from `round` on covers all tasks.
unfoldable pub EndsCovered : Env → Command → ℕ → ℕ → Type 0
EndsCovered env cmd round zero = ⊥
EndsCovered env cmd round (suc zero) = is_covered (summary_of env cmd round) ≡ true
EndsCovered env cmd round (suc (suc n)) = EndsCovered env cmd (suc round) (suc n)

-- What `n` of at most `left` rounds have made of a state.
pub record Ran (env : Env) (cmd : Command) (left round : ℕ) (before after : CycleState) (n : ℕ)
    : Type 0 where
  pub bound : n ≤ left
  pub some_round : 0 < left → 0 < n
  pub history : after.round_history ≡ before.round_history ++ summaries env cmd round n
  pub total : after.total_bids ≡ before.total_bids + bids_in (summaries env cmd round n)
  pub last : after.current_round ≡ before.current_round + n
  pub waits : Waits env cmd round n
  pub ends : (n ≡ left) ⊎ EndsCovered env cmd round n

module _ (env : Env) (cmd : Command) where
  one_round :
      (left round : ℕ) (cycle : CycleState)
      → round ≡ cycle.current_round + 1
      → (1 ≡ suc left) ⊎ (is_covered (summary_of env cmd round) ≡ true)
      → Ran env cmd (suc left) round cycle (after_round env cmd round cycle) 1
  unfolding after_round summaries bids_in Waits EndsCovered summary_of
  one_round left round cycle next ends = record {
    bound = omega arith;
    some_round = λ p. omega arith;
    history = refl;
    total = omega arith;
    last = next;
    waits = tt;
    ends = ends;
  }

  one_more :
      (left round : ℕ) (cycle after : CycleState) (n : ℕ)
      → round ≡ cycle.current_round + 1
      → is_covered (summary_of env cmd round) ≡ false
      → Ran env cmd left (suc round) (after_round env cmd round cycle) after (suc n)
      → Ran env cmd (suc left) round cycle after (suc (suc n))
  unfolding after_round summaries bids_in Waits EndsCovered summary_of
  one_more left round cycle after n next waiting ran = record {
    bound = omega (arith, ran.bound);
    some_round = λ p. omega arith;
    history = ran.history ∙ append_assoc cycle.round_history (summary_of env cmd round ∷ []) _;
    total = omega (arith, ran.total);
    last = omega (arith, ran.last, next);
    waits = (waiting, ran.waits);
    ends = elim ran.ends [ inl e ↦ inl (ap suc e) | inr c ↦ inr c ];
  }

  grow :
      (left round : ℕ) (cycle after : CycleState)
      → round ≡ cycle.current_round + 1
      → is_covered (summary_of env cmd round) ≡ false
      → (n : ℕ) × Ran env cmd (suc left) (suc round) (after_round env cmd round cycle) after n
      → (n : ℕ) × Ran env cmd (suc (suc left)) round cycle after n
  grow left round cycle after next waiting (zero, ran) =
      absurd (omega (arith, ran.some_round (omega arith)))
  grow left round cycle after next waiting (suc n, ran) =
      (suc (suc n), one_more (suc left) round cycle after n next waiting ran)

  run_rounds-Ran :
      (left round : ℕ) (cycle : CycleState)
      → round ≡ cycle.current_round + 1
      → (n : ℕ) × Ran env cmd left round cycle (run_rounds env cmd left round cycle).0 n
  unfolding run_rounds after_round summaries bids_in Waits
  run_rounds-Ran zero round cycle next = (
    0,
    (record {
      bound = omega arith;
      some_round = λ p. absurd (omega (arith, p));
      history = sym (append-nil cycle.round_history);
      total = omega arith;
      last = omega arith;
      waits = tt;
      ends = inl refl;
    }),
  )
  run_rounds-Ran (suc zero) round cycle next = (
    1,
    elim (Bool-cases (is_covered (summary_of env cmd round))) [
      | inl e ↦ rw e (one_round 0 round cycle next (inr e))
      | inr e ↦ rw e (one_round 0 round cycle next (inl refl))
    ],
  )
  run_rounds-Ran (suc (suc left)) round cycle next =
      elim (Bool-cases (is_covered (summary_of env cmd round))) [
        | inl e ↦ rw e (1, one_round (suc left) round cycle next (inr e))
        | inr e ↦ rw e (
            grow left round cycle _ next e (
              run_rounds-Ran (suc left) (suc round) (after_round env cmd round cycle)
                (omega arith)))
      ]

  pub run_rounds-runs :
      (n : ℕ) × Ran env cmd
        (rounds_of env cmd)
        1
        (first_state env cmd)
        (run_rounds env cmd (rounds_of env cmd) 1 (first_state env cmd)).0
        n
  run_rounds-runs = run_rounds-Ran (rounds_of env cmd) 1 (first_state env cmd) refl

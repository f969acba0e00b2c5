-- ===== src/Contracts/Cycle.antt =====
-- `handle_run_cnp_cycle` of src/agentcy/orchestrator_core/consumers/cnp_manager.py: rounds of bids
-- until every task has one, the award phase, and the state of the cycle that is saved on the way.
-- What the bidder, the store of bids and the graph builder answer is given, `none` where they raise.
-- Not modelled: the pauses between rounds, the time stamps and the seeding of paths, which changes
-- nothing here. The limits of rounds, of the command and of the settings, are at least zero.
pub mod Rounds
pub mod Saves
pub mod Ends
use agentcy.Prelude.{
  ℕ, zero, suc, ◌+◌, ◌-◌, String, Bool, true, false, not, ◌&&◌, List, [], ◌∷◌, ◌++◌, Option, none,
  some, ◌==◌, string_eq, contains, keep, length, leb, ltb, nat_beq, if◌then◌else◌,
}

pub data CycleStatus : Type 0 where
  started bidding awarding completed failed : CycleStatus

-- An entry of `round_history`.
pub record RoundSummary : Type 0 where
  pub round : ℕ
  pub bids_collected : ℕ
  pub cfps_created : ℕ
  pub tasks_with_bids : ℕ
  pub tasks_without_bids : ℕ
  pub stimulus : ℕ

pub record CycleState : Type 0 where
  pub status : CycleStatus
  pub task_ids : List String
  pub current_round : ℕ
  pub max_rounds : ℕ
  pub total_bids : ℕ
  pub plan_id : Option String
  pub round_history : List RoundSummary
  pub error : Option String
  pub is_over : Bool

-- The counts of an answer of the bidder; the stimulus is in millionths.
pub record BidResult : Type 0 where
  pub bids_created : ℕ
  pub cfps_created : ℕ
  pub cfp_ids : List String
  pub stimulus : ℕ

-- The plan that the builder returns, with the number of entries of `assignments` in its graph.
pub record Built : Type 0 where
  pub plan_id : String
  pub assignments : ℕ

-- `bid_round` and `bids_after` are the bidder's answer in a round and the tasks of all bids then.
pub record Env : Type 0 where
  pub bid_round : ℕ → Option BidResult
  pub bids_after : ℕ → Option (List String)
  pub task_specs : Option ℕ
  pub built : Option Built
  pub default_rounds : ℕ

pub record Command : Type 0 where
  pub task_ids : List String
  pub max_rounds : ℕ

-- An integer: `negsuc n` is -(n + 1).
pub data ℤ : Type 0 where
  pos negsuc : ℕ → ℤ

-- The difference of two counts, which may be below zero.
unfoldable pub sub_nat : ℕ → ℕ → ℤ
sub_nat m n = if leb n m then pos (m - n) else negsuc (n - m - 1)

-- What the handler does to the outside: a saved state, or an event with its counts.
pub data Effect : Type 0 where
  saved : CycleState → Effect
  cycle_started : (task_count max_rounds : ℕ) → Effect
  cfp_broadcast : (round : ℕ) (cfp_ids : List String) (stimulus : ℕ) → Effect
  round_completed : RoundSummary → Effect
  cycle_completed :
      (plan_id : Option String) (rounds bids tasks_awarded : ℕ) (tasks_unawarded : ℤ) → Effect

pub data Reply : Type 0 where
  returned : CycleState → Reply
  unbound_variable : Reply

-- A set, as a list without repetitions.
unfoldable pub to_set : List String → List String
to_set [] = []
to_set (x ∷ xs) = let rest = to_set xs in if contains x xs then rest else x ∷ rest

unfoldable pub rounds_of : Env → Command → ℕ
rounds_of env cmd = if nat_beq cmd.max_rounds 0 then env.default_rounds else cmd.max_rounds

unfoldable pub task_count : Env → Command → ℕ
task_count env cmd = elim cmd.task_ids [
  | [] ↦ elim env.task_specs [ none ↦ 0 | some n ↦ n ]
  | t ∷ ts ↦ length (t ∷ ts)
]

-- The tasks with and without bids, both 0 where the bids cannot be listed.
unfoldable pub coverage : Env → Command → ℕ → ℕ × ℕ
coverage env cmd round = elim (env.bids_after round) [
  | none ↦ (0, 0)
  | some bids ↦ elim cmd.task_ids [
    | [] ↦ let covered = length (to_set bids) in (covered, task_count env cmd - covered)
    | t ∷ ts ↦
        let covered = length (to_set (keep (λ b. contains b (t ∷ ts)) bids)) in
        (covered, length (to_set (t ∷ ts)) - covered)
  ]
]

abbrev no_result : BidResult
no_result = record { bids_created = 0; cfps_created = 0; cfp_ids = []; stimulus = 0 }

unfoldable pub result_of : Env → ℕ → BidResult
result_of env round = elim (env.bid_round round) [ none ↦ no_result | some r ↦ r ]

unfoldable pub summary_of : Env → Command → ℕ → RoundSummary
summary_of env cmd round =
    let result = result_of env round in
    record {
      round = round;
      bids_collected = result.bids_created;
      cfps_created = result.cfps_created;
      tasks_with_bids = (coverage env cmd round).0;
      tasks_without_bids = (coverage env cmd round).1;
      stimulus = result.stimulus;
    }

-- All tasks are covered: the loop is left.
unfoldable pub is_covered : RoundSummary → Bool
is_covered summary = nat_beq summary.tasks_without_bids 0 && ltb 0 summary.tasks_with_bids

-- The state that a round leaves.
unfoldable pub after_round : Env → Command → ℕ → CycleState → CycleState
after_round env cmd round cycle = record cycle {
  current_round = round;
  total_bids = cycle.total_bids + (result_of env round).bids_created;
  round_history = cycle.round_history ++ summary_of env cmd round ∷ [];
}

unfoldable pub round_effects : Env → Command → ℕ → CycleState → List Effect
round_effects env cmd round cycle =
    let result = result_of env round in
    cfp_broadcast round result.cfp_ids result.stimulus
    ∷ round_completed (summary_of env cmd round)
    ∷ saved (after_round env cmd round cycle)
    ∷ []

-- The rounds from `round` on, of which `left` may be run.
unfoldable pub run_rounds : Env → Command → ℕ → ℕ → CycleState → CycleState × List Effect
run_rounds env cmd zero round cycle = (cycle, [])
run_rounds env cmd (suc left) round cycle =
    let after = after_round env cmd round cycle in
    let more = run_rounds env cmd left (suc round) after in
    if is_covered (summary_of env cmd round)
    then (after, round_effects env cmd round cycle)
    else (more.0, round_effects env cmd round cycle ++ more.1)

-- The award phase, on the state after the rounds.
unfoldable pub award_phase : Env → Command → CycleState → Reply × List Effect
award_phase env cmd cycle =
    let awarding = record cycle { status = CycleStatus.awarding } in
    elim env.built [
      | none ↦
          let ended = record awarding {
            status = failed;
            error = some "graph_builder_failed";
            is_over = true;
          } in
          (returned ended, saved awarding ∷ saved ended ∷ [])
      | some plan ↦
          let ended = record awarding {
            status = completed;
            plan_id = some plan.plan_id;
            is_over = true;
          } in
          elim (rounds_of env cmd) [
            | zero ↦ (unbound_variable, saved awarding ∷ saved ended ∷ [])
            | suc n ↦ (
              returned ended,
              saved awarding
                  ∷ saved ended
                  ∷ cycle_completed ended.plan_id ended.current_round ended.total_bids
                      plan.assignments
                      (elim cmd.task_ids [
                        | [] ↦ pos (task_count env cmd - plan.assignments)
                        | t ∷ ts ↦ sub_nat (length (to_set (t ∷ ts))) plan.assignments
                      ])
                  ∷ [],
            )
          ]
    ]

abbrev pub first_state : Env → Command → CycleState
first_state env cmd = record {
  status = bidding;
  task_ids = cmd.task_ids;
  current_round = 0;
  max_rounds = rounds_of env cmd;
  total_bids = 0;
  plan_id = none;
  round_history = [];
  error = none;
  is_over = false;
}

unfoldable pub handle_run_cnp_cycle : Env → Command → Reply × List Effect
handle_run_cnp_cycle env cmd =
    let bids = run_rounds env cmd (rounds_of env cmd) 1 (first_state env cmd) in
    let awards = award_phase env cmd bids.0 in
    (
      awards.0,
      saved (first_state env cmd) ∷ cycle_started (task_count env cmd) (rounds_of env cmd) ∷ bids.1
          ++ awards.1,
    )

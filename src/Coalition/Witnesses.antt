-- ===== src/Coalition/Witnesses.antt =====
-- The theorems on coalitions at a planner and a verifier.
use agentcy.Prelude.{ℕ, ◌+◌, ◌*◌, ◌≤◌, refl, [], ◌∷◌, none, some, string_eq}
use agentcy.Coalition.Executor.{
  Member, Contract, Env, count_at, is_late, is_over, run_steps, execute_with, execute_coalition,
  steps_of,
}
use agentcy.Coalition.Executor.Calls.{Chained, execute_coalition-Chained}
use agentcy.Coalition.Executor.Accounts.{IsAccounted, execute_coalition-IsAccounted}
use agentcy.Coalition.Executor.Handoffs.{changes, execute_coalition-changes-le}

abbrev planner : Member
planner = record { agent_id = "agent-1"; role = "planner" }

abbrev verifier : Member
verifier = record { agent_id = "agent-2"; role = "verifier" }

abbrev contract : Contract
contract = record {
  coalition_id = "c1";
  task_id = "t1";
  members = planner ∷ verifier ∷ [];
  steps = "plan" ∷ "check" ∷ "plan" ∷ [];
  max_handoffs = none;
  overall_ms = some 900;
  mode = some "degrade_to_solo";
  preferred_agent_id = some "agent-3";
}

-- Every call returns the number after its input; a step takes a tenth of a second.
abbrev env : Env ℕ
env = record {
  elapsed = λ i. 100 * i;
  elapsed_end = λ i. 100 * i + 50;
  run_step = λ i agent step n. some (n + 1);
  signature = λ roles. "planner+verifier";
  step_name = λ i. "step";
}

execute_coalition-Chained_example :
    Chained env contract 0 "build" planner 0
      ("plan" ∷ "check" ∷ "plan" ∷ [])
      0
      (execute_coalition env contract 0 "build").1
unfolding execute_coalition execute_with run_steps is_late is_over count_at steps_of
execute_coalition-Chained_example =
    execute_coalition-Chained env contract 0 "build" planner (verifier ∷ []) refl (refl, refl)

execute_coalition-changes-le_example :
    changes (execute_coalition env contract 0 "build").1
    ≤ 2 + (execute_coalition env contract 0 "build").0.handoff_failures
execute_coalition-changes-le_example = execute_coalition-changes-le env contract 0 "build"

execute_coalition-IsAccounted_example : IsAccounted (execute_coalition env contract 0 "build").0
execute_coalition-IsAccounted_example = execute_coalition-IsAccounted env contract 0 "build"

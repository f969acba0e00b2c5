-- ===== src/Forwarder/Witnesses.antt =====
-- The theorem on the forwarder at two agents that can plan.
use agentcy.Prelude.{String, true, [], ◌∷◌, none, some}
use agentcy.Registry.Entry.{AgentStatus, Entry}
use agentcy.Registry.Policy.{load_config}
use agentcy.Registry.Store.{Registry}
use agentcy.Forwarder.Choice.{Task, Env}

abbrev agent : String → String → Entry
agent agent_id service_name = record {
  agent_id = agent_id;
  service_name = service_name;
  owner = some "ada";
  capabilities = "plan" ∷ [];
  tags = [];
  status = AgentStatus.online;
  metadata = [];
  policy = record { effective_status = none; stale = none; freshness = none };
  registered_at = some 0;
  last_heartbeat = some 0;
  expires_at = some 90000000;
}

abbrev registry : Registry
registry =
    ("agent-1", record { entry = agent "agent-1" "north"; expiry = some 90000000 })
    ∷ ("agent-2", record { entry = agent "agent-2" "south"; expiry = some 90000000 })
    ∷ []

abbrev env : Env
env = record {
  config = load_config true true 60 300 900;
  now = 50000000;
  score = λ entry. 500000;
  explore = none;
  bid_id = λ bidder. some bidder;
}

abbrev task : Task
task = record { username = "ada"; task_id = "t1"; pipeline_id = "p1"; pipeline_run_id = "r1" }

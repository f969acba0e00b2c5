-- ===== src/Contracts/Samples.antt =====
-- Two agents that bid for one task, and the stores before the build.
use agentcy.Prelude.{ℕ, String, true, List, none, some, [], ◌∷◌, string_eq}
use agentcy.Registry.Entry.{AgentStatus, Entry}
use agentcy.Registry.Policy.{load_config}
use agentcy.Registry.Store.{Registry}
use agentcy.Contracts.Bids.{Bid, Rules}
use agentcy.Contracts.Awards.{Env, TaskSpec, CallForProposal, Board}
use agentcy.Contracts.Drafts.{Services, Stores}

abbrev pub agent : Entry
agent = record {
  agent_id = "agent-1";
  service_name = "planner";
  owner = some "ada";
  capabilities = "plan" ∷ [];
  tags = [];
  status = AgentStatus.online;
  metadata = [];
  policy = record { effective_status = none; stale = none; freshness = none };
  registered_at = some 0;
  last_heartbeat = some 0;
  expires_at = some 90000000;
}

abbrev pub registry : Registry
registry = ("agent-1", record { entry = agent; expiry = some 90000000 }) ∷ []

abbrev pub bid_of : String → String → ℕ → Bid
bid_of agent_id bid_id score = record {
  task_id = some "t1";
  cfp_id = some "c1";
  bidder_id = agent_id;
  bid_id = some bid_id;
  service_name = none;
  bid_score = some score;
}

abbrev pub low : Bid
low = bid_of "agent-1" "b1" 500000

abbrev pub high : Bid
high = bid_of "agent-2" "b2" 700000

abbrev pub bids : List Bid
bids = low ∷ high ∷ []

abbrev pub call : CallForProposal
call = record {
  cfp_id = "c1";
  task_id = "t1";
  status = "open";
  min_score = some 200000;
  closes_at = none;
  status_reason = none;
}

abbrev pub env : Env
env = record {
  pipeline_id = "p1";
  pipeline_run_id = some "r1";
  task_ids = [];
  now = 50000000;
  min_score_default = 0;
  config = load_config true true 60 300 900;
  lmax_default = 3;
  default_ttl = 300;
}

abbrev pub rules : Rules
rules = record {
  allowed_cfp_ids = some ("c1" ∷ []);
  min_score_by_cfp = ("c1", 200000) ∷ [];
  min_score_default = 0;
}

abbrev pub spec : TaskSpec
spec = record {
  task_id = "t1";
  description = "plan";
  required_capabilities = "plan" ∷ [];
  tags = [];
  depends_on = [];
  service_name = none;
  task_type = none;
}

abbrev pub board : Board
board = record { awards = []; reservations = []; registry = registry }

abbrev pub stores : Stores
stores = record {
  board = board;
  cfps = call ∷ [];
  sequences = [];
  drafts = [];
  revisions = [];
  runs = [];
}

abbrev pub services : Services
services = record { agent_service_map = []; service_names = [] }

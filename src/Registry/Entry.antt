-- ===== src/Registry/Entry.antt =====
-- `AgentRegistryEntry` of src/agentcy/pydantic_models/agent_registry_model.py, with the policy that
-- is added to it when it is read, and the counters of the contract net in its metadata.
-- Times are counted in microseconds.
use agentcy.Prelude.{ℕ, String, Bool, List, Option, Dict, ◌*◌}

abbrev pub seconds : ℕ → ℕ
seconds n = n * 1000000

-- metadata["cnp"]; thresholds are in millionths, and `last_award` is the task of the last award.
pub record Cnp : Type 0 where
  pub tasks_received : Option ℕ
  pub tasks_acquired : Option ℕ
  pub tasks_completed : Option ℕ
  pub load : Option ℕ
  pub max_load : Option ℕ
  pub thresholds : Dict String ℕ
  pub last_award : Option String
  pub last_success : Option Bool

-- A value of the metadata: the counters of the contract net, or another that is carried along.
pub data Item : Type 0 where
  counters : Cnp → Item
  text : String → Item

abbrev pub Metadata : Type 0
Metadata = Dict String Item

pub data Freshness : Type 0 where
  fresh warn old away expired : Freshness

-- `AgentStatus`: a status that is stored is the value of one.
pub data AgentStatus : Type 0 where
  online idle busy offline unhealthy : AgentStatus

-- These values have no white space around them and no capitals: `strip` and `lower` leave them alone.
unfoldable pub value_of : AgentStatus → String
value_of AgentStatus.online = "online"
value_of AgentStatus.idle = "idle"
value_of AgentStatus.busy = "busy"
value_of AgentStatus.offline = "offline"
value_of AgentStatus.unhealthy = "unhealthy"

-- The entries of `policy` that are read again.
pub record Policy : Type 0 where
  pub effective_status : Option AgentStatus
  pub stale : Option Bool
  pub freshness : Option Freshness

pub record Entry : Type 0 where
  pub agent_id : String
  pub service_name : String
  pub owner : Option String
  pub capabilities : List String
  pub tags : List String
  pub status : AgentStatus
  pub metadata : Metadata
  pub policy : Policy
  pub registered_at : Option ℕ
  pub last_heartbeat : Option ℕ
  pub expires_at : Option ℕ

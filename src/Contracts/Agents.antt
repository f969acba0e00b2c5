-- ===== src/Contracts/Agents.antt =====
-- The counters of the contract net that the registry keeps for an agent: `agent_cnp_state` and
-- `update_cnp_metadata` of src/agentcy/agent_runtime/services/cnp_utils.py and
-- `_increment_agent_load` of src/agentcy/agent_runtime/services/graph_builder.py.
-- Counters are at least zero. The new threshold is floating-point and given.
pub mod Loads
use agentcy.Prelude.{
  ℕ, ◌+◌, ◌-◌, String, Bool, true, false, List, [], ◌∷◌, Option, none, some, string_eq, Dict, get,
  put, ltb, if◌then◌else◌,
}
use agentcy.Registry.Entry.{Cnp, Item, Metadata, Entry}
use agentcy.Registry.Policy.{Config}
use agentcy.Registry.Store.{Registry, get_entry, heartbeat}

pub record CnpState : Type 0 where
  pub tasks_received : ℕ
  pub tasks_acquired : ℕ
  pub tasks_completed : ℕ
  pub load : ℕ
  pub max_load : ℕ
  pub thresholds : Dict String ℕ
  pub metadata : Metadata

abbrev or_number : Option ℕ → ℕ → ℕ
or_number none d = d
or_number (some n) d = n

abbrev pub empty_cnp : Cnp
empty_cnp = record {
  tasks_received = none;
  tasks_acquired = none;
  tasks_completed = none;
  load = none;
  max_load = none;
  thresholds = [];
  last_award = none;
  last_success = none;
}

abbrev as_cnp : Option Item → Cnp
as_cnp none = empty_cnp
as_cnp (some (Item.counters cnp)) = cnp
as_cnp (some (Item.text s)) = empty_cnp

-- metadata.get("cnp") if it is a dict else {}
unfoldable pub cnp_of : Metadata → Cnp
cnp_of metadata = as_cnp (get "cnp" metadata)

-- `lmax_default` is CNP_LMAX_DEFAULT.
unfoldable pub agent_cnp_state : ℕ → Entry → CnpState
agent_cnp_state lmax_default agent =
    let cnp = cnp_of agent.metadata in
    record {
      tasks_received = or_number cnp.tasks_received 0;
      tasks_acquired = or_number cnp.tasks_acquired 0;
      tasks_completed = or_number cnp.tasks_completed 0;
      load = or_number cnp.load 0;
      max_load = or_number cnp.max_load lmax_default;
      thresholds = cnp.thresholds;
      metadata = agent.metadata;
    }

unfoldable pub min : ℕ → ℕ → ℕ
min a b = if ltb b a then b else a

-- The metadata with which the registry is told of an award.
unfoldable pub awarded_metadata : ℕ → String → Entry → Metadata
awarded_metadata lmax_default task_id doc =
    let state = agent_cnp_state lmax_default doc in
    put "cnp"
      (Item.counters (record (cnp_of state.metadata) {
        tasks_received = some (state.tasks_received + 1);
        load = some (min (state.load + 1) state.max_load);
        max_load = some state.max_load;
        last_award = some task_id;
      }))
      state.metadata

module _ (config : Config) (lmax_default default_ttl now : ℕ) where
  unfoldable pub increment_agent_load : String → String → Registry → Registry
  increment_agent_load agent_id task_id registry = elim (get_entry config now agent_id registry) [
    | none ↦ registry
    | some doc ↦
        (heartbeat default_ttl now agent_id none none (awarded_metadata lmax_default task_id doc)
          registry).1
  ]

-- The metadata after an execution, where `new_threshold` is what `update_threshold` gives.
unfoldable pub update_cnp_metadata : ℕ → (CnpState → ℕ) → String → Bool → Entry → Metadata
update_cnp_metadata lmax_default new_threshold task_type success agent_doc =
    let state = agent_cnp_state lmax_default agent_doc in
    put "cnp"
      (Item.counters (record {
        tasks_received = some state.tasks_received;
        tasks_acquired = some (state.tasks_acquired + 1);
        tasks_completed = some (state.tasks_completed + (if success then 1 else 0));
        load = some (state.load - 1);
        max_load = some state.max_load;
        thresholds = put task_type (new_threshold state) state.thresholds;
        last_award = none;
        last_success = some success;
      }))
      state.metadata

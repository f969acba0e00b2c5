-- ===== src/Registry/Policy.antt =====
-- The freshness of src/agentcy/orchestrator_core/stores/agent_registry_policy.py.
-- The scores and decay factors are floating-point and are not modelled.
pub mod Ages
use agentcy.Prelude.{
  ℕ, ◌-◌, ◌≤◌, String, Bool, true, false, not, ◌&&◌, List, [], ◌∷◌, Option, none, some, map, leb,
  ltb, if◌then◌else◌,
}
use agentcy.Registry.Entry.{Entry, AgentStatus, Policy, Freshness, seconds}

pub record Config : Type 0 where
  pub enable : Bool
  pub filter_stale : Bool
  pub freshness_warn_seconds : ℕ
  pub freshness_stale_seconds : ℕ
  pub freshness_offline_seconds : ℕ

unfoldable pub max : ℕ → ℕ → ℕ
max a b = if ltb a b then b else a

-- The configuration from the variables of the environment, each at least zero.
unfoldable pub load_config : Bool → Bool → ℕ → ℕ → ℕ → Config
load_config enable filter_stale warn stale offline = record {
  enable = enable;
  filter_stale = filter_stale;
  freshness_warn_seconds = warn;
  freshness_stale_seconds = max warn stale;
  freshness_offline_seconds = max (max warn stale) offline;
}

-- A limit that is given and that the age has reached.
unfoldable pub reached : ℕ → ℕ → Bool
reached limit age = ltb 0 limit && leb (seconds limit) age

-- The state, whether it is stale, and whether it is offline.
pub record Judgement : Type 0 where
  pub state : Freshness
  pub stale : Bool
  pub offline : Bool

unfoldable pub freshness_state : ℕ → Config → Judgement
freshness_state age config =
    if reached config.freshness_offline_seconds age
    then record { state = Freshness.away; stale = true; offline = true }
    else (if reached config.freshness_stale_seconds age
        then record { state = Freshness.old; stale = true; offline = false }
        else (if reached config.freshness_warn_seconds age
            then record { state = Freshness.warn; stale = false; offline = false }
            else record { state = Freshness.fresh; stale = false; offline = false }))

unfoldable pub seen_at : Entry → Option ℕ
seen_at entry = elim entry.last_heartbeat [ none ↦ entry.registered_at | some t ↦ some t ]

unfoldable pub age_at : ℕ → Entry → ℕ
age_at now entry = elim (seen_at entry) [ none ↦ 0 | some t ↦ now - t ]

unfoldable pub has_expired : ℕ → Option ℕ → Bool
has_expired now none = false
has_expired now (some t) = leb t now

unfoldable pub judge : Config → ℕ → Entry → Judgement
judge config now entry =
    if has_expired now entry.expires_at
    then record { state = Freshness.expired; stale = true; offline = true }
    else freshness_state (age_at now entry) config

unfoldable pub evaluate : Config → ℕ → Entry → Entry
evaluate config now entry =
    let judged = judge config now entry in
    record entry {
      policy = record {
        effective_status = some (if judged.offline then AgentStatus.offline else entry.status);
        stale = some judged.stale;
        freshness = some judged.state;
      };
    }

unfoldable pub evaluate_entries : Config → ℕ → List Entry → List Entry
evaluate_entries config now entries = map (evaluate config now) entries

-- ===== src/Registry/Witnesses.antt =====
-- The theorems on the registry at an agent of one service.
use agentcy.Prelude.{
  ◌↔◌, ℕ, ◌≡◌, ◌≢◌, refl, String, true, false, if◌then◌else◌, none, some, [], ◌∷◌, arith, All,
  string_eq, get,
}
use agentcy.Registry.Entry.{AgentStatus, Entry, Freshness}
use agentcy.Registry.Policy.{max, load_config, has_expired, reached}
use agentcy.Registry.Store.{
  Registry, get_raw, live, beat, heartbeat, get_entry, Filter, list, effective_ttl,
}
use agentcy.Registry.Store.Lives.{heartbeat-lives}
use agentcy.Registry.Store.Listing.{Shown, list-Shown, heartbeat-others}

abbrev agent : Entry
agent = record {
  agent_id = "agent-1";
  service_name = "planner";
  owner = some "ada";
  capabilities = "plan" ∷ [];
  tags = [];
  status = AgentStatus.online;
  metadata = [];
  policy = record { effective_status = none; stale = none; freshness = none };
  registered_at = some 0;
  last_heartbeat = some 0;
  expires_at = some 90000000;
}

abbrev registry : Registry
registry = ("agent-1", record { entry = agent; expiry = some 90000000 }) ∷ []

heartbeat-lives_example :
    get_entry
      (load_config true true 60 300 900)
      100000000
      "agent-1"
      (heartbeat 300 50000000 "agent-1" none (some 120) [] registry).1
    ≡ some (record (beat 300 50000000 none (some 120) [] agent) {
      policy = record {
        effective_status = some AgentStatus.online;
        stale = some false;
        freshness = some (if reached 60 50000000 then Freshness.warn else Freshness.fresh);
      };
    })
unfolding get_raw live has_expired get max effective_ttl
heartbeat-lives_example =
    heartbeat-lives 300 50000000 "agent-1" none (some 120) [] registry agent refl 100000000
      (omega arith) (omega arith) true 60 300 900 (omega arith)

abbrev everyone : Filter
everyone = record { service_name = ""; capability = ""; status = ""; tags = [] }

list-Shown_example :
    All
      (Shown 60 300 50000000 everyone)
      (list (load_config true true 60 300 900) 50000000 everyone registry)
list-Shown_example = list-Shown 60 300 900 50000000 everyone registry

heartbeat-others_example :
    (((heartbeat 300 95000000 "agent-1" none none [] registry).0 ≡ none)
      ↔ (get_raw 95000000 "agent-1" registry ≡ none))
    × (get_raw 95000000 "agent-1" registry ≡ none
        → (heartbeat 300 95000000 "agent-1" none none [] registry).1 ≡ registry)
    × ((other : String) (t : ℕ)
        → other ≢ "agent-1"
        → get_raw t other (heartbeat 300 95000000 "agent-1" none none [] registry).1
          ≡ get_raw t other registry)
heartbeat-others_example = heartbeat-others 300 95000000 "agent-1" none none [] registry

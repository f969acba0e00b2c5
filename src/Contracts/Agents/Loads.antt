-- ===== src/Contracts/Agents/Loads.antt =====
-- The load of an agent over an award and the end of its execution.
use agentcy.Prelude.{
  ℕ, ◌+◌, ◌-◌, ◌≤◌, ◌<◌, ◌≡◌, refl, ◌∙◌, String, Bool, [], ◌∷◌, none, some, arith, string_eq,
  Bool-cases, inl, inr, get, get-put, ltb, if◌then◌else◌,
}
use agentcy.Registry.Entry.{Metadata, Entry, seconds}
use agentcy.Registry.Policy.{Config, evaluate}
use agentcy.Registry.Store.{Registry, get_raw, get_entry, heartbeat, update, beat, effective_ttl}
use agentcy.Registry.Store.Lives.{heartbeat-get_raw}
use agentcy.Contracts.Agents.{
  CnpState, cnp_of, agent_cnp_state, min, awarded_metadata, increment_agent_load,
  update_cnp_metadata,
}

-- The counters of an agent, without its thresholds.
pub record Counters : Type 0 where
  pub received : ℕ
  pub acquired : ℕ
  pub completed : ℕ
  pub load : ℕ
  pub capacity : ℕ

pub counters_of : ℕ → Entry → Counters
counters_of lmax_default agent =
    let state = agent_cnp_state lmax_default agent in
    record {
      received = state.tasks_received;
      acquired = state.tasks_acquired;
      completed = state.tasks_completed;
      load = state.load;
      capacity = state.max_load;
    }

awarded-counters :
    (lmax_default : ℕ) (task_id : String) (doc : Entry)
    → counters_of lmax_default (record doc { metadata = awarded_metadata lmax_default task_id doc })
      ≡ (let c = counters_of lmax_default doc in
          record c { received = c.received + 1; load = min (c.load + 1) c.capacity })
unfolding counters_of agent_cnp_state awarded_metadata cnp_of
awarded-counters lmax_default task_id doc = rw get-put refl

completed-counters :
    (lmax_default : ℕ) (new_threshold : CnpState → ℕ) (task_type : String) (success : Bool)
    (doc : Entry)
    → counters_of lmax_default (record doc {
      metadata = update_cnp_metadata lmax_default new_threshold task_type success doc;
    })
      ≡ (let c = counters_of lmax_default doc in
          record c {
            acquired = c.acquired + 1;
            completed = c.completed + (if success then 1 else 0);
            load = c.load - 1;
          })
unfolding counters_of agent_cnp_state update_cnp_metadata cnp_of
completed-counters lmax_default new_threshold task_type success doc = rw get-put refl

min-pred : (a c : ℕ) → min (a + 1) c - 1 ≡ (if ltb a c then a else c - 1)
unfolding min
min-pred a c = ground arith

-- An award and the outcome of its execution count one task as received, one as acquired and, on
-- success, one as completed, and leave the load as it was; but an agent that was at its capacity or
-- above it counts one task less than the capacity afterwards.
pub award-completed :
    (lmax_default : ℕ) (new_threshold : CnpState → ℕ) (task_id task_type : String) (success : Bool)
    (doc : Entry)
    → (let awarded = record doc { metadata = awarded_metadata lmax_default task_id doc } in
        counters_of lmax_default (record awarded {
          metadata = update_cnp_metadata lmax_default new_threshold task_type success awarded;
        }))
      ≡ (let c = counters_of lmax_default doc in
          record {
            received = c.received + 1;
            acquired = c.acquired + 1;
            completed = c.completed + (if success then 1 else 0);
            load = if ltb c.load c.capacity then c.load else c.capacity - 1;
            capacity = c.capacity;
          })
award-completed lmax_default new_threshold task_id task_type success doc =
    completed-counters lmax_default new_threshold task_type success
      (record doc { metadata = awarded_metadata lmax_default task_id doc })
    ∙ rw awarded-counters (rw min-pred refl)

get-update :
    (k : String) (current new : Metadata)
    → get k (update current new) ≡ elim (get k new) [ none ↦ get k current | some v ↦ some v ]
unfolding update get
get-update k current [] = refl
get-update k current ((j, v) ∷ new) =
    ground (arith, get-put j k v (update current new), get-update k current new)

seen-awarded_metadata :
    (config : Config) (lmax_default now : ℕ) (task_id : String) (doc : Entry)
    → awarded_metadata lmax_default task_id (if config.enable then evaluate config now doc else doc)
      ≡ awarded_metadata lmax_default task_id doc
unfolding awarded_metadata agent_cnp_state evaluate
seen-awarded_metadata config lmax_default now task_id doc = elim (Bool-cases config.enable) [
  | inl e ↦ rw e refl
  | inr e ↦ rw e refl
]

increment_agent_load-found :
    (config : Config) (lmax_default default_ttl now : ℕ) (agent_id task_id : String)
    (registry : Registry) (doc : Entry)
    → get_raw now agent_id registry ≡ some doc
    → increment_agent_load config lmax_default default_ttl now agent_id task_id registry
      ≡ (heartbeat default_ttl now agent_id none none
          (awarded_metadata lmax_default task_id doc)
          registry).1
unfolding increment_agent_load get_entry
increment_agent_load-found config lmax_default default_ttl now agent_id task_id registry doc found =
    rw (found, get_entry, increment_agent_load) (rw seen-awarded_metadata refl)

beat-counters :
    (lmax_default default_ttl now : ℕ) (task_id : String) (doc : Entry)
    → counters_of lmax_default
        (beat default_ttl now none none (awarded_metadata lmax_default task_id doc) doc)
      ≡ (let c = counters_of lmax_default doc in
          record c { received = c.received + 1; load = min (c.load + 1) c.capacity })
unfolding counters_of agent_cnp_state awarded_metadata cnp_of beat
beat-counters lmax_default default_ttl now task_id doc = rw get-update (rw get-put refl)

-- An award reaches an agent that is registered when it is made: for as long as the default lifetime
-- lasts it is registered with one more task received, and with a load that is one higher, or its
-- capacity where that is less; its other counters are as before.
pub increment_agent_load-counters :
    (config : Config) (lmax_default default_ttl now : ℕ) (agent_id task_id : String)
    (registry : Registry) (doc : Entry) (t : ℕ)
    → get_raw now agent_id registry ≡ some doc
    → now ≤ t
    → t < now + seconds default_ttl
    → (after : Entry) × (get_raw t agent_id
          (increment_agent_load config lmax_default default_ttl now agent_id task_id registry)
        ≡ some after)
      × (counters_of lmax_default after ≡ (
          let c = counters_of lmax_default doc in
          record c { received = c.received + 1; load = min (c.load + 1) c.capacity }))
unfolding effective_ttl
increment_agent_load-counters config lmax_default default_ttl now agent_id task_id registry doc t
      found after lives =
    (
      beat default_ttl now none none (awarded_metadata lmax_default task_id doc) doc,
      rw
          (increment_agent_load-found config lmax_default default_ttl now agent_id task_id registry
            doc found)
          (heartbeat-get_raw default_ttl now agent_id none none
            (awarded_metadata lmax_default task_id doc) registry doc found t after lives),
      beat-counters lmax_default default_ttl now task_id doc,
    )

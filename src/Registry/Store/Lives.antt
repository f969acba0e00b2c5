-- ===== src/Registry/Store/Lives.antt =====
-- How long an agent is seen after a heartbeat.
use agentcy.Prelude.{
  ℕ, ◌+◌, ◌-◌, ◌≤◌, ◌<◌, ◌≡◌, refl, String, Bool, true, false, Option, some, arith, string_eq,
  eq_iff, get-put, if◌then◌else◌,
}
use agentcy.Registry.Entry.{AgentStatus, Entry, Metadata, Freshness, seconds}
use agentcy.Registry.Policy.{
  max, load_config, reached, judge, evaluate, has_expired, seen_at, age_at,
}
use agentcy.Registry.Policy.Ages.{freshness_state-young}
use agentcy.Registry.Store.{
  Registry, effective_ttl, expiry_of, live, get_raw, beat, renewed, or_status, heartbeat, get_entry,
}

module _ (default_ttl now : ℕ) (agent_id : String) (status : Option AgentStatus)
    (ttl_seconds : Option ℕ) (metadata : Metadata) (registry : Registry) (entry : Entry)
    (found : get_raw now agent_id registry ≡ some entry) (t : ℕ) (after : now ≤ t)
    (lives : t < now + seconds (effective_ttl default_ttl ttl_seconds)) where
  expiry_of-lives :
      expiry_of default_ttl now ttl_seconds
      ≡ some (now + seconds (effective_ttl default_ttl ttl_seconds))
  unfolding expiry_of
  expiry_of-lives = ground arith

  pub heartbeat-get_raw :
      get_raw t agent_id (heartbeat default_ttl now agent_id status ttl_seconds metadata registry).1
      ≡ some (beat default_ttl now status ttl_seconds metadata entry)
  unfolding heartbeat get_raw live has_expired
  heartbeat-get_raw =
      rw (found, heartbeat)
        (rw get-put (rw ((eq_iff agent_id agent_id).1 refl) (rw expiry_of-lives (ground arith))))

  renewed-lives : has_expired t (renewed default_ttl now ttl_seconds entry.expires_at) ≡ false
  unfolding renewed has_expired
  renewed-lives = rw (expiry_of-lives, renewed) (ground arith)

  beat-judge :
      (filter_stale : Bool) (warn old away : ℕ)
      → t < now + seconds (max warn old)
      → judge
          (load_config true filter_stale warn old away)
          t
          (beat default_ttl now status ttl_seconds metadata entry)
        ≡ record {
          state = if reached warn (t - now) then Freshness.warn else Freshness.fresh;
          stale = false;
          offline = false;
        }
  unfolding judge beat age_at seen_at
  beat-judge filter_stale warn old away young =
      rw renewed-lives
        (freshness_state-young true filter_stale warn old away (t - now) (omega arith))

  -- After a heartbeat, an agent is registered with the heartbeat's time and status for as long as the
  -- lifetime that was asked for lasts, and while the time since is below the limit of staleness the
  -- policy judges it not stale and leaves its status as it is.
  pub heartbeat-lives :
      (filter_stale : Bool) (warn old away : ℕ)
      → t < now + seconds (max warn old)
      → get_entry
          (load_config true filter_stale warn old away)
          t
          agent_id
          (heartbeat default_ttl now agent_id status ttl_seconds metadata registry).1
        ≡ some (record (beat default_ttl now status ttl_seconds metadata entry) {
          policy = record {
            effective_status = some (or_status status entry.status);
            stale = some false;
            freshness = some (if reached warn (t - now) then Freshness.warn else Freshness.fresh);
          };
        })
  unfolding get_entry evaluate beat load_config
  heartbeat-lives filter_stale warn old away young =
      rw (heartbeat-get_raw, get_entry) (rw (beat-judge filter_stale warn old away young) refl)

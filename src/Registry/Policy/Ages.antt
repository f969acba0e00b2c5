-- ===== src/Registry/Policy/Ages.antt =====
-- How the judgement of an entry follows its age.
use agentcy.Prelude.{ℕ, ◌≤◌, ◌<◌, ◌≡◌, Bool, true, false, arith, if◌then◌else◌}
use agentcy.Registry.Entry.{Freshness, seconds}
use agentcy.Registry.Policy.{max, load_config, reached, freshness_state}

pub max-le : (a b : ℕ) → a ≤ max a b
unfolding max
max-le a b = ground arith

reached-false : (limit age : ℕ) → age < seconds limit → reached limit age ≡ false
unfolding reached
reached-false limit age h = ground arith

pub reached-true : (limit age : ℕ) → 0 < limit → seconds limit ≤ age → reached limit age ≡ true
unfolding reached
reached-true limit age p h = ground arith

module _ (enable filter_stale : Bool) (warn stale offline age : ℕ) where
  -- An entry younger than the limit is at most due for a warning.
  pub freshness_state-young :
      age < seconds (max warn stale)
      → freshness_state age (load_config enable filter_stale warn stale offline) ≡ record {
        state = if reached warn age then Freshness.warn else Freshness.fresh;
        stale = false;
        offline = false;
      }
  unfolding freshness_state load_config
  freshness_state-young h = ground (
    arith,
    reached-false (max warn stale) age h,
    reached-false (max (max warn stale) offline) age
        (omega (arith, h, max-le (max warn stale) offline)),
  )

  -- An entry as old as the limit is stale.
  pub freshness_state-aged :
      0 < max warn stale
      → seconds (max warn stale) ≤ age
      → (freshness_state age (load_config enable filter_stale warn stale offline)).stale ≡ true
  unfolding freshness_state load_config
  freshness_state-aged p h = ground (arith, reached-true (max warn stale) age p h)

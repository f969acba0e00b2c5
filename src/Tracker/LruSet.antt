-- ===== src/Tracker/LruSet.antt =====
-- `_LRUSet` of src/agentcy/agent_runtime/tracker.py: the cache by which the tracker drops events
-- that it has already processed. The `OrderedDict` is a list of entries, the least recent first;
-- the monotonic clock is read once by each method and comes as the argument `now`, in clock ticks.
-- The lock is not modelled: the methods run one after another.
pub mod Expiry
pub mod Bounds
use agentcy.Prelude.{
  ℕ, ◌-◌, String, Bool, true, false, List, [], ◌∷◌, ◌++◌, Option, none, some, Eq, ◌==◌, Dict, get,
  without, length, leb, ltb, nat_beq, ◌≡◌, arith, if◌then◌else◌,
}

pub record LruSet (K : Type 0) : Type 0 where
  pub max_items : ℕ
  pub ttl : ℕ
  pub entries : Dict K ℕ

module _ {K : Type 0} where
  -- The `while` loop of `_purge_expired`, over the entries that are left.
  unfoldable pub purge : ℕ → ℕ → Dict K ℕ → Dict K ℕ
  purge ttl now [] = []
  purge ttl now ((k, ts) ∷ d) =
      let rest = purge ttl now d in if leb (now - ts) ttl then (k, ts) ∷ d else rest

  unfoldable pub purge_expired : ℕ → LruSet K → LruSet K
  purge_expired now s =
      if nat_beq s.ttl 0 then s else record s { entries = purge s.ttl now s.entries }

  -- The `while` loop of `add`: pops the least recent entries until at most `max_items` are left.
  unfoldable pub evict : ℕ → Dict K ℕ → Dict K ℕ
  evict max_items [] = []
  evict max_items (p ∷ d) =
      let rest = evict max_items d in if ltb max_items (length (p ∷ d)) then rest else p ∷ d

module _ {K : Type 0} ⦃e : Eq K⦄ where
  -- `self._data[key] = now` and `move_to_end(key)`, in either order.
  unfoldable pub refresh : K → ℕ → Dict K ℕ → Dict K ℕ
  refresh key now d = without key d ++ ((key, now) ∷ [])

  unfoldable pub contains : K → ℕ → LruSet K → LruSet K × Bool
  contains key now s =
      let s' = purge_expired now s in
      elim (get key s'.entries) [
        | some ts ↦ (record s' { entries = refresh key now s'.entries }, true)
        | none ↦ (s', false)
      ]

  unfoldable pub add : K → ℕ → LruSet K → LruSet K
  add key now s =
      let s' = purge_expired now s in
      record s' { entries = evict s'.max_items (refresh key now s'.entries) }

  pub contains-max_items :
      (key : K) (now : ℕ) (s : LruSet K) → (contains key now s).0.max_items ≡ s.max_items
  unfolding contains purge_expired
  contains-max_items key now s = ground arith

  pub contains-ttl : (key : K) (now : ℕ) (s : LruSet K) → (contains key now s).0.ttl ≡ s.ttl
  unfolding contains purge_expired
  contains-ttl key now s = ground arith

  pub add-max_items : (key : K) (now : ℕ) (s : LruSet K) → (add key now s).max_items ≡ s.max_items
  unfolding add purge_expired
  add-max_items key now s = ground arith

  pub add-ttl : (key : K) (now : ℕ) (s : LruSet K) → (add key now s).ttl ≡ s.ttl
  unfolding add purge_expired
  add-ttl key now s = ground arith

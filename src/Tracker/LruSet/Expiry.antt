-- ===== src/Tracker/LruSet/Expiry.antt =====
-- What the cache answers, against a plain reading of its time to live.
use agentcy.Prelude.{
  ℕ, ◌-◌, ◌≤◌, ◌<◌, ◌≡◌, refl, ◌∙◌, Bool, true, false, [], ◌∷◌, Option, none, some, arith, Eq, Dict,
  get, without, get-without, ◌++◌, leb, nat_beq, if◌then◌else◌, Bool-cases, inl, inr,
}
use agentcy.Tracker.LruSet.{LruSet, purge, purge_expired, evict, contains, add, refresh}
use agentcy.Tracker.LruSet.Bounds.{Chain-mono, get-snoc, add-IsValid, Chain, Distinct, IsValid}

-- An entry counts at time `now` if its age is within the time to live.
abbrev pub live : ℕ → ℕ → Option ℕ → Option ℕ
live ttl now none = none
live ttl now (some ts) = if leb (now - ts) ttl then some ts else none

-- The answer for `key` at time `now` as the time to live says it: zero means for ever.
abbrev pub remembered : ℕ → ℕ → Option ℕ → Bool
remembered ttl now none = false
remembered ttl now (some ts) = if nat_beq ttl 0 then true else leb (now - ts) ttl

abbrev is_some : Option ℕ → Bool
is_some none = false
is_some (some _) = true

module _ {K : Type 0} ⦃e : Eq K⦄ where
  young :
      (ttl lo : ℕ) (d : Dict K ℕ) (now : ℕ) (k : K)
      → Chain lo d now
      → now - lo ≤ ttl
      → live ttl now (get k d) ≡ get k d
  unfolding get
  young ttl lo [] now k c h = refl
  young ttl lo ((j, ts) ∷ d) now k c h = ground (arith, young ttl ts d now k c.1 (omega arith))

  get-purge :
      (ttl lo now : ℕ) (d : Dict K ℕ) (k : K)
      → Chain lo d now
      → Distinct d
      → get k (purge ttl now d) ≡ live ttl now (get k d)
  unfolding get purge
  get-purge ttl lo now [] k c u = refl
  get-purge ttl lo now ((j, ts) ∷ d) k c u = elim (Bool-cases (leb (now - ts) ttl)) [
    | inl fresh ↦ ground (arith, young ttl ts d now k c.1)
    | inr old ↦ ground (arith, get-purge ttl ts now d k c.1 u.1, e.beq_iff j k)
  ]

  get-purge_expired :
      (key : K) (t now : ℕ) (s : LruSet K)
      → IsValid s t
      → Chain 0 s.entries now
      → is_some (get key (purge_expired now s).entries) ≡ remembered s.ttl now (get key s.entries)
  unfolding purge_expired
  get-purge_expired key t now s v c =
      ground (arith, get-purge s.ttl 0 now s.entries key c v.distinct)

  contains-answer :
      (key : K) (now : ℕ) (s : LruSet K)
      → (contains key now s).1 ≡ is_some (get key (purge_expired now s).entries)
  unfolding contains
  contains-answer key now s = ground arith

  -- Purging from the old end only drops exactly the entries that are too old: a membership test
  -- says yes exactly for a stored key whose age is within the time to live.
  pub contains-eq-remembered :
      (key : K) (t now : ℕ) (s : LruSet K)
      → IsValid s t
      → t ≤ now
      → (contains key now s).1 ≡ remembered s.ttl now (get key s.entries)
  contains-eq-remembered key t now s v h =
      contains-answer key now s
      ∙ get-purge_expired key t now s v (Chain-mono 0 0 s.entries t now v.chain (omega arith) h)

  get-evict_snoc :
      (max : ℕ) (key : K) (t : ℕ) (d : Dict K ℕ)
      → 0 < max
      → get key d ≡ none
      → get key (evict max (d ++ ((key, t) ∷ []))) ≡ some t
  unfolding evict get
  get-evict_snoc max key t [] m h = ground (arith, e.beq_iff key key)
  get-evict_snoc max key t ((j, ts) ∷ d) m h = ground (
    arith,
    get-evict_snoc max key t d m,
    get-snoc key key t d,
    e.beq_iff key key,
    e.beq_iff j key,
  )

  get-add :
      (key : K) (t : ℕ) (s : LruSet K)
      → 0 < s.max_items
      → (get key (add key t s).entries ≡ some t) × ((add key t s).ttl ≡ s.ttl)
  unfolding add refresh purge_expired
  get-add key t s m = elim (Bool-cases (nat_beq s.ttl 0)) [
    | inl off ↦ rw off (get-evict_snoc s.max_items key t _ m (gone s.entries), refl)
    | inr on ↦ rw on (get-evict_snoc s.max_items key t _ m (gone (purge s.ttl t s.entries)), refl)
  ]
    where
      gone : (d : Dict K ℕ) → get key (without key d) ≡ none
      gone d = ground (arith, get-without key key d, e.beq_iff key key)

  -- A stored key is remembered for the time to live: after an insertion at `t`, a test at a later
  -- time says yes exactly while the time to live has not run out, if the cache holds one entry.
  pub add-contains :
      (key : K) (t0 t now : ℕ) (s : LruSet K)
      → IsValid s t0
      → t0 ≤ t
      → t ≤ now
      → 0 < s.max_items
      → (contains key now (add key t s)).1 ≡ remembered s.ttl now (some t)
  add-contains key t0 t now s v h n m =
      let (stored, same) = get-add key t s m in
      rw (contains-eq-remembered key t now (add key t s) (add-IsValid key t0 t s v h) n)
        (rw (stored, same) refl)

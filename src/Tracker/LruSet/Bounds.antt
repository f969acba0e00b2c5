-- ===== src/Tracker/LruSet/Bounds.antt =====
-- The invariant of the cache: distinct keys in the order of their stamps, within its size.
use agentcy.Prelude.{
  ℕ, ◌+◌, ◌-◌, ◌≤◌, ◌≡◌, refl, [], ◌∷◌, ◌++◌, none, some, arith, Eq, ◌==◌, Dict, nat_beq, get,
  without, get-without, length, length-append, leb, if◌then◌else◌, Bool-cases, Option-cases, inl,
  inr,
}
use agentcy.Tracker.LruSet.{LruSet, purge, purge_expired, evict, contains, add, refresh}

module _ {K : Type 0} where
  -- The stamps do not fall along the list, start at `lo` and end by `now`.
  abbrev pub Chain : ℕ → Dict K ℕ → ℕ → Type 0
  Chain lo [] now = lo ≤ now
  Chain lo ((k, ts) ∷ d) now = (lo ≤ ts) × Chain ts d now

  pub Chain-mono :
      (lo lo' : ℕ) (d : Dict K ℕ) (t now : ℕ) → Chain lo d t → lo' ≤ lo → t ≤ now → Chain lo' d now
  Chain-mono lo lo' [] t now c h n = omega arith
  Chain-mono lo lo' ((k, ts) ∷ d) t now c h n =
      (omega arith, Chain-mono ts ts d t now c.1 (omega arith) n)

  Chain-purge :
      (ttl lo : ℕ) (d : Dict K ℕ) (now : ℕ) → Chain lo d now → Chain lo (purge ttl now d) now
  unfolding purge
  Chain-purge ttl lo [] now c = c
  Chain-purge ttl lo ((k, ts) ∷ d) now c = elim (Bool-cases (leb (now - ts) ttl)) [
    | inl fresh ↦ rw fresh c
    | inr old ↦ rw old (Chain-purge ttl lo d now (Chain-mono ts lo d now now c.1 c.0 (omega arith)))
  ]

  Chain-evict : (max lo : ℕ) (d : Dict K ℕ) (now : ℕ) → Chain lo d now → Chain lo (evict max d) now
  unfolding evict
  Chain-evict max lo [] now c = c
  Chain-evict max lo ((k, ts) ∷ d) now c =
      let rest = Chain-evict max lo d now (Chain-mono ts lo d now now c.1 c.0 (omega arith)) in
      ground arith

  Chain-snoc :
      (lo : ℕ) (d : Dict K ℕ) (now : ℕ) (k : K)
      → Chain lo d now
      → Chain lo (d ++ ((k, now) ∷ [])) now
  Chain-snoc lo [] now k c = (c, omega arith)
  Chain-snoc lo ((j, ts) ∷ d) now k c = (c.0, Chain-snoc ts d now k c.1)

  length-evict : (max : ℕ) (d : Dict K ℕ) → length (evict max d) ≤ max
  unfolding evict
  length-evict max [] = omega arith
  length-evict max (p ∷ d) = ground (arith, length-evict max d)

  -- What is within the size stays whole.
  evict_of_length-le : (max : ℕ) (d : Dict K ℕ) → length d ≤ max → evict max d ≡ d
  unfolding evict
  evict_of_length-le max [] h = refl
  evict_of_length-le max (p ∷ d) h = ground arith

  length-purge-le : (ttl now : ℕ) (d : Dict K ℕ) → length (purge ttl now d) ≤ length d
  unfolding purge
  length-purge-le ttl now [] = omega arith
  length-purge-le ttl now ((k, ts) ∷ d) = ground (arith, length-purge-le ttl now d)

module _ {K : Type 0} ⦃e : Eq K⦄ where
  -- No key occurs twice.
  abbrev pub Distinct : Dict K ℕ → Type 0
  Distinct [] = Unit
  Distinct ((k, ts) ∷ d) = (get k d ≡ none) × Distinct d

  pub get-snoc :
      (k j : K) (ts : ℕ) (d : Dict K ℕ)
      → get j d ≡ none
      → get j (d ++ ((k, ts) ∷ [])) ≡ (if k == j then some ts else none)
  unfolding get
  get-snoc k j ts [] h = refl
  get-snoc k j ts ((i, t) ∷ d) h = ground (arith, get-snoc k j ts d)

  Chain-without :
      (lo : ℕ) (d : Dict K ℕ) (now : ℕ) (k : K) → Chain lo d now → Chain lo (without k d) now
  unfolding without
  Chain-without lo [] now k c = c
  Chain-without lo ((j, ts) ∷ d) now k c = elim (Bool-cases (j == k)) [
    | inl same ↦
        rw same (Chain-without lo d now k (Chain-mono ts lo d now now c.1 c.0 (omega arith)))
    | inr other ↦ rw other (c.0, Chain-without ts d now k c.1)
  ]

  Distinct-without : (d : Dict K ℕ) (k : K) → Distinct d → Distinct (without k d)
  unfolding without
  Distinct-without [] k u = tt
  Distinct-without ((j, ts) ∷ d) k u = ground (arith, Distinct-without d k u.1, get-without k j d)

  Distinct-purge : (ttl now : ℕ) (d : Dict K ℕ) → Distinct d → Distinct (purge ttl now d)
  unfolding purge
  Distinct-purge ttl now [] u = tt
  Distinct-purge ttl now ((j, ts) ∷ d) u = ground (arith, Distinct-purge ttl now d u.1)

  Distinct-evict : (max : ℕ) (d : Dict K ℕ) → Distinct d → Distinct (evict max d)
  unfolding evict
  Distinct-evict max [] u = tt
  Distinct-evict max (p ∷ d) u = ground (arith, Distinct-evict max d u.1)

  Distinct-snoc :
      (k : K) (ts : ℕ) (d : Dict K ℕ) → get k d ≡ none → Distinct d → Distinct (d ++ ((k, ts) ∷ []))
  unfolding get
  Distinct-snoc k ts [] h u = (refl, tt)
  Distinct-snoc k ts ((i, t) ∷ d) h u =
      ground (arith, Distinct-snoc k ts d, get-snoc k i ts d, e.beq_iff k i, e.beq_iff i k)

  length-without-le : (k : K) (d : Dict K ℕ) → length (without k d) ≤ length d
  unfolding without
  length-without-le k [] = omega arith
  length-without-le k ((j, ts) ∷ d) = ground (arith, length-without-le k d)

  length-without-lt :
      (k : K) (ts : ℕ) (d : Dict K ℕ) → get k d ≡ some ts → length (without k d) + 1 ≤ length d
  unfolding without get
  length-without-lt k ts [] h = cc
  length-without-lt k ts ((j, t) ∷ d) h =
      ground (arith, length-without-lt k ts d, length-without-le k d)

  -- What holds of the cache between two calls, `now` being the time of the last one.
  pub record IsValid (s : LruSet K) (now : ℕ) : Type 0 where
    pub distinct : Distinct s.entries
    pub chain : Chain 0 s.entries now
    pub bounded : length s.entries ≤ s.max_items

  pub IsValid-mono : (s : LruSet K) (t now : ℕ) → IsValid s t → t ≤ now → IsValid s now
  IsValid-mono s t now v h = record {
    distinct = v.distinct;
    chain = Chain-mono 0 0 s.entries t now v.chain (omega arith) h;
    bounded = v.bounded;
  }

  purge_expired-IsValid :
      (s : LruSet K) (t now : ℕ) → IsValid s t → t ≤ now → IsValid (purge_expired now s) now
  unfolding purge_expired
  purge_expired-IsValid s t now v h =
      let c = Chain-mono 0 0 s.entries t now v.chain (omega arith) h in
      elim (Bool-cases (nat_beq s.ttl 0)) [
        | inl off ↦ rw off (record { distinct = v.distinct; chain = c; bounded = v.bounded })
        | inr on ↦ rw on (record {
          distinct = Distinct-purge s.ttl now s.entries v.distinct;
          chain = Chain-purge s.ttl 0 s.entries now c;
          bounded = omega (arith, v.bounded, length-purge-le s.ttl now s.entries);
        })
      ]

  refresh-IsOrdered :
      (k : K) (now : ℕ) (d : Dict K ℕ)
      → Distinct d
      → Chain 0 d now
      → Distinct (refresh k now d) × Chain 0 (refresh k now d) now
  unfolding refresh
  refresh-IsOrdered k now d u c = (
    Distinct-snoc k now (without k d) (ground (arith, get-without k k d, e.beq_iff k k))
        (Distinct-without d k u),
    Chain-snoc 0 (without k d) now k (Chain-without 0 d now k c),
  )

  length-refresh :
      (k : K) (now ts : ℕ) (d : Dict K ℕ) → get k d ≡ some ts → length (refresh k now d) ≤ length d
  unfolding refresh
  length-refresh k now ts d h =
      omega (arith, length-append (without k d) ((k, now) ∷ []), length-without-lt k ts d h)

  contains_found :
      (k : K) (now ts : ℕ) (s : LruSet K)
      → get k (purge_expired now s).entries ≡ some ts
      → IsValid (purge_expired now s) now
      → IsValid (contains k now s).0 now
  unfolding contains
  contains_found k now ts s h v =
      let o = refresh-IsOrdered k now (purge_expired now s).entries v.distinct v.chain in
      rw (h, contains)
        (record {
          distinct = o.0;
          chain = o.1;
          bounded =
              omega (arith, length-refresh k now ts (purge_expired now s).entries h, v.bounded);
        })

  contains_missed :
      (k : K) (now : ℕ) (s : LruSet K)
      → get k (purge_expired now s).entries ≡ none
      → IsValid (purge_expired now s) now
      → IsValid (contains k now s).0 now
  unfolding contains
  contains_missed k now s h v = rw (h, contains) v

  -- A membership test keeps the cache valid, if the clock does not go back.
  pub contains-IsValid :
      (k : K) (t now : ℕ) (s : LruSet K) → IsValid s t → t ≤ now → IsValid (contains k now s).0 now
  contains-IsValid k t now s v h =
      let p = purge_expired-IsValid s t now v h in
      elim (Option-cases (get k (purge_expired now s).entries)) [
        | inl missed ↦ contains_missed k now s missed p
        | inr (ts, found) ↦ contains_found k now ts s found p
      ]

  -- An insertion keeps a valid cache valid, if the clock does not go back: no key is in it twice, the
  -- times of use do not fall along it and are not after the insertion, and there are at most
  -- `max_items` entries.
  pub add-IsValid :
      (k : K) (t now : ℕ) (s : LruSet K) → IsValid s t → t ≤ now → IsValid (add k now s) now
  unfolding add
  add-IsValid k t now s v h =
      let p = purge_expired-IsValid s t now v h in
      let o = refresh-IsOrdered k now (purge_expired now s).entries p.distinct p.chain in
      let max = (purge_expired now s).max_items in
      record {
        distinct = Distinct-evict max _ o.0;
        chain = Chain-evict max 0 _ now o.1;
        bounded = length-evict max _;
      }

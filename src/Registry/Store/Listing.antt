-- ===== src/Registry/Store/Listing.antt =====
-- What the list of agents shows, and what a heartbeat leaves as it was.
use agentcy.Prelude.{
  ◌↔◌, ℕ, ◌≤◌, ◌<◌, ◌≡◌, ◌≢◌, refl, String, Bool, true, false, List, [], ◌∷◌, Option, none, map,
  arith, string_eq, eq_iff, put, get-put, leb, leb→le, keep, All, Bool-cases, Option-cases, inl,
  inr,
}
use agentcy.Registry.Entry.{AgentStatus, Entry, Metadata, seconds}
use agentcy.Registry.Policy.{
  max, load_config, judge, evaluate, evaluate_entries, has_expired, age_at, seen_at,
}
use agentcy.Registry.Policy.Ages.{freshness_state-aged}
use agentcy.Registry.Store.{
  Registry, get_raw, fetch_all, heartbeat, beat, expiry_of, Filter, is_stale, is_wanted, is_listed,
  list,
}

keep-map-All {ℓ} :
    {A : Type ℓ} (P : A → Type 0) (p : A → Bool) (f : A → A)
    → ((x : A) → p (f x) ≡ true → P (f x))
    → (xs : List A) → All P (keep p (map f xs))
unfolding keep
keep-map-All P p f h [] = tt
keep-map-All P p f h (x ∷ xs) = elim (Bool-cases (p (f x))) [
  | inl e ↦ rw e (h x e, keep-map-All P p f h xs)
  | inr e ↦ rw e (keep-map-All P p f h xs)
]

-- An entry that has not expired, is younger than the limit and has what the caller asks for.
pub record Shown (warn old : ℕ) (now : ℕ) (filter : Filter) (doc : Entry) : Type 0 where
  pub unexpired : has_expired now doc.expires_at ≡ false
  pub young : 0 < max warn old → age_at now doc < seconds (max warn old)
  pub wanted : is_wanted filter doc ≡ true

module _ (warn old away now : ℕ) (filter : Filter) where
  aged :
      (entry : Entry)
      → is_listed
          (load_config true true warn old away)
          filter
          (evaluate (load_config true true warn old away) now entry)
        ≡ true
      → 0 < max warn old
      → seconds (max warn old) ≤ age_at now entry
      → ⊥
  unfolding is_listed is_stale evaluate judge load_config
  aged entry listed p h =
      ground (arith, listed, freshness_state-aged true true warn old away (age_at now entry) p h)

  evaluate-Shown :
      (entry : Entry)
      → is_listed
          (load_config true true warn old away)
          filter
          (evaluate (load_config true true warn old away) now entry)
        ≡ true
      → Shown warn old now filter (evaluate (load_config true true warn old away) now entry)
  unfolding is_listed is_stale evaluate judge age_at seen_at load_config
  evaluate-Shown entry listed = record {
    unexpired = ground (arith, listed);
    young = λ p. elim (Bool-cases (leb (seconds (max warn old)) (age_at now entry))) [
      | inl e ↦ absurd (aged entry listed p (leb→le _ _ e))
      | inr e ↦ ground (arith, e)
    ];
    wanted = ground (arith, listed);
  }

  -- With the policy in force and stale entries filtered, each agent of the list has not expired, is
  -- younger than the limit of staleness where there is one, and has the service, the capability, the
  -- status and the tags that were asked for.
  pub list-Shown :
      (registry : Registry)
      → All
          (Shown warn old now filter)
          (list (load_config true true warn old away) now filter registry)
  unfolding list load_config evaluate_entries
  list-Shown registry =
      keep-map-All (Shown warn old now filter)
        (is_listed (load_config true true warn old away) filter)
        (evaluate (load_config true true warn old away) now) evaluate-Shown (fetch_all now registry)

module _ (default_ttl now : ℕ) (agent_id : String) (status : Option AgentStatus)
    (ttl_seconds : Option ℕ) (metadata : Metadata) (registry : Registry) where
  -- A heartbeat fails exactly when its agent is not registered or its registration has lapsed, and
  -- then it leaves the registry as it is; no heartbeat changes what is registered for another agent.
  pub heartbeat-others :
      (((heartbeat default_ttl now agent_id status ttl_seconds metadata registry).0 ≡ none)
        ↔ (get_raw now agent_id registry ≡ none))
      × (get_raw now agent_id registry ≡ none
          → (heartbeat default_ttl now agent_id status ttl_seconds metadata registry).1 ≡ registry)
      × ((other : String) (t : ℕ)
          → other ≢ agent_id
          → get_raw t other
              (heartbeat default_ttl now agent_id status ttl_seconds metadata registry).1
            ≡ get_raw t other registry)
  unfolding heartbeat get_raw
  heartbeat-others = elim (Option-cases (get_raw now agent_id registry)) [
    | inl e ↦ rw (e, heartbeat) ((λ h. refl, λ h. refl), λ h. refl, λ other t differs. refl)
    | inr (entry, e) ↦
        rw (e, heartbeat)
          (
            (λ h. absurd (cc h), λ h. absurd (cc h)),
            λ h. absurd (cc h),
            λ other t differs. others entry other t differs,
          )
  ]
    where
      others :
          (entry : Entry) (other : String) (t : ℕ)
          → other ≢ agent_id
          → get_raw t other (
              put agent_id
                (record {
                  entry = beat default_ttl now status ttl_seconds metadata entry;
                  expiry = expiry_of default_ttl now ttl_seconds;
                })
                registry)
            ≡ get_raw t other registry
      others entry other t differs = rw get-put (ground (arith, eq_iff agent_id other, differs))

-- ===== src/Registry/Store.antt =====
-- `AgentRegistryStore` of src/agentcy/orchestrator_core/stores/agent_registry_store.py, for the
-- documents of one user. A document whose expiry has passed is gone from the document store, which
-- is what Couchbase promises. A lifetime of zero or less is none of its own: 0.
-- The coverage of capabilities that the policy adds is not modelled.
pub mod Lives
pub mod Listing
use agentcy.Prelude.{
  ℕ, ◌+◌, ◌*◌, ◌≤◌, String, Bool, true, false, not, ◌&&◌, ◌||◌, List, [], ◌∷◌, Option, none, some,
  ◌==◌, string_eq, keep, contains, Dict, get, put, without, leb, ltb, nat_beq, truthy,
  if◌then◌else◌,
}
use agentcy.Registry.Entry.{Entry, AgentStatus, value_of, Item, Metadata, Policy, seconds}
use agentcy.Registry.Policy.{Config, evaluate, evaluate_entries, has_expired}

-- A document and the time at which the document store drops it.
pub record Stored : Type 0 where
  pub entry : Entry
  pub expiry : Option ℕ

abbrev pub Registry : Type 0
Registry = Dict String Stored

-- self._default_ttl if ttl_seconds is None else ttl_seconds
unfoldable pub effective_ttl : ℕ → Option ℕ → ℕ
effective_ttl default_ttl none = default_ttl
effective_ttl default_ttl (some ttl) = ttl

unfoldable pub expiry_of : ℕ → ℕ → Option ℕ → Option ℕ
expiry_of default_ttl now ttl_seconds =
    let ttl = effective_ttl default_ttl ttl_seconds in
    if ltb 0 ttl then some (now + seconds ttl) else none

unfoldable pub live : ℕ → Option Stored → Option Entry
live now none = none
live now (some doc) = if has_expired now doc.expiry then none else some doc.entry

unfoldable pub get_raw : ℕ → String → Registry → Option Entry
get_raw now agent_id registry = live now (get agent_id registry)

unfoldable pub fetch_all : ℕ → Registry → List Entry
fetch_all now [] = []
fetch_all now ((agent_id, doc) ∷ registry) =
    let rest = fetch_all now registry in
    if has_expired now doc.expiry then rest else doc.entry ∷ rest

-- a or b, for values of which `none` is the only false one.
abbrev pub or_some {ℓ} : {A : Type ℓ} → Option A → A → Option A
or_some none b = some b
or_some (some a) b = some a

unfoldable pub or_owner : Option String → String → Option String
or_owner none username = some username
or_owner (some owner) username = if truthy owner then some owner else some username

-- current.update(metadata), as far as the values of the keys go: new keys stand in another order.
unfoldable pub update : Metadata → Metadata → Metadata
update current [] = current
update current ((k, v) ∷ new) = put k v (update current new)

abbrev pub or_status : Option AgentStatus → AgentStatus → AgentStatus
or_status none old = old
or_status (some status) old = status

module _ (default_ttl : ℕ) (now : ℕ) where
  unfoldable pub upsert : String → Entry → Option ℕ → Registry → Registry
  upsert username entry ttl_seconds registry =
      let expiry = expiry_of default_ttl now ttl_seconds in
      let payload : Entry = record entry {
        owner = or_owner entry.owner username;
        last_heartbeat = some now;
        registered_at = or_some entry.registered_at now;
        expires_at = elim expiry [ none ↦ entry.expires_at | some t ↦ some t ];
      } in
      put entry.agent_id (record { entry = payload; expiry = expiry }) registry

  -- `expires_at` of a heartbeat: a lifetime sets it, and an own lifetime of zero takes it away.
  unfoldable pub renewed : Option ℕ → Option ℕ → Option ℕ
  renewed ttl_seconds old = elim (expiry_of default_ttl now ttl_seconds) [
    | some t ↦ some t
    | none ↦ elim ttl_seconds [ none ↦ old | some ttl ↦ none ]
  ]

  unfoldable pub beat : Option AgentStatus → Option ℕ → Metadata → Entry → Entry
  beat status ttl_seconds metadata doc = record doc {
    last_heartbeat = some now;
    status = or_status status doc.status;
    metadata = update doc.metadata metadata;
    expires_at = renewed ttl_seconds doc.expires_at;
  }

  -- The entry as it was written, or `none` for `AgentNotFound`, and the registry afterwards.
  unfoldable pub heartbeat :
      String → Option AgentStatus → Option ℕ → Metadata → Registry → Option Entry × Registry
  heartbeat agent_id status ttl_seconds metadata registry = elim (get_raw now agent_id registry) [
    | none ↦ (none, registry)
    | some entry ↦
        let doc = beat status ttl_seconds metadata entry in
        let stored : Stored = record {
          entry = doc;
          expiry = expiry_of default_ttl now ttl_seconds;
        } in
        (some doc, put agent_id stored registry)
  ]

-- The document store raises where there is nothing to remove: `none`.
unfoldable pub delete : ℕ → String → Registry → Option Registry
delete now agent_id registry = elim (get_raw now agent_id registry) [
  | none ↦ none
  | some entry ↦ some (without agent_id registry)
]

unfoldable pub get_entry : Config → ℕ → String → Registry → Option Entry
get_entry config now agent_id registry = elim (get_raw now agent_id registry) [
  | none ↦ none
  | some entry ↦ some (if config.enable then evaluate config now entry else entry)
]

-- What a caller of `list` asks for; an empty string or list asks for nothing. The status is the one
-- that `strip` and `lower` leave of it.
pub record Filter : Type 0 where
  pub service_name : String
  pub capability : String
  pub status : String
  pub tags : List String

-- The value of the effective status, where the policy has one: no value is empty.
unfoldable pub doc_status : Entry → String
doc_status doc = elim doc.policy.effective_status [
  | none ↦ value_of doc.status
  | some status ↦ value_of status
]

unfoldable pub is_stale : Entry → Bool
is_stale doc = elim doc.policy.stale [ none ↦ false | some stale ↦ stale ]

unfoldable pub is_subset : List String → List String → Bool
is_subset [] tags = true
is_subset (t ∷ ts) tags = let rest = is_subset ts tags in if contains t tags then rest else false

-- The conditions of `list` on an entry, after that on its freshness.
unfoldable pub is_wanted : Filter → Entry → Bool
is_wanted filter doc =
    (if truthy filter.service_name then doc.service_name == filter.service_name else true)
    && (if truthy filter.capability then contains filter.capability doc.capabilities else true)
    && (if truthy filter.status then doc_status doc == filter.status else true)
    && is_subset filter.tags doc.tags

unfoldable pub is_listed : Config → Filter → Entry → Bool
is_listed config filter doc =
    not (config.enable && config.filter_stale && is_stale doc) && is_wanted filter doc

unfoldable pub list : Config → ℕ → Filter → Registry → List Entry
list config now filter registry =
    let docs = fetch_all now registry in
    keep (is_listed config filter)
      (if config.enable then evaluate_entries config now docs else docs)

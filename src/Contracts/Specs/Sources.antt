-- ===== src/Contracts/Specs/Sources.antt =====
-- The spec that a build takes for a task.
use agentcy.Prelude.{
  ◌≡◌, refl, ap, String, Bool, true, false, List, [], ◌∷◌, Option, none, some, arith, ◌==◌,
  string_eq, eq_iff, contains, keys, get, put, get-put, All, if◌then◌else◌, Option-cases, inl, inr,
}
use agentcy.Contracts.Awards.{Env, TaskSpec}
use agentcy.Contracts.Drafts.Sequences.{Distinct}
use agentcy.Contracts.Specs.{StoredSpec, Specs, concerns, collect, set_default, set_defaults}

-- The first of two that there is.
abbrev pub first_of : Option TaskSpec → Option TaskSpec → Option TaskSpec
first_of (some spec) other = some spec
first_of none other = other

-- The spec of a stored document that is valid, concerns the build and is of the task.
abbrev pub stored_in : Env → String → StoredSpec → Option TaskSpec
stored_in env t doc = elim doc.validated [
  | none ↦ none
  | some spec ↦ if concerns env doc then (if spec.task_id == t then some spec else none) else none
]

unfoldable pub last_stored : Env → String → List StoredSpec → Option TaskSpec
last_stored env t [] = none
last_stored env t (doc ∷ docs) = first_of (last_stored env t docs) (stored_in env t doc)

unfoldable pub first_configured : String → List TaskSpec → Option TaskSpec
first_configured t [] = none
first_configured t (spec ∷ specs) =
    let rest = first_configured t specs in if spec.task_id == t then some spec else rest

-- The spec that a build takes for a task: the last one stored, or else the first one configured.
abbrev pub spec_for : Env → List StoredSpec → List TaskSpec → String → Option TaskSpec
spec_for env docs configured t = first_of (last_stored env t docs) (first_configured t configured)

abbrev pub is_some {ℓ} : {A : Type ℓ} → Option A → Bool
is_some none = false
is_some (some x) = true

get-collect :
    (env : Env) (t : String) (docs : List StoredSpec) (specs : Specs)
    → get t (collect env docs specs) ≡ first_of (last_stored env t docs) (get t specs)
unfolding collect last_stored
get-collect env t [] specs = refl
get-collect env t (doc ∷ docs) specs = elim (Option-cases doc.validated) [
  | inl e ↦ rw (e, collect) (ground (arith, get-collect env t docs specs, e))
  | inr (spec, e) ↦
      rw (e, collect)
        (ground (
          arith,
          get-collect env t docs (if concerns env doc then put spec.task_id spec specs else specs),
          get-put spec.task_id t spec specs,
          e,
        ))
]

get-set_default :
    (t : String) (spec : TaskSpec) (specs : Specs)
    → get t (set_default spec specs)
      ≡ first_of (get t specs) (if spec.task_id == t then some spec else none)
unfolding set_default
get-set_default t spec specs = elim (Option-cases (get spec.task_id specs)) [
  | inl e ↦
      rw (e, set_default)
        (ground (
          arith,
          get-put spec.task_id t spec specs,
          eq_iff spec.task_id t,
          e,
          ap (λ k. get k specs),
        ))
  | inr (old, e) ↦
      rw (e, set_default) (ground (arith, eq_iff spec.task_id t, e, ap (λ k. get k specs)))
]

get-set_defaults :
    (t : String) (more : List TaskSpec) (specs : Specs)
    → get t (set_defaults more specs) ≡ first_of (get t specs) (first_configured t more)
unfolding set_defaults first_configured
get-set_defaults t [] specs = ground arith
get-set_defaults t (spec ∷ more) specs =
    ground (arith, get-set_defaults t more (set_default spec specs), get-set_default t spec specs)

pub get-gathered :
    (env : Env) (docs : List StoredSpec) (configured : List TaskSpec) (t : String)
    → get t (set_defaults configured (collect env docs [])) ≡ spec_for env docs configured t
unfolding get
get-gathered env docs configured t =
    ground (arith, get-set_defaults t configured (collect env docs []), get-collect env t docs [])

pub contains-keys : (t : String) (specs : Specs) → contains t (keys specs) ≡ is_some (get t specs)
unfolding contains get
contains-keys t [] = refl
contains-keys t ((k, spec) ∷ specs) = ground (arith, contains-keys t specs)

still_found :
    (k : String) (spec : TaskSpec) (whole specs : Specs)
    → contains k (keys specs) ≡ false
    → All (λ p. get p.0 whole ≡ some p.1) specs
    → All (λ p. get p.0 ((k, spec) ∷ whole) ≡ some p.1) specs
unfolding get contains
still_found k spec whole [] new found = tt
still_found k spec whole ((j, s) ∷ specs) new (f, found) = (
  ground (arith, f, new, eq_iff k j, eq_iff j k),
  still_found k spec whole specs (ground (arith, new)) found,
)

-- Each entry of a dictionary is found under its key.
pub all_found : (specs : Specs) → Distinct (keys specs) → All (λ p. get p.0 specs ≡ some p.1) specs
unfolding get
all_found [] d = tt
all_found ((k, spec) ∷ specs) (new, d) =
    (ground (arith, eq_iff k k), still_found k spec specs specs new (all_found specs d))

-- ===== src/Topology/Mutation/Dag.antt =====
-- Plans whose dependencies are steps and have no cycle, and how lists of steps keep a predicate.
use agentcy.Prelude.{
  ℕ, zero, suc, ◌<◌, ◌≡◌, refl, subst, Option-cases, String, Bool, true, ◌||◌, List, [], ◌∷◌, ◌++◌,
  some, map, arith, ◌==◌, string_eq, eq_iff, contains, keep, All, Bool-cases, inl, inr,
}
use agentcy.Topology.Mutation.{
  SkeletonStep, insert_at, pop_at, find_step, replace_first, from_keys, find_step_index,
}

abbrev pub ids_of : List SkeletonStep → List String
ids_of steps = map (λ s. s.step_id) steps

-- The dependencies of a step are among the steps and stand below it.
abbrev pub IsBelow : (String → ℕ) → List String → SkeletonStep → Type 0
IsBelow rank ids s = All (λ d. (contains d ids ≡ true) × (rank d < rank s.step_id)) s.dependencies

-- Every dependency is a step, and the steps have ranks that each dependency lowers, so that there
-- is no cycle.
abbrev pub IsDag : (String → ℕ) → List SkeletonStep → Type 0
IsDag rank steps = All (IsBelow rank (ids_of steps)) steps

module _ {ℓ} {A : Type ℓ} where
  pub All-mono {κ} :
      (P : A → Type κ) (Q : A → Type κ) (xs : List A) → ((x : A) → P x → Q x) → All P xs → All Q xs
  All-mono P Q [] f all = tt
  All-mono P Q (x ∷ xs) f (p, all) = (f x p, All-mono P Q xs f all)

  pub All-both {κ} :
      (P : A → Type κ) (Q : A → Type κ) (xs : List A)
      → All P xs
      → All Q xs
      → All (λ x. P x × Q x) xs
  All-both P Q [] ps qs = tt
  All-both P Q (x ∷ xs) (p, ps) (q, qs) = ((p, q), All-both P Q xs ps qs)

  pub All-append {κ} : (P : A → Type κ) (xs ys : List A) → All P xs → All P ys → All P (xs ++ ys)
  All-append P [] ys ps qs = qs
  All-append P (x ∷ xs) ys (p, ps) qs = (p, All-append P xs ys ps qs)

  -- A filter keeps a predicate, and may use its test.
  pub All-keep {κ} :
      (P : A → Type κ) (Q : A → Type κ) (p : A → Bool) (xs : List A)
      → ((x : A) → P x → p x ≡ true → Q x)
      → All P xs
      → All Q (keep p xs)
  unfolding keep
  All-keep P Q p [] f all = tt
  All-keep P Q p (x ∷ xs) f (h, all) = elim (Bool-cases (p x)) [
    | inl e ↦ rw e (f x h e, All-keep P Q p xs f all)
    | inr e ↦ rw e (All-keep P Q p xs f all)
  ]

pub All-map {ℓ κ λ'} :
    {A : Type ℓ} {B : Type κ} (P : B → Type λ') (f : A → B) (xs : List A)
    → All (λ x. P (f x)) xs
    → All P (map f xs)
All-map P f [] all = tt
All-map P f (x ∷ xs) (p, all) = (p, All-map P f xs all)

pub All-from_keys :
    (P : String → Type 0) (seen deps : List String) → All P deps → All P (from_keys seen deps)
unfolding from_keys
All-from_keys P seen [] all = tt
All-from_keys P seen (d ∷ deps) (p, all) = elim (Bool-cases (contains d seen)) [
  | inl e ↦ rw e (All-from_keys P seen deps all)
  | inr e ↦ rw e (p, All-from_keys P (d ∷ seen) deps all)
]

module _ (P : SkeletonStep → Type 0) where
  pub All-insert_at :
      (i : ℕ) (s : SkeletonStep) (steps : List SkeletonStep)
      → P s
      → All P steps
      → All P (insert_at i s steps)
  unfolding insert_at
  All-insert_at zero s steps p all = (p, all)
  All-insert_at (suc i) s [] p all = (p, tt)
  All-insert_at (suc i) s (t ∷ steps) p (q, all) = (q, All-insert_at i s steps p all)

  pub All-pop_at : (i : ℕ) (steps : List SkeletonStep) → All P steps → All P (pop_at i steps)
  unfolding pop_at
  All-pop_at i [] all = tt
  All-pop_at zero (s ∷ steps) (p, all) = all
  All-pop_at (suc i) (s ∷ steps) (p, all) = (p, All-pop_at i steps all)

  pub All-replace_first :
      (t : String) (f : SkeletonStep → SkeletonStep) (steps : List SkeletonStep)
      → ((s : SkeletonStep) → s.step_id ≡ t → P (f s))
      → All P steps
      → All P (replace_first t f steps)
  unfolding replace_first
  All-replace_first t f [] g all = tt
  All-replace_first t f (s ∷ steps) g (p, all) = elim (Bool-cases (s.step_id == t)) [
    | inl e ↦ rw e (g s ((eq_iff s.step_id t).0 e), all)
    | inr e ↦ rw e (p, All-replace_first t f steps g all)
  ]

  pub find_step-All :
      (t : String) (steps : List SkeletonStep) (s : SkeletonStep)
      → find_step t steps ≡ some s
      → All P steps
      → P s
  unfolding find_step
  find_step-All t [] s e all = absurd (cc e)
  find_step-All t (u ∷ steps) s e (p, all) = elim (Bool-cases (u.step_id == t)) [
    | inl same ↦ subst P (cc (e, same)) p
    | inr other ↦ find_step-All t steps s (ground (arith, e, other)) all
  ]

pub contains-insert_at :
    (d : String) (i : ℕ) (s : SkeletonStep) (steps : List SkeletonStep)
    → contains d (ids_of (insert_at i s steps)) ≡ (contains d (ids_of steps) || s.step_id == d)
unfolding insert_at contains
contains-insert_at d zero s steps = ground arith
contains-insert_at d (suc i) s [] = ground arith
contains-insert_at d (suc i) s (t ∷ steps) = ground (arith, contains-insert_at d i s steps)

pub All-contains :
    (steps : List SkeletonStep) → All (λ s. contains s.step_id (ids_of steps) ≡ true) steps
unfolding contains
All-contains [] = tt
All-contains (s ∷ steps) = (
  ground (arith, eq_iff s.step_id s.step_id),
  All-mono _ _ steps (λ t h. ground (arith, h)) (All-contains steps),
)

pub found-contains :
    (t : String) (i : ℕ) (steps : List SkeletonStep)
    → find_step_index steps t ≡ some i
    → contains t (ids_of steps) ≡ true
unfolding find_step_index contains
found-contains t i [] e = absurd (cc e)
found-contains t i (s ∷ steps) e = elim (Bool-cases (s.step_id == t)) [
  | inl same ↦ rw same refl
  | inr other ↦ elim (Option-cases (find_step_index steps t)) [
    | inl absent ↦ absurd (cc (e, other, absent))
    | inr (j, found) ↦ rw other (found-contains t j steps found)
  ]
]

pub map-ids_of :
    (f : SkeletonStep → SkeletonStep) (steps : List SkeletonStep)
    → ((s : SkeletonStep) → (f s).step_id ≡ s.step_id)
    → ids_of (map f steps) ≡ ids_of steps
map-ids_of f [] same = refl
map-ids_of f (s ∷ steps) same = cc (same s, map-ids_of f steps same)

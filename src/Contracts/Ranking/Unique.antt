-- ===== src/Contracts/Ranking/Unique.antt =====
-- A ranking is determined by its classes, so the sort has one possible result.
use agentcy.Prelude.{
  ℕ, ◌≤◌, ◌<◌, ◌≡◌, refl, sym, ◌∙◌, ap, List, [], ◌∷◌, leb, leb→le, All, keep, arith, Bool-cases,
  inl, inr,
}
use agentcy.Contracts.Ranking.{IsRanked}
use agentcy.Contracts.Ranking.Order.{class_of}

tail_of {ℓ} : {A : Type ℓ} → List A → List A
tail_of [] = []
tail_of (x ∷ xs) = xs

module _ {ℓ} {A : Type ℓ} (score : A → ℕ) where
  class_of-own :
      (x : A) (xs : List A) → class_of score (score x) (x ∷ xs) ≡ x ∷ class_of score (score x) xs
  unfolding keep class_of
  class_of-own x xs = ground arith

  -- Above all of them there is no class.
  class_of-above : (k : ℕ) (xs : List A) → All (λ y. score y < k) xs → class_of score k xs ≡ []
  unfolding keep class_of
  class_of-above k [] h = refl
  class_of-above k (x ∷ xs) (b, bs) = ground (arith, class_of-above k xs bs)

  below-lt : (m k : ℕ) (xs : List A) → m < k → All (λ y. score y ≤ m) xs → All (λ y. score y < k) xs
  below-lt m k [] h below = tt
  below-lt m k (x ∷ xs) h (b, bs) = (omega arith, below-lt m k xs h bs)

  -- The first of a ranking with the same classes cannot have a smaller key.
  first_le :
      (x y : A) (xs ys : List A)
      → IsRanked score (x ∷ xs)
      → class_of score (score y) (x ∷ xs) ≡ class_of score (score y) (y ∷ ys)
      → score y ≤ score x
  first_le x y xs ys (below, r) same = elim (Bool-cases (leb (score y) (score x))) [
    | inl e ↦ leb→le _ _ e
    | inr e ↦ cc (
      class_of-above (score y) (x ∷ xs)
          (ground (arith, e), below-lt (score x) (score y) xs (ground (arith, e)) below),
      class_of-own y ys,
      same,
    )
  ]

  class_of-nil : (k : ℕ) → class_of score k [] ≡ []
  unfolding keep class_of
  class_of-nil k = refl

  tail_same :
      (k : ℕ) (x y : A) (xs ys : List A)
      → x ≡ y
      → class_of score k (x ∷ xs) ≡ class_of score k (y ∷ ys)
      → class_of score k xs ≡ class_of score k ys
  unfolding keep class_of
  tail_same k x y xs ys e h = ground (arith, h, ap score e)

  pub ranking_unique :
      (xs ys : List A)
      → IsRanked score xs
      → IsRanked score ys
      → ((k : ℕ) → class_of score k xs ≡ class_of score k ys)
      → xs ≡ ys
  ranking_unique [] [] rx ry same = refl
  ranking_unique [] (y ∷ ys) rx ry same =
      cc (class_of-nil (score y), same (score y), class_of-own y ys)
  ranking_unique (x ∷ xs) [] rx ry same =
      cc (class_of-nil (score x), same (score x), class_of-own x xs)
  ranking_unique (x ∷ xs) (y ∷ ys) (bx, rx) (by, ry) same =
      ap (λ z. z ∷ xs) first_same
      ∙ ap (◌∷◌ y) (ranking_unique xs ys rx ry (λ k. tail_same k x y xs ys first_same (same k)))
    where
      equal_keys : score x ≡ score y
      equal_keys = omega (
        arith,
        first_le x y xs ys (bx, rx) (same (score y)),
        first_le y x ys xs (by, ry) (sym (same (score x))),
      )

      first_same : x ≡ y
      first_same = cc (class_of-own x xs, same (score x), class_of-own y ys, equal_keys)

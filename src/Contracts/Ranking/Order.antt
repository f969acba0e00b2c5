-- ===== src/Contracts/Ranking/Order.antt =====
-- The sort by falling key orders its list and loses nothing.
use agentcy.Prelude.{
  ℕ, ◌≤◌, ◌≡◌, refl, ◌∙◌, List, [], ◌∷◌, leb, leb→le, nat_beq, nat_eq, if◌then◌else◌, All, keep,
  arith, Bool-cases, inl, inr, ap,
}
use agentcy.Contracts.Ranking.{insert_desc, sort_desc, IsRanked}

-- The elements with the key `k`, in their order.
unfoldable pub class_of {ℓ} : {A : Type ℓ} (score : A → ℕ) → ℕ → List A → List A
class_of score k xs = keep (λ x. nat_beq (score x) k) xs

module _ {ℓ} {A : Type ℓ} (score : A → ℕ) where
  below_mono :
      (m n : ℕ) (xs : List A) → m ≤ n → All (λ y. score y ≤ m) xs → All (λ y. score y ≤ n) xs
  below_mono m n [] h below = tt
  below_mono m n (x ∷ xs) h (b, bs) = (omega arith, below_mono m n xs h bs)

  insert_desc_below :
      (n : ℕ) (b : A) (cs : List A)
      → score b ≤ n
      → All (λ y. score y ≤ n) cs
      → All (λ y. score y ≤ n) (insert_desc score b cs)
  unfolding insert_desc
  insert_desc_below n b [] h below = (h, tt)
  insert_desc_below n b (c ∷ cs) h (hc, below) = elim (Bool-cases (leb (score c) (score b))) [
    | inl e ↦ rw e (h, (hc, below))
    | inr e ↦ rw e (hc, insert_desc_below n b cs h below)
  ]

  insert_desc-IsRanked :
      (b : A) (cs : List A) → IsRanked score cs → IsRanked score (insert_desc score b cs)
  unfolding insert_desc
  insert_desc-IsRanked b [] r = (tt, tt)
  insert_desc-IsRanked b (c ∷ cs) (below, r) = elim (Bool-cases (leb (score c) (score b))) [
    | inl e ↦
        rw e ((leb→le _ _ e, below_mono (score c) (score b) cs (leb→le _ _ e) below), (below, r))
    | inr e ↦
        rw e
          (insert_desc_below (score c) b cs (ground (arith, e)) below, insert_desc-IsRanked b cs r)
  ]

  pub sort_desc-IsRanked : (xs : List A) → IsRanked score (sort_desc score xs)
  unfolding sort_desc
  sort_desc-IsRanked [] = tt
  sort_desc-IsRanked (x ∷ xs) = insert_desc-IsRanked x (sort_desc score xs) (sort_desc-IsRanked xs)

  -- An element goes before those with its key, so each class grows at its front only.
  class_of-insert_desc :
      (k : ℕ) (b : A) (cs : List A)
      → class_of score k (insert_desc score b cs) ≡ class_of score k (b ∷ cs)
  unfolding insert_desc keep class_of
  class_of-insert_desc k b [] = refl
  class_of-insert_desc k b (c ∷ cs) = ground (arith, class_of-insert_desc k b cs)

  pub class_of-sort_desc :
      (k : ℕ) (xs : List A) → class_of score k (sort_desc score xs) ≡ class_of score k xs
  unfolding sort_desc keep class_of
  class_of-sort_desc k [] = refl
  class_of-sort_desc k (x ∷ xs) =
      class_of-insert_desc k x (sort_desc score xs)
      ∙ ap (λ t. if nat_beq (score x) k then x ∷ t else t) (class_of-sort_desc k xs)

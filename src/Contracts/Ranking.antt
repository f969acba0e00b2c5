-- ===== src/Contracts/Ranking.antt =====
-- Python's `list.sort(key=..., reverse=True)`, which keeps the order of elements with one key, for
-- the candidates of src/agentcy/agent_runtime/services/graph_builder.py.
pub mod Order
pub mod Unique
use agentcy.Prelude.{ℕ, ◌≤◌, List, [], ◌∷◌, Option, none, some, leb, if◌then◌else◌, All}

module _ {ℓ} {A : Type ℓ} (score : A → ℕ) where
  unfoldable pub insert_desc : A → List A → List A
  insert_desc b [] = b ∷ []
  insert_desc b (c ∷ cs) =
      let rest = insert_desc b cs in if leb (score c) (score b) then b ∷ c ∷ cs else c ∷ rest

  unfoldable pub sort_desc : List A → List A
  sort_desc [] = []
  sort_desc (b ∷ bs) = insert_desc b (sort_desc bs)

  -- No element has a greater key than one before it.
  abbrev pub IsRanked : List A → Type ℓ
  IsRanked [] = Unit
  IsRanked (x ∷ xs) = All (λ y. score y ≤ score x) xs × IsRanked xs

abbrev pub head? {ℓ} : {A : Type ℓ} → List A → Option A
head? [] = none
head? (x ∷ xs) = some x

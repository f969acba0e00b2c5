-- ===== src/Tracker/Sequence/Offers.antt =====
-- The candidates that a sequence offers, call after call.
use agentcy.Prelude.{
  ℕ, zero, suc, ◌+◌, ◌≤◌, ◌<◌, ◌≡◌, refl, ap, ◌∙◌, List, [], ◌∷◌, none, some, false, arith, get,
  put, get-put, get_elem?, length, leb, take, drop, drop-nil_of_length-le, get_elem?_of_lt, leb→le,
  Bool-cases, inl, inr,
}
use native.Mathlib.Numerals.{add-one}
use agentcy.Prelude.Keys.{Triple, triple_eq, triple_beq_iff}
use agentcy.Tracker.Sequence.{
  Candidate, EvaluationSequence, SequenceStore, Advanced, advance_evaluation_sequence,
}

-- The answers of `n` calls in a row, up to the first that finds nobody.
pub offers : ℕ → Triple → SequenceStore → List (Candidate × ℕ)
offers zero key store = []
offers (suc n) key store = elim (advance_evaluation_sequence key store).1 [
  | none ↦ []
  | some offer ↦ offer ∷ offers n key (advance_evaluation_sequence key store).0
]

-- The positions from `i` on, beside the elements.
abbrev pub indexed : ℕ → List Candidate → List (Candidate × ℕ)
indexed i [] = []
indexed i (c ∷ cs) = (c, i) ∷ indexed (suc i) cs

module _ (key : Triple) (store : SequenceStore) (doc : EvaluationSequence)
    (stored : get key store ≡ some doc) where
  advance_exhausted :
      length doc.candidates ≤ doc.current_index + 1
      → advance_evaluation_sequence key store ≡ (store, none)
  unfolding advance_evaluation_sequence
  advance_exhausted h = rw (stored, advance_evaluation_sequence) (ground arith)

  pub advance_next :
      (c : Candidate)
      → doc.current_index + 1 < length doc.candidates
      → get_elem? doc.candidates (doc.current_index + 1) ≡ some c
      → advance_evaluation_sequence key store ≡ (
        put key (record doc { current_index = doc.current_index + 1 }) store,
        some (c, doc.current_index + 1),
      )
  unfolding advance_evaluation_sequence
  advance_next c h found = rw (stored, advance_evaluation_sequence) (ground (arith, found))

offers_more :
    (n : ℕ) (key : Triple) (store store' : SequenceStore) (offer : Candidate × ℕ)
    → advance_evaluation_sequence key store ≡ (store', some offer)
    → offers (suc n) key store ≡ offer ∷ offers n key store'
unfolding offers
offers_more n key store store' offer e =
    ap
      (λ (a : Advanced).
        let l : List (Candidate × ℕ) = elim a.1 [ none ↦ [] | some o ↦ o ∷ offers n key a.0 ] in l)
      e

-- Calls in a row offer the candidates behind the current one, each once and in their order, with
-- their positions, and then nobody: as many as there are, or as there are calls.
pub offers-eq-rest :
    (n : ℕ) (key : Triple) (store : SequenceStore) (doc : EvaluationSequence)
    → get key store ≡ some doc
    → offers n key store
      ≡ take n (indexed (doc.current_index + 1) (drop (doc.current_index + 1) doc.candidates))
unfolding offers
offers-eq-rest zero key store doc stored = refl
offers-eq-rest (suc n) key store doc stored =
    elim (Bool-cases (leb (length doc.candidates) (doc.current_index + 1))) [
      | inl over ↦
          rw (advance_exhausted key store doc stored (leb→le _ _ over), offers)
            (rw (drop-nil_of_length-le (doc.current_index + 1) doc.candidates (leb→le _ _ over))
              refl)
      | inr more ↦
          let i = doc.current_index + 1 in
          let (c, found, rest) = get_elem?_of_lt i doc.candidates (not_over more) in
          let doc' : EvaluationSequence = record doc { current_index = i } in
          offers_more n key store _ (c, i)
            (advance_next key store doc stored c (not_over more) found)
          ∙ rw rest (
              ap (◌∷◌ (c, i)) (
                offers-eq-rest n key (put key doc' store) doc'
                  (rw get-put (rw ((triple_beq_iff key key).1 refl) refl))
                ∙ ap (λ (k : ℕ). take n (indexed k (drop k doc.candidates))) (add-one i)))
    ]
  where
    not_over :
        leb (length doc.candidates) (doc.current_index + 1) ≡ false
        → doc.current_index + 1 < length doc.candidates
    not_over h = ground arith

-- ===== src/Contracts/Drafts/Sequences.antt =====
-- The evaluation sequences that a build stores.
use agentcy.Prelude.{
  ◌<◌, ◌≡◌, refl, subst, ◌∙◌, ap, String, false, ◌||◌, ◌&&◌, List, [], ◌∷◌, some, arith, ◌==◌,
  string_eq, eq_iff, contains, Dict, keys, get, put, get-put, length, ltb, if◌then◌else◌,
  Option-cases, Bool-cases, inl, inr,
}
use agentcy.Prelude.Keys.{triple_eq, triple_beq}
use agentcy.Tracker.Sequence.{SequenceStore}
use agentcy.Contracts.Bids.{Bid, Rules, entrant, note_bid, group_from, sort_each}
use agentcy.Contracts.Drafts.{
  sequence_key, sequence_of, save_evaluation_sequence, save_one, save_each,
}

abbrev pub Distinct : List String → Type 0
Distinct [] = Unit
Distinct (x ∷ xs) = (contains x xs ≡ false) × Distinct xs

module _ {V : Type 0} where
  contains-put :
      (k j : String) (v : V) (d : Dict String V)
      → contains k (keys (put j v d)) ≡ (contains k (keys d) || j == k)
  unfolding put contains
  contains-put k j v [] = ground arith
  contains-put k j v ((i, w) ∷ d) =
      ground (arith, eq_iff i j, eq_iff j k, eq_iff i k, contains-put k j v d)

  pub put-Distinct :
      (j : String) (v : V) (d : Dict String V) → Distinct (keys d) → Distinct (keys (put j v d))
  unfolding put contains
  put-Distinct j v [] h = (refl, tt)
  put-Distinct j v ((i, w) ∷ d) (new, h) = elim (Bool-cases (i == j)) [
    | inl e ↦ rw e (subst (λ k. contains k (keys d) ≡ false) ((eq_iff i j).0 e) new, h)
    | inr e ↦
        rw e
          (rw contains-put (ground (arith, new, e, eq_iff i j, eq_iff j i)), put-Distinct j v d h)
  ]

pub group_from-Distinct :
    (rules : Rules) (bids : List Bid) (d : Dict String (List Bid))
    → Distinct (keys d)
    → Distinct (keys (group_from rules bids d))
unfolding group_from note_bid
group_from-Distinct rules [] d h = h
group_from-Distinct rules (bid ∷ bids) d h = elim (Option-cases (entrant rules bid)) [
  | inl e ↦ rw (e, note_bid) (group_from-Distinct rules bids d h)
  | inr (t, e) ↦ rw (e, note_bid) (group_from-Distinct rules bids _ (put-Distinct t _ d h))
]

pub keys-sort_each : (d : Dict String (List Bid)) → keys (sort_each d) ≡ keys d
unfolding sort_each
keys-sort_each [] = refl
keys-sort_each ((t, bids) ∷ d) = ap (◌∷◌ t) (keys-sort_each d)

module _ (username plan_id : String) where
  same_task :
      (t s : String)
      → triple_beq (sequence_key username t plan_id) (sequence_key username s plan_id) ≡ (t == s)
  unfolding triple_beq
  same_task t s = ground (arith, eq_iff username username, eq_iff plan_id plan_id, eq_iff t s)

  get-save_one :
      (t s : String) (bids : List Bid) (store : SequenceStore)
      → get (sequence_key username t plan_id) (save_one username plan_id s bids store) ≡ (
          if s == t && ltb 1 (length bids)
          then some (sequence_of bids)
          else get (sequence_key username t plan_id) store)
  unfolding save_one save_evaluation_sequence
  get-save_one t s bids store = elim (Bool-cases (ltb 1 (length bids))) [
    | inl e ↦ rw e (rw get-put (rw same_task (ground arith)))
    | inr e ↦ rw e (ground arith)
  ]

  save_each-other :
      (t : String) (ranked : Dict String (List Bid)) (store : SequenceStore)
      → contains t (keys ranked) ≡ false
      → get (sequence_key username t plan_id) (save_each username plan_id ranked store)
        ≡ get (sequence_key username t plan_id) store
  unfolding save_each contains
  save_each-other t [] store absent = refl
  save_each-other t ((s, bids) ∷ ranked) store absent =
      save_each-other t ranked _ (ground (arith, absent)) ∙ rw get-save_one (ground (arith, absent))

  -- A task with two bids or more in its ranking has it stored.
  pub save_each-get :
      (t : String) (bids : List Bid) (ranked : Dict String (List Bid)) (store : SequenceStore)
      → Distinct (keys ranked)
      → get t ranked ≡ some bids
      → 1 < length bids
      → get (sequence_key username t plan_id) (save_each username plan_id ranked store)
        ≡ some (sequence_of bids)
  unfolding save_each get
  save_each-get t bids [] store distinct found more = absurd (cc found)
  save_each-get t bids ((s, bs) ∷ ranked) store (new, distinct) found more =
      elim (Bool-cases (s == t)) [
        | inl e ↦
            save_each-other t ranked _
              (subst (λ k. contains k (keys ranked) ≡ false) ((eq_iff s t).0 e) new)
            ∙ rw get-save_one (ground (arith, e, found, more))
        | inr e ↦ save_each-get t bids ranked _ distinct (ground (arith, e, found)) more
      ]

-- ===== src/Contracts/Bids/Best.antt =====
-- The best bid of a task is the first of its ranking.
use agentcy.Prelude.{
  String, ◌≡◌, refl, sym, ap, ◌∙◌, Bool, false, List, [], ◌∷◌, ◌++◌, Option, none, some, ◌==◌,
  string_eq, eq_iff, Dict, get, get-put, leb, if◌then◌else◌, truthy, ◌&&◌, keep, arith, append-nil,
  append_assoc, Option-cases, inl, inr,
}
use agentcy.Contracts.Ranking.{insert_desc, sort_desc, head?}
use agentcy.Contracts.Bids.{
  Bid, Rules, score_of, is_allowed, min_score, entrant, better, note_best, best_from, best_bids,
  or_nil, note_bid, group_from, sort_each, ranked_bids,
}

-- The bid is for the task, answers an open call and has the score that is asked for.
unfoldable pub qualifies_for : Rules → String → Bid → Bool
qualifies_for rules task_id bid =
    truthy task_id
    && (elim bid.task_id [ none ↦ false | some t ↦ t == task_id ])
    && is_allowed rules bid
    && leb (min_score rules bid) (score_of bid)

-- The bids that are taken for a task, in the order of their arrival.
unfoldable pub bids_for : Rules → String → List Bid → List Bid
bids_for rules task_id bids = keep (qualifies_for rules task_id) bids

enters : Option String → String → Bool
enters none task_id = false
enters (some t) task_id = t == task_id

qualifies_for-eq-enters :
    (rules : Rules) (task_id : String) (bid : Bid)
    → qualifies_for rules task_id bid ≡ enters (entrant rules bid) task_id
unfolding qualifies_for entrant enters
qualifies_for-eq-enters rules task_id bid = elim (Option-cases bid.task_id) [
  | inl e ↦ ground (arith, e)
  | inr (t, e) ↦ ground (arith, e, eq_iff t task_id, ap truthy)
]

-- The best of some bids and one that was known before.
unfoldable pick : Option Bid → List Bid → Option Bid
pick o [] = o
pick o (bid ∷ bids) = pick (some (better o bid)) bids

pick-append : (o : Option Bid) (xs ys : List Bid) → pick o (xs ++ ys) ≡ pick (pick o xs) ys
unfolding pick
pick-append o [] ys = refl
pick-append o (x ∷ xs) ys = pick-append (some (better o x)) xs ys

-- The first of a ranking against a bid that came before all of them.
unfoldable against : Bid → Option Bid → Bid
against bid none = bid
against bid (some other) = if leb (score_of other) (score_of bid) then bid else other

head?-insert_desc :
    (bid : Bid) (bids : List Bid)
    → head? (insert_desc score_of bid bids) ≡ some (against bid (head? bids))
unfolding insert_desc against
head?-insert_desc bid [] = refl
head?-insert_desc bid (b ∷ bids) = ground arith

against-against :
    (a b : Bid) (o : Option Bid) → against (better (some a) b) o ≡ against a (some (against b o))
unfolding against better
against-against a b none = ground arith
against-against a b (some c) = ground arith

pick-sort :
    (bid : Bid) (bids : List Bid)
    → pick (some bid) bids ≡ some (against bid (head? (sort_desc score_of bids)))
unfolding pick sort_desc against
pick-sort bid [] = refl
pick-sort bid (b ∷ bids) =
    pick-sort (better (some bid) b) bids
    ∙ ap some (
        against-against bid b (head? (sort_desc score_of bids))
        ∙ ap (against bid) (sym (head?-insert_desc b (sort_desc score_of bids))))

pick-head : (bids : List Bid) → pick none bids ≡ head? (sort_desc score_of bids)
unfolding pick sort_desc better
pick-head [] = refl
pick-head (b ∷ bids) = pick-sort b bids ∙ sym (head?-insert_desc b (sort_desc score_of bids))

get-sort_each :
    (t : String) (by_task : Dict String (List Bid))
    → or_nil (get t (sort_each by_task)) ≡ sort_desc score_of (or_nil (get t by_task))
unfolding sort_each get sort_desc
get-sort_each t [] = refl
get-sort_each t ((s, bids) ∷ by_task) = ground (arith, get-sort_each t by_task)

module _ (rules : Rules) where
  bids_for-nil : (t : String) → bids_for rules t [] ≡ []
  unfolding bids_for keep
  bids_for-nil t = refl

  get-note_bid :
      (t : String) (bid : Bid) (by_task : Dict String (List Bid))
      → or_nil (get t (note_bid rules bid by_task))
        ≡ or_nil (get t by_task) ++ bids_for rules t (bid ∷ [])
  unfolding note_bid bids_for keep enters
  get-note_bid t bid by_task = elim (Option-cases (entrant rules bid)) [
    | inl e ↦
        rw (e, note_bid)
          (rw (qualifies_for-eq-enters rules t bid)
            (rw e (sym (append-nil (or_nil (get t by_task))))))
    | inr (s, e) ↦
        rw (e, note_bid)
          (rw (qualifies_for-eq-enters rules t bid) (
            rw e (
              rw get-put (
                ground (
                  arith,
                  eq_iff s t,
                  append-nil (or_nil (get t by_task)),
                  ap (λ k. get k by_task),
                )))))
  ]

  bids_for-cons :
      (t : String) (bid : Bid) (bids : List Bid)
      → bids_for rules t (bid ∷ bids) ≡ bids_for rules t (bid ∷ []) ++ bids_for rules t bids
  unfolding bids_for keep
  bids_for-cons t bid bids = ground arith

  get-group_from :
      (t : String) (bids : List Bid) (by_task : Dict String (List Bid))
      → or_nil (get t (group_from rules bids by_task))
        ≡ or_nil (get t by_task) ++ bids_for rules t bids
  unfolding group_from
  get-group_from t [] by_task = rw (bids_for-nil t) (sym (append-nil (or_nil (get t by_task))))
  get-group_from t (bid ∷ bids) by_task =
      get-group_from t bids (note_bid rules bid by_task)
      ∙ ap (λ l. l ++ bids_for rules t bids) (get-note_bid t bid by_task)
      ∙ append_assoc (or_nil (get t by_task)) (bids_for rules t (bid ∷ [])) (bids_for rules t bids)
      ∙ ap (◌++◌ (or_nil (get t by_task))) (sym (bids_for-cons t bid bids))

  -- The ranking of a task: its bids by falling score.
  pub get-ranked_bids :
      (t : String) (bids : List Bid)
      → or_nil (get t (ranked_bids rules bids)) ≡ sort_desc score_of (bids_for rules t bids)
  unfolding ranked_bids bids_for get
  get-ranked_bids t bids =
      get-sort_each t (group_from rules bids [])
      ∙ ap (sort_desc score_of) (get-group_from t bids [])

  get-note_best :
      (t : String) (bid : Bid) (best : Dict String Bid)
      → get t (note_best rules bid best) ≡ pick (get t best) (bids_for rules t (bid ∷ []))
  unfolding note_best bids_for keep enters pick better
  get-note_best t bid best = elim (Option-cases (entrant rules bid)) [
    | inl e ↦ rw (e, note_best) (rw (qualifies_for-eq-enters rules t bid) (rw e refl))
    | inr (s, e) ↦
        rw (e, note_best)
          (rw (qualifies_for-eq-enters rules t bid)
            (rw e (ground (arith, eq_iff s t, get-put s t bid best, ap (λ k. get k best)))))
  ]

  get-best_from :
      (t : String) (bids : List Bid) (best : Dict String Bid)
      → get t (best_from rules bids best) ≡ pick (get t best) (bids_for rules t bids)
  unfolding best_from pick get
  get-best_from t [] best = rw (bids_for-nil t) refl
  get-best_from t (bid ∷ bids) best =
      get-best_from t bids (note_best rules bid best)
      ∙ ap (λ o. pick o (bids_for rules t bids)) (get-note_best t bid best)
      ∙ sym (pick-append (get t best) (bids_for rules t (bid ∷ [])) (bids_for rules t bids))
      ∙ ap (pick (get t best)) (sym (bids_for-cons t bid bids))

  -- The bid that a task is awarded for is the first of its ranking, among bids of one score the
  -- first to arrive, and there is none where the ranking is empty.
  pub best_bids-eq-head :
      (t : String) (bids : List Bid)
      → get t (best_bids rules bids) ≡ head? (or_nil (get t (ranked_bids rules bids)))
  unfolding best_bids get
  best_bids-eq-head t bids =
      get-best_from t bids []
      ∙ pick-head (bids_for rules t bids)
      ∙ ap head? (sym (get-ranked_bids t bids))

  bids_for-unnamed : (t : String) (bids : List Bid) → truthy t ≡ false → bids_for rules t bids ≡ []
  unfolding bids_for keep qualifies_for
  bids_for-unnamed t [] e = refl
  bids_for-unnamed t (bid ∷ bids) e = ground (arith, e, bids_for-unnamed t bids e)

  pub best_bids-unnamed :
      (t : String) (bids : List Bid) → truthy t ≡ false → get t (best_bids rules bids) ≡ none
  unfolding best_bids get pick
  best_bids-unnamed t bids e = get-best_from t bids [] ∙ ap (pick none) (bids_for-unnamed t bids e)

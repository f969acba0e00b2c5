-- ===== src/Contracts/Bids.antt =====
-- `_best_bids` and `_ranked_bids` of src/agentcy/agent_runtime/services/graph_builder.py.
-- Scores are counted in millionths; an entry of a bid that is missing is `none`. The identifiers of
-- calls are not empty.
pub mod Best
pub mod Rankings
use agentcy.Prelude.{
  ℕ, String, Bool, true, false, not, ◌&&◌, List, [], ◌∷◌, ◌++◌, Option, none, some, ◌==◌, string_eq,
  contains, Dict, get, put, ltb, truthy, if◌then◌else◌,
}
use agentcy.Contracts.Ranking.{sort_desc}

-- The entries of a bid that are read.
pub record Bid : Type 0 where
  pub task_id : Option String
  pub cfp_id : Option String
  pub bidder_id : String
  pub bid_id : Option String
  pub service_name : Option String
  pub bid_score : Option ℕ

-- What the open calls ask of a bid.
pub record Rules : Type 0 where
  pub allowed_cfp_ids : Option (List String)
  pub min_score_by_cfp : Dict String ℕ
  pub min_score_default : ℕ

abbrev pub score_of : Bid → ℕ
score_of bid = elim bid.bid_score [ none ↦ 0 | some score ↦ score ]

-- The bid answers one of the calls, where these are given.
unfoldable pub is_allowed : Rules → Bid → Bool
is_allowed rules bid = elim rules.allowed_cfp_ids [
  | none ↦ true
  | some allowed ↦ elim bid.cfp_id [ none ↦ false | some cfp_id ↦ contains cfp_id allowed ]
]

unfoldable pub min_score : Rules → Bid → ℕ
min_score rules bid = elim bid.cfp_id [
  | none ↦ rules.min_score_default
  | some cfp_id ↦ elim (get cfp_id rules.min_score_by_cfp) [
    | none ↦ rules.min_score_default
    | some score ↦ score
  ]
]

-- The task that a bid is taken for.
unfoldable pub entrant : Rules → Bid → Option String
entrant rules bid = elim bid.task_id [
  | none ↦ none
  | some task_id ↦
      if truthy task_id
      then (if is_allowed rules bid
          then (if ltb (score_of bid) (min_score rules bid) then none else some task_id)
          else none)
      else none
]

-- A later bid is better when its score is greater.
unfoldable pub better : Option Bid → Bid → Bid
better none bid = bid
better (some current) bid = if ltb (score_of current) (score_of bid) then bid else current

unfoldable pub note_best : Rules → Bid → Dict String Bid → Dict String Bid
note_best rules bid best = elim (entrant rules bid) [
  | none ↦ best
  | some task_id ↦ elim (get task_id best) [
    | none ↦ put task_id bid best
    | some current ↦ if ltb (score_of current) (score_of bid) then put task_id bid best else best
  ]
]

unfoldable pub best_from : Rules → List Bid → Dict String Bid → Dict String Bid
best_from rules [] best = best
best_from rules (bid ∷ bids) best = best_from rules bids (note_best rules bid best)

unfoldable pub best_bids : Rules → List Bid → Dict String Bid
best_bids rules bids = best_from rules bids []

abbrev pub or_nil {ℓ} : {A : Type ℓ} → Option (List A) → List A
or_nil none = []
or_nil (some xs) = xs

-- by_task.setdefault(task_id, []).append(bid)
unfoldable pub note_bid : Rules → Bid → Dict String (List Bid) → Dict String (List Bid)
note_bid rules bid by_task = elim (entrant rules bid) [
  | none ↦ by_task
  | some task_id ↦ put task_id (or_nil (get task_id by_task) ++ bid ∷ []) by_task
]

unfoldable pub group_from : Rules → List Bid → Dict String (List Bid) → Dict String (List Bid)
group_from rules [] by_task = by_task
group_from rules (bid ∷ bids) by_task = group_from rules bids (note_bid rules bid by_task)

unfoldable pub sort_each : Dict String (List Bid) → Dict String (List Bid)
sort_each [] = []
sort_each ((task_id, bids) ∷ by_task) = (task_id, sort_desc score_of bids) ∷ sort_each by_task

unfoldable pub ranked_bids : Rules → List Bid → Dict String (List Bid)
ranked_bids rules bids = sort_each (group_from rules bids [])

-- ===== src/Contracts/Bids/Rankings.antt =====
-- What the evaluation table promises of a ranking, and that `_ranked_bids` gives the one that has it.
use agentcy.Prelude.{ℕ, String, ◌≡◌, ◌↔◌, ◌∙◌, sym, subst, List, string_eq, get}
use agentcy.Contracts.Ranking.{sort_desc, IsRanked}
use agentcy.Contracts.Ranking.Order.{class_of, sort_desc-IsRanked, class_of-sort_desc}
use agentcy.Contracts.Ranking.Unique.{ranking_unique}
use agentcy.Contracts.Bids.{Bid, Rules, score_of, or_nil, ranked_bids}
use agentcy.Contracts.Bids.Best.{bids_for, get-ranked_bids}

-- No bid stands before a better one, and among the bids of each score stand those that qualify for
-- the task, each as often as it was made and in the order of their arrival.
pub record IsRankingOf (rules : Rules) (task_id : String) (bids ranking : List Bid) : Type 0 where
  pub falling : IsRanked score_of ranking
  pub complete :
      (score : ℕ)
      → class_of score_of score ranking ≡ class_of score_of score (bids_for rules task_id bids)

-- The list of a task in the result of `_ranked_bids` is the one ranking of the bids that qualify for
-- it: those that answer an open call and reach its least score, best first, and in the order of
-- their arrival where the scores are equal.
pub ranked_bids-IsRankingOf :
    (rules : Rules) (task_id : String) (bids ranking : List Bid)
    → IsRankingOf rules task_id bids ranking
      ↔ (ranking ≡ or_nil (get task_id (ranked_bids rules bids)))
ranked_bids-IsRankingOf rules task_id bids ranking = (
  λ r.
      ranking_unique score_of ranking (sort_desc score_of wanted) r.falling
        (sort_desc-IsRanked score_of wanted)
        (λ k. r.complete k ∙ sym (class_of-sort_desc score_of k wanted))
      ∙ sym (get-ranked_bids rules task_id bids),
  λ e.
      subst (IsRankingOf rules task_id bids) (sym (e ∙ get-ranked_bids rules task_id bids))
        (record {
          falling = sort_desc-IsRanked score_of wanted;
          complete = λ k. class_of-sort_desc score_of k wanted;
        }),
)
  where
    wanted : List Bid
    wanted = bids_for rules task_id bids

-- ===== src/Contracts/Drafts/Reoffers.antt =====
-- What a build plans for a task, and the bids that the tracker is offered when it fails.
use agentcy.Prelude.{
  ℕ, ◌≡◌, refl, sym, subst, ◌∙◌, ap, String, true, List, [], ◌∷◌, Option, none, some, map, arith,
  string_eq, eq_iff, contains, truthy, Dict, keys, get, take, All,
}
use agentcy.Prelude.Keys.{triple_eq}
use agentcy.Tracker.Sequence.Offers.{offers, indexed, offers-eq-rest}
use agentcy.Contracts.Bids.{Bid, Rules, or_nil, best_bids, ranked_bids, group_from}
use agentcy.Contracts.Bids.Best.{best_bids-eq-head}
use agentcy.Contracts.Awards.{
  Env, TaskSpec, Awards, ContractAward, list_awards, latest_awards, rules_of, award_pass,
}
use agentcy.Contracts.Awards.Once.{ids_of, award_after, get-award_each}
use agentcy.Contracts.Drafts.{
  to_candidate, sequence_key, sequence_of, Services, RunTask, GraphTask, assigned_agent, graph_task,
  PlanDraft, Stores, build_plan_draft,
}
use agentcy.Contracts.Drafts.Sequences.{
  Distinct, group_from-Distinct, keys-sort_each, save_each-get,
}

ranked_bids-Distinct : (rules : Rules) (bids : List Bid) → Distinct (keys (ranked_bids rules bids))
unfolding ranked_bids
ranked_bids-Distinct rules bids =
    subst Distinct (sym (keys-sort_each (group_from rules bids [])))
      (group_from-Distinct rules bids [] tt)

-- A task of the plan goes to the bidder of its best bid, or else to the service that runs it, or else
-- to nobody; its bid and call are those of the best bid, and its award is the one it had, or else
-- that of the best bid.
pub record Placed (env : Env) (best : Dict String Bid) (earlier : Awards)
    (run_tasks : Dict String RunTask) (task : GraphTask) : Type 0 where
  pub to_bidder :
      (bid : Bid)
      → get task.task_id best ≡ some bid
      → (task.assigned_agent ≡ some bid.bidder_id)
        × (task.bid_id ≡ bid.bid_id)
        × (task.cfp_id ≡ bid.cfp_id)
  pub to_service :
      (run_task : RunTask) (service : String)
      → get task.task_id best ≡ none
      → get task.task_id run_tasks ≡ some run_task
      → run_task.service_name ≡ some service
      → truthy service ≡ true
      → task.assigned_agent ≡ some service
  pub to_nobody :
      get task.task_id best ≡ none → get task.task_id run_tasks ≡ none → task.assigned_agent ≡ none
  pub awarded :
      task.award
      ≡ award_after env task.task_id (get task.task_id earlier) true (get task.task_id best)

-- A task with the given identifier goes to the bidder, with its earlier award or one for the bid.
pub record GoesToBidder (env : Env) (t : String) (bid : Bid) (earlier : Option ContractAward)
    (task : GraphTask) : Type 0 where
  pub agent : task.assigned_agent ≡ some bid.bidder_id
  pub award : task.award ≡ award_after env t earlier true (some bid)

abbrev pub GoesTo : Env → String → Bid → Option ContractAward → GraphTask → Type 0
GoesTo env t bid earlier task = task.task_id ≡ t → GoesToBidder env t bid earlier task

module _ (env : Env) (username plan_id : String) (specs : List TaskSpec) (bids : List Bid)
    (services : Services) (run_tasks : Dict String RunTask) (stores : Stores) where
  abbrev pub best_of : Dict String Bid
  best_of = best_bids (rules_of env stores.cfps) bids

  abbrev pub earlier_of : Awards
  earlier_of = latest_awards (list_awards env stores.board.awards) []

  abbrev pub draft_of : PlanDraft
  draft_of = (build_plan_draft env username plan_id specs bids services run_tasks stores).0

  -- Each task of the draft is planned as `Placed` says, from the best bids of the open calls and the
  -- awards that the pipeline had before.
  pub build_plan_draft-Placed : All (Placed env best_of earlier_of run_tasks) draft_of.tasks
  unfolding build_plan_draft award_pass graph_task contains assigned_agent
  build_plan_draft-Placed = placed specs (λ t among. among)
    where
      placed :
          (some_specs : List TaskSpec)
          → ((t : String)
              → contains t (ids_of some_specs) ≡ true
              → contains t (ids_of specs) ≡ true)
          → All (Placed env best_of earlier_of run_tasks) (
              map
                (graph_task services run_tasks best_of
                  (award_pass env best_of specs stores.board).0)
                some_specs)
      placed [] among = tt
      placed (spec ∷ rest) among = (
        record {
          to_bidder = λ bid e. (
            ap (λ b. assigned_agent b (get spec.task_id run_tasks)) e,
            ground (arith, e),
            ground (arith, e),
          );
          to_service = λ run_task service e f named nonempty. ground (arith, e, f, named, nonempty);
          to_nobody = λ e f. ground (arith, e, f);
          awarded =
              get-award_each env best_of spec.task_id specs earlier_of stores.board
              ∙ ap
                  (λ b.
                    award_after env spec.task_id (get spec.task_id earlier_of) b
                      (get spec.task_id best_of))
                  (among spec.task_id (ground (arith, eq_iff spec.task_id spec.task_id)));
        },
        placed rest (λ t m. among t (ground (arith, m))),
      )

  -- The sequence of a task with more than one qualifying bid.
  pub stored_sequence :
      (t : String) (first second : Bid) (others : List Bid)
      → or_nil (get t (ranked_bids (rules_of env stores.cfps) bids)) ≡ first ∷ second ∷ others
      → get
          (sequence_key username t plan_id)
          (build_plan_draft env username plan_id specs bids services run_tasks stores).1.sequences
        ≡ some (sequence_of (first ∷ second ∷ others))
  unfolding build_plan_draft
  stored_sequence t first second others ranking =
      save_each-get username plan_id t (first ∷ second ∷ others)
        (ranked_bids (rules_of env stores.cfps) bids) stores.sequences
        (ranked_bids-Distinct (rules_of env stores.cfps) bids)
        (found (get t (ranked_bids (rules_of env stores.cfps) bids)) ranking) (ground arith)
    where
      found :
          (o : Option (List Bid))
          → or_nil o ≡ first ∷ second ∷ others
          → o ≡ some (first ∷ second ∷ others)
      found none e = absurd (cc e)
      found (some l) e = ap some e

  kept_ids :
      (t : String) (some_specs : List TaskSpec) (awards : Awards)
      → contains t (ids_of some_specs)
        ≡ contains t (
            map
              (λ task. task.task_id)
              (map (graph_task services run_tasks best_of awards) some_specs))
  unfolding contains graph_task
  kept_ids t [] awards = refl
  kept_ids t (spec ∷ some_specs) awards = rw (kept_ids t some_specs awards) refl

  goes_to :
      (t : String) (first : Bid)
      → get t best_of ≡ some first
      → (tasks : List GraphTask) → All (Placed env best_of earlier_of run_tasks) tasks
      → All (GoesTo env t first (get t earlier_of)) tasks
  goes_to t first best [] placed = tt
  goes_to t first best (task ∷ tasks) (p, placed) = (
    λ is. record {
      agent = (p.to_bidder first (ap (λ id. get id best_of) is ∙ best)).0;
      award =
          p.awarded
          ∙ ap (λ id. award_after env id (get id earlier_of) true (get id best_of)) is
          ∙ ap (λ b. award_after env t (get t earlier_of) true b) best;
    },
    goes_to t first best tasks placed,
  )

  -- For a task of the specs with more than one qualifying bid, the draft has the task; each task of
  -- the draft with its identifier goes to the bidder of the first of the ranking, with the award that
  -- it had before, or else that of this bid; and then the tracker, asked again and again for another
  -- candidate of this plan, is offered the others in the order of the ranking, each once, and then
  -- nobody.
  pub build_plan_draft-reoffers :
      (t : String) (first second : Bid) (others : List Bid) (n : ℕ)
      → contains t (ids_of specs) ≡ true
      → or_nil (get t (ranked_bids (rules_of env stores.cfps) bids)) ≡ first ∷ second ∷ others
      → (contains t (map (λ task. task.task_id) draft_of.tasks) ≡ true)
        × All (GoesTo env t first (get t earlier_of)) draft_of.tasks
        × (offers n
              (sequence_key username t plan_id)
              (build_plan_draft env username plan_id specs bids services run_tasks
                stores).1.sequences
            ≡ take n (indexed 1 (map to_candidate (second ∷ others))))
  unfolding build_plan_draft
  build_plan_draft-reoffers t first second others n named ranking = (
    sym (kept_ids t specs (award_pass env best_of specs stores.board).0) ∙ named,
    goes_to t first (best_bids-eq-head (rules_of env stores.cfps) t bids ∙ rw ranking refl)
        draft_of.tasks build_plan_draft-Placed,
    offers-eq-rest n (sequence_key username t plan_id) _ (sequence_of (first ∷ second ∷ others))
        (stored_sequence t first second others ranking),
  )

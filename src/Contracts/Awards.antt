-- ===== src/Contracts/Awards.antt =====
-- The awards of `build_plan_draft` in src/agentcy/agent_runtime/services/graph_builder.py: which
-- bids are taken, who gets a contract, and which calls are closed. The documents are those of one
-- user, and generated identifiers are left out where nothing reads them.
pub mod Once
pub mod Again
use agentcy.Prelude.{
  ℕ, String, Bool, true, false, not, ◌&&◌, ◌||◌, List, [], ◌∷◌, ◌++◌, Option, none, some, map, ◌==◌,
  string_eq, contains, keep, Dict, get, put, leb, ltb, truthy, if◌then◌else◌,
}
use agentcy.Registry.Policy.{Config, has_expired}
use agentcy.Registry.Store.{Registry}
use agentcy.Contracts.Bids.{Bid, Rules}
use agentcy.Contracts.Agents.{increment_agent_load}

-- What the builder is asked for, with its clock and settings.
pub record Env : Type 0 where
  pub pipeline_id : String
  pub pipeline_run_id : Option String
  pub task_ids : List String
  pub now : ℕ
  pub min_score_default : ℕ
  pub config : Config
  pub lmax_default : ℕ
  pub default_ttl : ℕ

pub record TaskSpec : Type 0 where
  pub task_id : String
  pub description : String
  pub required_capabilities : List String
  pub tags : List String
  pub depends_on : List String
  pub service_name : Option String
  pub task_type : Option String

-- A call for proposals; `closes_at` is `none` where there is no time that can be read.
pub record CallForProposal : Type 0 where
  pub cfp_id : String
  pub task_id : String
  pub status : String
  pub min_score : Option ℕ
  pub closes_at : Option ℕ
  pub status_reason : Option String

pub record ContractAward : Type 0 where
  pub task_id : String
  pub bidder_id : String
  pub bid_id : Option String
  pub cfp_id : Option String
  pub pipeline_id : Option String
  pub pipeline_run_id : Option String
  pub awarded_at : ℕ

pub record ReservationMarker : Type 0 where
  pub task_id : String
  pub agent_id : String

-- The stores that the awards go to.
pub record Board : Type 0 where
  pub awards : List ContractAward
  pub reservations : List ReservationMarker
  pub registry : Registry

-- An open call of one of the tasks that were asked for, where any were.
unfoldable pub counts : Env → CallForProposal → Bool
counts env cfp =
    cfp.status == "open" && elim env.task_ids [ [] ↦ true | t ∷ ts ↦ contains cfp.task_id (t ∷ ts) ]

unfoldable pub open_cfps : Env → List CallForProposal → List CallForProposal
open_cfps env cfps = keep (counts env) cfps

unfoldable pub call_ids : List CallForProposal → List String
call_ids cfps = keep (λ i. truthy i) (map (λ cfp. cfp.cfp_id) cfps)

-- The least scores of the calls that give one, in a dictionary.
unfoldable pub min_scores : List CallForProposal → Dict String ℕ → Dict String ℕ
min_scores [] scores = scores
min_scores (cfp ∷ cfps) scores = elim cfp.min_score [
  | none ↦ min_scores cfps scores
  | some score ↦ min_scores cfps (if truthy cfp.cfp_id then put cfp.cfp_id score scores else scores)
]

-- allowed_cfp_ids or None
abbrev or_none {ℓ} : {A : Type ℓ} → List A → Option (List A)
or_none [] = none
or_none (x ∷ xs) = some (x ∷ xs)

unfoldable pub rules_of : Env → List CallForProposal → Rules
rules_of env cfps = record {
  allowed_cfp_ids = or_none (call_ids (open_cfps env cfps));
  min_score_by_cfp = min_scores (open_cfps env cfps) [];
  min_score_default = env.min_score_default;
}

abbrev pub Awards : Type 0
Awards = Dict String ContractAward

-- `list_contract_awards`: the awards of the pipeline, and of its run where there is one.
abbrev is_some : Option String → String → Bool
is_some none s = false
is_some (some t) s = t == s

unfoldable pub is_ours : Env → ContractAward → Bool
is_ours env award = is_some award.pipeline_id env.pipeline_id && elim env.pipeline_run_id [
  | none ↦ true
  | some run_id ↦ not (truthy run_id) || is_some award.pipeline_run_id run_id
]

unfoldable pub list_awards : Env → List ContractAward → List ContractAward
list_awards env awards = keep (is_ours env) awards

-- The newest award of each task.
unfoldable pub note_award : ContractAward → Awards → Awards
note_award award awards = elim (get award.task_id awards) [
  | none ↦ put award.task_id award awards
  | some current ↦
      if ltb current.awarded_at award.awarded_at then put award.task_id award awards else awards
]

unfoldable pub latest_awards : List ContractAward → Awards → Awards
latest_awards [] awards = awards
latest_awards (award ∷ docs) awards =
    latest_awards docs (if truthy award.task_id then note_award award awards else awards)

unfoldable pub award_of : Env → String → Bid → ContractAward
award_of env task_id bid = record {
  task_id = task_id;
  bidder_id = bid.bidder_id;
  bid_id = bid.bid_id;
  cfp_id = bid.cfp_id;
  pipeline_id = some env.pipeline_id;
  pipeline_run_id = env.pipeline_run_id;
  awarded_at = env.now;
}

-- The award of a task to a bid, with the reservation and the load of the agent.
unfoldable pub place : Env → String → Bid → Board → Board
place env task_id bid board = record {
  awards = board.awards ++ award_of env task_id bid ∷ [];
  reservations = board.reservations ++ record { task_id = task_id; agent_id = bid.bidder_id } ∷ [];
  registry =
      increment_agent_load env.config env.lmax_default env.default_ttl env.now bid.bidder_id task_id
        board.registry;
}

-- The bid that a task is to be awarded for now: it has one, and it has no award.
unfoldable pub due : String → Dict String Bid → Awards → Option Bid
due task_id best awards = elim (get task_id best) [
  | none ↦ none
  | some bid ↦ elim (get task_id awards) [ none ↦ some bid | some award ↦ none ]
]

unfoldable pub award_each : Env → Dict String Bid → List TaskSpec → Awards → Board → Awards × Board
award_each env best [] awards board = (awards, board)
award_each env best (spec ∷ specs) awards board = elim (due spec.task_id best awards) [
  | none ↦ award_each env best specs awards board
  | some bid ↦
      award_each env best specs (put spec.task_id (award_of env spec.task_id bid) awards)
        (place env spec.task_id bid board)
]

-- The awards of a build, from those that are stored.
unfoldable pub award_pass : Env → Dict String Bid → List TaskSpec → Board → Awards × Board
award_pass env best specs board =
    award_each env best specs (latest_awards (list_awards env board.awards) []) board

-- A call is closed when it has a bid or its time is over, and its task is one of the builder's.
unfoldable pub has_bid : String → List Bid → Bool
has_bid cfp_id [] = false
has_bid cfp_id (bid ∷ bids) =
    let rest = has_bid cfp_id bids in
    if truthy cfp_id && is_some bid.cfp_id cfp_id then true else rest

unfoldable pub close : Env → List Bid → List TaskSpec → CallForProposal → CallForProposal
close env bids specs cfp =
    let expired = has_expired env.now cfp.closes_at in
    if (has_bid cfp.cfp_id bids || expired)
      && contains cfp.task_id (map (λ spec. spec.task_id) specs)
    then record cfp {
      status = "closed";
      status_reason = some (if expired then "expired" else "awarded");
      closes_at = some env.now;
    }
    else cfp

-- The calls after the builder: each open one that it looks at is written back where it closes.
unfoldable pub close_each :
    Env → List Bid → List TaskSpec → List CallForProposal → List CallForProposal
close_each env bids specs cfps =
    map (λ cfp. if counts env cfp then close env bids specs cfp else cfp) cfps

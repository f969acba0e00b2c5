-- ===== src/Contracts/Drafts.antt =====
-- `build_plan_draft` of src/agentcy/agent_runtime/services/graph_builder.py: the awards, the closed
-- calls, the evaluation sequences, the graph of the plan, the draft with its first revision, and the
-- plan that the run document names. The documents are those of one user. Not modelled: the ontology
-- of the graph, its RDF form and the extraction of domain knowledge; the reading of task specs from
-- the pipeline configuration, whose result is given; stores that raise.
pub mod Sequences
pub mod Reoffers
pub mod Handover
mod Witnesses
use agentcy.Prelude.{
  ℕ, String, Bool, true, false, not, ◌&&◌, List, [], ◌∷◌, ◌++◌, Option, none, some, map, ◌==◌,
  string_eq, contains, Dict, get, put, length, ltb, truthy, if◌then◌else◌,
}
use agentcy.Prelude.Keys.{Triple, triple_eq}
use agentcy.Tracker.Sequence.{Candidate, EvaluationSequence, SequenceStore}
use agentcy.Tracker.Run.{RunDoc, RunStore, valid, invalid, read_run}
use agentcy.Registry.Entry.{Entry}
use agentcy.Registry.Store.{Registry, fetch_all}
use agentcy.Contracts.Bids.{Bid, Rules, score_of, best_bids, ranked_bids}
use agentcy.Contracts.Awards.{
  Env, TaskSpec, CallForProposal, ContractAward, Board, Awards, rules_of, award_pass, close_each,
}

abbrev pub to_candidate : Bid → Candidate
to_candidate bid = record {
  bidder_id = bid.bidder_id;
  bid_score = score_of bid;
  bid_id = bid.bid_id;
  cfp_id = bid.cfp_id;
}

abbrev pub sequence_key : String → String → String → Triple
sequence_key username task_id plan_id = record {
  first = username;
  second = task_id;
  third = plan_id;
}

unfoldable pub save_evaluation_sequence :
    Triple → EvaluationSequence → SequenceStore → SequenceStore
save_evaluation_sequence key seq store = put key seq store

abbrev pub sequence_of : List Bid → EvaluationSequence
sequence_of bids = record { candidates = map to_candidate bids; current_index = 0 }

unfoldable pub save_one : String → String → String → List Bid → SequenceStore → SequenceStore
save_one username plan_id task_id candidates store =
    if ltb 1 (length candidates)
    then save_evaluation_sequence (sequence_key username task_id plan_id) (sequence_of candidates)
        store
    else store

-- The evaluation sequence of each task that more than one bid qualifies for.
unfoldable pub save_each : String → String → Dict String (List Bid) → SequenceStore → SequenceStore
save_each username plan_id [] store = store
save_each username plan_id ((task_id, candidates) ∷ ranked) store =
    save_each username plan_id ranked (save_one username plan_id task_id candidates store)

-- What is known of the services: of the agents and by name.
pub record Services : Type 0 where
  pub agent_service_map : Dict String String
  pub service_names : List String

pub record RunTask : Type 0 where
  pub service_name : Option String
  pub status : Option String

-- A task of the graph; `award` is the award that its `award_id` names.
pub record GraphTask : Type 0 where
  pub task_id : String
  pub assigned_agent : Option String
  pub bid_id : Option String
  pub cfp_id : Option String
  pub service_name : Option String
  pub award : Option ContractAward
  pub task_type : Option String
  pub status : Option String

abbrev text_of : Option String → Option String
text_of none = none
text_of (some s) = if truthy s then some s else none

abbrev or_else : Option String → Option String → Option String
or_else none b = b
or_else (some a) b = some a

unfoldable pub service_of_agent : Services → Option String → Option String
service_of_agent services none = none
service_of_agent services (some agent) =
    if truthy agent
    then (elim (get agent services.agent_service_map) [
      | some service ↦ some service
      | none ↦ if contains agent services.service_names then some agent else none
    ])
    else none

unfoldable pub resolve_service_name :
    Services → TaskSpec → Option Bid → Option String → Option String
resolve_service_name services spec bid assigned_agent = or_else (text_of spec.service_name) (
    or_else (elim bid [ none ↦ none | some b ↦ text_of b.service_name ])
      (service_of_agent services assigned_agent))

unfoldable pub assigned_agent : Option Bid → Option RunTask → Option String
assigned_agent (some bid) run_task = some bid.bidder_id
assigned_agent none none = none
assigned_agent none (some run_task) = text_of run_task.service_name

unfoldable pub graph_task :
    Services → Dict String RunTask → Dict String Bid → Awards → TaskSpec → GraphTask
graph_task services run_tasks best awards spec =
    let bid = get spec.task_id best in
    let award = get spec.task_id awards in
    let run_task = get spec.task_id run_tasks in
    let assigned = assigned_agent bid run_task in
    record {
      task_id = spec.task_id;
      assigned_agent = assigned;
      bid_id = elim bid [ none ↦ none | some b ↦ b.bid_id ];
      cfp_id = elim bid [
        | some b ↦ b.cfp_id
        | none ↦ elim award [ none ↦ none | some a ↦ a.cfp_id ]
      ];
      service_name = resolve_service_name services spec bid assigned;
      award = award;
      task_type = spec.task_type;
      status = elim run_task [ none ↦ none | some r ↦ r.status ];
    }

-- The edges from the tasks that a task depends on.
unfoldable pub edges_of : List TaskSpec → List (String × String)
edges_of [] = []
edges_of (spec ∷ specs) = map (λ dep. (dep, spec.task_id)) spec.depends_on ++ edges_of specs

pub record PlanDraft : Type 0 where
  pub plan_id : String
  pub pipeline_id : String
  pub pipeline_run_id : Option String
  pub revision : ℕ
  pub tasks : List GraphTask
  pub edges : List (String × String)
  pub is_valid : Bool

-- The stores that a build reads and writes; `revisions` are the applied ones.
pub record Stores : Type 0 where
  pub board : Board
  pub cfps : List CallForProposal
  pub sequences : SequenceStore
  pub drafts : List PlanDraft
  pub revisions : List PlanDraft
  pub runs : RunStore

-- run_doc["plan_id"] = plan_id
unfoldable pub name_plan : Triple → String → RunStore → RunStore
name_plan key plan_id runs = elim (read_run key runs) [
  | some (valid run old) ↦ put key (valid run (some plan_id)) runs
  | _ ↦ runs
]

abbrev pub run_key : String → String → String → Triple
run_key username pipeline_id run_id = record {
  first = username;
  second = pipeline_id;
  third = run_id;
}

module _ (env : Env) (username plan_id : String) (specs : List TaskSpec) (bids : List Bid)
    (services : Services) (run_tasks : Dict String RunTask) where
  unfoldable pub build_plan_draft : Stores → PlanDraft × Stores
  build_plan_draft stores =
      let rules = rules_of env stores.cfps in
      let best = best_bids rules bids in
      let awarded = award_pass env best specs stores.board in
      let draft : PlanDraft = record {
        plan_id = plan_id;
        pipeline_id = env.pipeline_id;
        pipeline_run_id = env.pipeline_run_id;
        revision = 1;
        tasks = map (graph_task services run_tasks best awarded.0) specs;
        edges = edges_of specs;
        is_valid = false;
      } in
      (
        draft,
        record {
          board = awarded.1;
          cfps = close_each env bids specs stores.cfps;
          sequences = save_each username plan_id (ranked_bids rules bids) stores.sequences;
          drafts = draft ∷ stores.drafts;
          revisions = draft ∷ stores.revisions;
          runs = elim env.pipeline_run_id [
            | none ↦ stores.runs
            | some run_id ↦
                if truthy run_id
                then name_plan (run_key username env.pipeline_id run_id) plan_id stores.runs
                else stores.runs
          ];
        },
      )

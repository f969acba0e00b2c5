-- ===== src/Tracker/Sequence.antt =====
-- `EvaluationSequence` of src/agentcy/pydantic_models/multi_agent_pipeline.py and
-- `advance_evaluation_sequence` of src/agentcy/orchestrator_core/stores/graph_marker_store.py.
pub mod Offers
use agentcy.Prelude.{
  ℕ, zero, suc, ◌+◌, ◌-◌, ◌≤◌, ◌<◌, ◌≡◌, refl, String, List, [], ◌∷◌, ◌++◌, Option, none, some,
  arith, ◌==◌, Dict, get, put, get-put, get_elem?, length, leb, if◌then◌else◌,
}
use agentcy.Prelude.Keys.{Triple, triple_eq}

-- A bid as the sequence stores it; the score is carried along, in millionths.
pub record Candidate : Type 0 where
  pub bidder_id : String
  pub bid_score : ℕ
  pub bid_id : Option String
  pub cfp_id : Option String

pub record EvaluationSequence : Type 0 where
  pub candidates : List Candidate
  pub current_index : ℕ

-- The sequences by user name, task and plan.
abbrev pub SequenceStore : Type 0
SequenceStore = Dict Triple EvaluationSequence

-- The store afterwards, and the candidate with its `sequence_index`.
abbrev pub Advanced : Type 0
Advanced = SequenceStore × Option (Candidate × ℕ)

abbrev pub take_next : Triple → SequenceStore → EvaluationSequence → Option Candidate → Advanced
take_next key store doc none = (store, none)
take_next key store doc (some c) =
    let next_index = doc.current_index + 1 in
    (put key (record doc { current_index = next_index }) store, some (c, next_index))

unfoldable pub advance_evaluation_sequence : Triple → SequenceStore → Advanced
advance_evaluation_sequence key store = elim (get key store) [
  | none ↦ (store, none)
  | some doc ↦
      let next_index = doc.current_index + 1 in
      if leb (length doc.candidates) next_index
      then (store, none)
      else take_next key store doc (get_elem? doc.candidates next_index)
]

-- ===== src/Tracker/Run.antt =====
-- `TaskState` and `PipelineRun` of
-- src/agentcy/pydantic_models/pipeline_validation_models/pipeline_run_model.py, in the fields that
-- the tracker reads or writes, and the documents of the ephemeral store
-- (src/agentcy/orchestrator_core/stores/ephemeral_pipeline_store.py).
use agentcy.Prelude.{
  ℕ, String, Bool, List, Option, none, some, ◌==◌, Dict, get, put, get-put, ◌≡◌, if◌then◌else◌,
}
use agentcy.Prelude.Keys.{Triple, triple_eq}
use agentcy.Tracker.Status.{PipelineStatus, RawStatus}

-- `output` stands for the fields that the tracker carries along unread (`result`, `output_ref`,
-- `data`, the time stamps).
pub record TaskState : Type 0 where
  pub status : RawStatus
  pub attempts : ℕ
  pub error : Option String
  pub is_final_task : Bool
  pub pipeline_run_id : String
  pub task_id : String
  pub username : String
  pub pipeline_id : String
  pub service_name : String
  pub output : Option String

pub record PipelineRun : Type 0 where
  pub status : PipelineStatus
  pub tasks : Dict String TaskState
  pub finished_at : Option ℕ
  pub final_task_ids : List String

-- A stored document: one that `PipelineRun.model_validate` accepts, with the key `plan_id` that the
-- model has no field for, or one that it rejects.
pub data RunDoc : Type 0 where
  valid : PipelineRun → Option String → RunDoc
  invalid : RunDoc

-- The documents by user name, pipeline and run.
abbrev pub RunStore : Type 0
RunStore = Dict Triple RunDoc

unfoldable pub read_run : Triple → RunStore → Option RunDoc
read_run key store = get key store

-- `replace` with `PipelineRun.model_dump()`, which holds the fields of the model and no other key.
unfoldable pub update_run : Triple → PipelineRun → RunStore → RunStore
update_run key run store = put key (valid run none) store

pub read_run-update_run :
    (k key : Triple) (run : PipelineRun) (store : RunStore)
    → read_run key (update_run k run store)
      ≡ (if k == key then some (valid run none) else read_run key store)
unfolding read_run update_run
read_run-update_run k key run store = get-put k key (valid run none) store

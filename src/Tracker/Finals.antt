-- ===== src/Tracker/Finals.antt =====
-- `_finals`, `_derive_finals_from_cfg`, `_service_for_task` and `_services_from_cfg` of
-- src/agentcy/agent_runtime/tracker.py.
use agentcy.Prelude.{
  String, Bool, true, false, List, [], ◌∷◌, map, Option, none, some, string_eq, Dict, get, keep,
  contains, truthy, if◌then◌else◌,
}
use agentcy.Tracker.Run.{TaskState, PipelineRun}

-- The persisted pipeline configuration, in what the tracker reads of it. A configuration store that
-- is missing, has none of the tried methods, returns nothing or raises is `none`.
pub record TaskMeta : Type 0 where
  pub available_services : Option String
  pub service : Option String

pub record Config : Type 0 where
  pub task_outputs : Option (Dict String (List String))
  pub task_graph : Option (Dict String (List String))
  pub execution_order : Option (List String)
  pub task_dict : Dict String TaskMeta

abbrev is_nil {ℓ} : {A : Type ℓ} → List A → Bool
is_nil [] = true
is_nil (x ∷ xs) = false

abbrev without_outputs : Option (Dict String (List String)) → List String
without_outputs none = []
without_outputs (some d) = map (λ p. p.0) (keep (λ p. is_nil p.1) d)

abbrev last : List String → List String
last [] = []
last (x ∷ []) = x ∷ []
last (x ∷ (y ∷ r)) = last (y ∷ r)

abbrev last_of : Option (List String) → List String
last_of none = []
last_of (some l) = last l

-- `a or b` on sets.
abbrev or_else : List String → List String → List String
or_else [] next = next
or_else (x ∷ xs) next = x ∷ xs

unfoldable pub derive_finals_from_cfg : Option Config → List String
derive_finals_from_cfg none = []
derive_finals_from_cfg (some cfg) =
    or_else (without_outputs cfg.task_outputs)
      (or_else (without_outputs cfg.task_graph) (last_of cfg.execution_order))

abbrev hinted : PipelineRun → List String
hinted run = map (λ p. p.0) (keep (λ p. p.1.is_final_task) run.tasks)

unfoldable pub finals : PipelineRun → Option Config → List String
finals run cfg = or_else run.final_task_ids (or_else (hinted run) (derive_finals_from_cfg cfg))

-- A string that is there and not empty.
abbrev pub text_or : Option String → Option String → Option String
text_or none next = next
text_or (some s) next = if truthy s then some s else next

abbrev meta_service : TaskMeta → Option String
meta_service m = text_or m.available_services (text_or m.service none)

unfoldable pub service_for_task : Option Config → String → Option String
service_for_task none task_id = none
service_for_task (some cfg) task_id = elim (get task_id cfg.task_dict) [
  | none ↦ none
  | some m ↦ meta_service m
]

-- `s.add(x)`.
unfoldable pub add_new : String → List String → List String
add_new x s = if contains x s then s else x ∷ s

abbrev add_some : Option String → List String → List String
add_some none s = s
add_some (some x) s = add_new x s

abbrev services_of : Dict String TaskMeta → List String
services_of [] = []
services_of ((tid, m) ∷ d) = add_some (meta_service m) (services_of d)

unfoldable pub services_from_cfg : Option Config → List String
services_from_cfg none = []
services_from_cfg (some cfg) = services_of cfg.task_dict

-- The service of a task: its own name, or the one of the configuration.
abbrev service_of : Option Config → String → TaskState → Option String
service_of cfg tid t = text_or (some t.service_name) (service_for_task cfg tid)

abbrev services_of_tasks : Option Config → Dict String TaskState → List String
services_of_tasks cfg [] = []
services_of_tasks cfg ((tid, t) ∷ d) = add_some (service_of cfg tid t) (services_of_tasks cfg d)

-- The services that are told to stop when the run ends.
unfoldable pub stop_services : Option Config → PipelineRun → List String
stop_services cfg run = or_else (services_of_tasks cfg run.tasks) (services_from_cfg cfg)

-- ===== src/Workflow/Tasks.antt =====
-- The task list of a workflow configuration and `infer_dependencies_and_outputs` of
-- src/agentcy/rabbitmq_workflow/workflow_config_parser.py.
-- A `set` is a list without repetitions, in the order in which its elements came: Python leaves the
-- order of a set open, and this is one of the orders that it may have.
use agentcy.Prelude.{
  String, List, [], ◌∷◌, ◌++◌, map, none, some, string_eq, Dict, get, put, contains, ◌≡◌, refl,
  arith, if◌then◌else◌,
}

-- What ends the parser with an exception.
pub data ParseError : Type 0 where
  missing_dependency : (task_id dep : String) → ParseError
  circular : ParseError
  solo_nodes : (ids : List String) → ParseError
  no_tasks : ParseError
  disconnected : (ids : List String) → ParseError
  no_exchange : (from_task : String) → ParseError
  no_attribute : ParseError
  key_error : (key : String) → ParseError
  missing_fan_in : (step : String) → ParseError
  out_of_fuel : ParseError

pub data Result {ℓ} (A : Type ℓ) : Type ℓ where
  ok : (value : A) → Result A
  error : (cause : ParseError) → Result A

infixl 5 ◌>>=◌ ◌>>◌
abbrev pub ◌>>=◌ {ℓ κ} : {A : Type ℓ} {B : Type κ} → Result A → (A → Result B) → Result B
ok value >>= next = next value
error cause >>= next = error cause

abbrev pub ◌>>◌ {ℓ} : {B : Type ℓ} → Result (Unit {0}) → Result B → Result B
m >> k = m >>= λ _. k

-- A task as it is configured: `inputs.dependencies` is `inputs` here.
pub record TaskConfig : Type 0 where
  pub id : String
  pub name : String
  pub inputs : List String

-- A task with what has been inferred.
pub record Task : Type 0 where
  pub id : String
  pub name : String
  pub dependencies : List String
  pub inferred_outputs : List String

-- s.add(x), and set(xs)
unfoldable pub set_add : String → List String → List String
set_add x s = if contains x s then s else s ++ (x ∷ [])

unfoldable pub to_set : List String → List String → List String
to_set [] s = s
to_set (x ∷ xs) s = to_set xs (set_add x s)

abbrev pub Outputs : Type 0
Outputs = Dict String (List String)

-- self.task_outputs[task_id], which makes an empty place for a missing task.
unfoldable pub outputs_of : String → Outputs → List String
outputs_of task_id outputs = elim (get task_id outputs) [ none ↦ [] | some s ↦ s ]

-- The loop over the dependencies of a task.
module _ (task_ids : List String) (task_id : String) where
  unfoldable pub add_dependencies : List String → Outputs → Result Outputs
  add_dependencies [] outputs = ok outputs
  add_dependencies (dep ∷ deps) outputs =
      let rest =
        add_dependencies deps (put dep (set_add task_id (outputs_of dep outputs)) outputs) in
      if contains dep task_ids then rest else error (missing_dependency task_id dep)

-- The first loop over the tasks.
unfoldable pub add_tasks : List String → List TaskConfig → Outputs → Result Outputs
add_tasks task_ids [] outputs = ok outputs
add_tasks task_ids (task ∷ tasks) outputs =
    add_dependencies task_ids task.id (to_set task.inputs []) outputs >>= add_tasks task_ids tasks

-- The second loop: `inferred_outputs` is read from the dictionary, which then has the task as a key.
unfoldable pub touch : List TaskConfig → Outputs → Outputs
touch [] outputs = outputs
touch (task ∷ tasks) outputs = touch tasks (put task.id (outputs_of task.id outputs) outputs)

abbrev pub inferred : Outputs → TaskConfig → Task
inferred outputs task = record {
  id = task.id;
  name = task.name;
  dependencies = to_set task.inputs [];
  inferred_outputs = outputs_of task.id outputs;
}

abbrev pub ids : List TaskConfig → List String
ids tasks = map (λ t. t.id) tasks

-- The tasks and `self.task_outputs`, which is empty at first.
unfoldable pub infer_dependencies_and_outputs : List TaskConfig → Result (List Task × Outputs)
infer_dependencies_and_outputs tasks = add_tasks (ids tasks) tasks [] >>= λ outputs.
    ok (map (inferred outputs) tasks, touch tasks outputs)

-- Inversion of a chain that succeeds.
pub >>=-eq-ok {ℓ κ} :
    {A : Type ℓ} {B : Type κ} (m : Result A) (f : A → Result B) (b : B)
    → (m >>= f) ≡ ok b
    → (a : A) × (m ≡ ok a) × (f a ≡ ok b)
>>=-eq-ok (ok a) f b h = (a, refl, h)
>>=-eq-ok (error c) f b h = absurd (ground (arith, h))

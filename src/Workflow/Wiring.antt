-- ===== src/Workflow/Wiring.antt =====
-- The exchanges and queues of a workflow in src/agentcy/rabbitmq_workflow/workflow_config_parser.py:
-- `suggest_exchange_types`, `identify_publishers_subscribers_queues`, `prepare_rabbitmq_configs` and
-- `parse_fan_in_metadata`.
use Prim.Native.String.{◌++◌ as ◌<>◌}
use agentcy.Prelude.{
  ℕ, String, List, [], ◌∷◌, ◌++◌, Option, none, some, ◌==◌, string_eq, Dict, get, put, contains,
  if◌then◌else◌,
}
use agentcy.Workflow.Kahn.{Graph, neighbors}
use agentcy.Workflow.Tasks.{
  Task, Outputs, outputs_of, Result, ok, error, ◌>>=◌, key_error, no_exchange, no_attribute,
  missing_fan_in,
}
use agentcy.Workflow.Order.{is_nil}

pub record Exchange : Type 0 where
  pub exchange_type : String
  pub reason : String
  pub task_name : String

-- `from_task` is `None` for the queue at the entry of the pipeline.
pub record Queue : Type 0 where
  pub from_task : Option String
  pub to_task : String
  pub queue_name : String

pub record RabbitmqConfig : Type 0 where
  pub task_id : String
  pub exchange : String
  pub exchange_type : String
  pub queue : String
  pub routing_key : String

-- A publisher or a subscriber: its name and the tasks that it publishes to or subscribes to.
pub record Party : Type 0 where
  pub task_name : String
  pub tasks : List String

pub record FanIn : Type 0 where
  pub required_steps : List String
  pub correlation_id : String
  pub timeout : ℕ

abbrev pub Exchanges : Type 0
Exchanges = Dict String Exchange

-- The exchange for a number of dependents.
abbrev by_dependents : List String → String → Exchange
by_dependents [] name = record {
  exchange_type = "direct";
  reason = "No dependent tasks or end of chain.";
  task_name = name;
}
by_dependents (t ∷ []) name = record {
  exchange_type = "direct";
  reason = "Single dependent task.";
  task_name = name;
}
by_dependents (t ∷ (u ∷ ts)) name = record {
  exchange_type = "fanout";
  reason = "Multiple dependent tasks (broadcast).";
  task_name = name;
}

-- The loop over the graph. `task_dict[task_id]` raises for an unknown task.
unfoldable pub suggest_each : Dict String Task → Graph → Exchanges → Result Exchanges
suggest_each tasks [] exchanges = ok exchanges
suggest_each tasks ((task_id, dependents) ∷ graph) exchanges = elim (get task_id tasks) [
  | none ↦ error (key_error task_id)
  | some task ↦
      suggest_each tasks graph (put task_id (by_dependents dependents task.name) exchanges)
]

abbrev name_of : Option Task → String
name_of none = ""
name_of (some task) = task.name

abbrev task_name_of : Option Exchange → String → String
task_name_of none name = name
task_name_of (some e) name = e.task_name

-- The loop over the fan-in steps.
unfoldable pub suggest_fan_in : Dict String Task → List String → Exchanges → Exchanges
suggest_fan_in tasks [] exchanges = exchanges
suggest_fan_in tasks (step ∷ steps) exchanges = suggest_fan_in tasks steps (
    put step
      (record {
        exchange_type = "fanout";
        reason = "Fan-in step requiring aggregation of multiple upstream steps.";
        task_name = task_name_of (get step exchanges) (name_of (get step tasks));
      })
      exchanges)

unfoldable pub suggest_exchange_types : Graph → Dict String Task → List String → Result Exchanges
suggest_exchange_types graph tasks fan_in_steps = do
  exchanges ← suggest_each tasks graph []
  ok (suggest_fan_in tasks fan_in_steps exchanges)

abbrev pub queue_between : String → String → String
queue_between dep task_id = "queue_" <> dep <> "_to_" <> task_id

-- The queues of a task, one for each dependency.
unfoldable pub add_queues : String → List String → Dict String Queue → Dict String Queue
add_queues task_id [] queues = queues
add_queues task_id (dep ∷ deps) queues =
    let name = queue_between dep task_id in
    add_queues task_id deps
      (put name (record { from_task = some dep; to_task = task_id; queue_name = name }) queues)

abbrev party : String → List String → String → Dict String Party → Dict String Party
party id [] name parties = parties
party id (t ∷ ts) name parties = put id (record { task_name = name; tasks = t ∷ ts }) parties

-- The publishers, the subscribers and the queues.
unfoldable pub identify_each :
    Graph
    → Dict String Task
    → Dict String Party
    → Dict String Party
    → Dict String Queue
    → Dict String Party × Dict String Party × Dict String Queue
identify_each graph [] publishers subscribers queues = (publishers, subscribers, queues)
identify_each graph ((task_id, task) ∷ tasks) publishers subscribers queues =
    identify_each graph tasks (party task_id (neighbors task_id graph) task.name publishers)
      (party task_id task.dependencies task.name subscribers)
      (add_queues task_id task.dependencies queues)

unfoldable pub identify_publishers_subscribers_queues :
    Graph → Dict String Task → Dict String Party × Dict String Party × Dict String Queue
identify_publishers_subscribers_queues graph tasks = identify_each graph tasks [] [] []

unfoldable pub routing_key_of : String → String → String
routing_key_of exchange_type queue_name =
    if exchange_type == "direct"
    then queue_name
    else if exchange_type == "fanout"
    then ""
    else if exchange_type == "headers"
    then ""
    else queue_name

abbrev publisher_config : String → String → Exchange → RabbitmqConfig
publisher_config name from_task e = record {
  task_id = from_task;
  exchange = "exchange_" <> from_task;
  exchange_type = e.exchange_type;
  queue = name;
  routing_key = routing_key_of e.exchange_type name;
}

abbrev end_config : Queue → Exchange → RabbitmqConfig
end_config q e = record {
  task_id = q.to_task;
  exchange = "exchange_" <> q.to_task;
  exchange_type = e.exchange_type;
  queue = q.queue_name;
  routing_key = q.queue_name;
}

-- The end of a turn of the loop, for a task without outputs: the task's own exchange, once. A task
-- that is not among the exchanges is read from the set of its outputs, which has no `get`.
unfoldable pub end_task :
    Exchanges → Outputs → Queue → List String → Result (List RabbitmqConfig × List String)
end_task exchanges outputs q processed =
    if is_nil (outputs_of q.to_task outputs)
    then (if contains q.to_task processed
        then ok ([], processed)
        else elim (get q.to_task exchanges) [
          | none ↦ error no_attribute
          | some e ↦ ok (end_config q e ∷ [], q.to_task ∷ processed)
        ])
    else ok ([], processed)

-- The exchange of the publisher of a queue.
abbrev pub exchange_from : Exchanges → Option String → Result (String × Exchange)
exchange_from exchanges none = error (no_exchange "None")
exchange_from exchanges (some from_task) = elim (get from_task exchanges) [
  | none ↦ error (no_exchange from_task)
  | some e ↦ ok (from_task, e)
]

module _ (exchanges : Exchanges) (outputs : Outputs) where
  unfoldable pub prepare_each :
      Dict String Queue → List String → List RabbitmqConfig → Result (List RabbitmqConfig)
  prepare_each [] processed configs = ok configs
  prepare_each ((name, q) ∷ queues) processed configs = do
    from ← exchange_from exchanges q.from_task
    ended ← end_task exchanges outputs q processed
    prepare_each queues ended.1 (configs ++ (publisher_config name from.0 from.1 ∷ ended.0))

  unfoldable pub prepare_rabbitmq_configs : Dict String Queue → Result (List RabbitmqConfig)
  prepare_rabbitmq_configs queues = prepare_each queues [] []

-- next((t for t in tasks if t['id'] == step), None)
unfoldable pub find_task : String → List Task → Option Task
find_task step [] = none
find_task step (task ∷ tasks) = if task.id == step then some task else find_task step tasks

module _ (tasks : List Task) (pipeline_id : String) (timeout : ℕ) where
  unfoldable pub parse_each : List String → Dict String FanIn → Result (Dict String FanIn)
  parse_each [] found = ok found
  parse_each (step ∷ steps) found = elim (find_task step tasks) [
    | none ↦ error (missing_fan_in step)
    | some task ↦ parse_each steps (
        put step
          (record {
            required_steps = task.dependencies;
            correlation_id = "corr-" <> step <> "-" <> pipeline_id;
            timeout = timeout;
          })
          found)
  ]

  unfoldable pub parse_fan_in_metadata : List String → Result (Dict String FanIn)
  parse_fan_in_metadata steps = parse_each steps []

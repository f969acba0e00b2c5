-- ===== src/Workflow/Parser.antt =====
-- `parse_graph` of src/agentcy/rabbitmq_workflow/workflow_config_parser.py: the whole parser.
pub mod Total
pub mod Checked
pub mod Rooted
use Prim.Native.String.{◌++◌ as ◌<>◌}
use agentcy.Prelude.{ℕ, String, List, [], ◌∷◌, ◌++◌, Option, none, some, string_eq, Dict, put}
use agentcy.Workflow.Kahn.{Graph}
use agentcy.Workflow.Tasks.{
  TaskConfig, Task, Outputs, Result, ok, error, ◌>>=◌, ◌>>◌, infer_dependencies_and_outputs,
}
use agentcy.Workflow.Order.{
  detect_cycles_kahn, parse_dag, validate_no_solo_nodes, validate_single_connected_dag,
  find_parallel_tasks, task_dict, identify_fan_in_steps,
}
use agentcy.Workflow.Wiring.{
  Exchange, Queue, RabbitmqConfig, Party, FanIn, Exchanges, suggest_exchange_types,
  identify_publishers_subscribers_queues, prepare_rabbitmq_configs, parse_fan_in_metadata,
}

-- What the parser reads of the configuration: `error_handling.timeout` may be missing.
pub record DagConfig : Type 0 where
  pub tasks : List TaskConfig
  pub timeout : Option ℕ

abbrev pub timeout_of : Option ℕ → ℕ
timeout_of none = 300
timeout_of (some t) = t

-- The result, without the time of the update.
pub record FinalConfig : Type 0 where
  pub execution_order : List String
  pub task_graph : Graph
  pub parallel_tasks : List (List String)
  pub task_dict : Dict String Task
  pub fan_in_steps : List String
  pub exchange_suggestions : Exchanges
  pub publishers : Dict String Party
  pub subscribers : Dict String Party
  pub queues : Dict String Queue
  pub rabbitmq_configs : List RabbitmqConfig
  pub fan_in_metadata : Dict String FanIn
  pub task_outputs : Outputs

abbrev entry_exchange : String → Exchange
entry_exchange name = record {
  exchange_type = "direct";
  reason = "Pipeline entry point for external messages/triggers";
  task_name = name;
}

abbrev entry_queue : String → Queue
entry_queue name = record { from_task = none; to_task = "entry"; queue_name = name }

abbrev entry_config : String → String → RabbitmqConfig
entry_config exchange queue = record {
  task_id = "entry";
  exchange = exchange;
  exchange_type = "direct";
  queue = queue;
  routing_key = queue;
}

-- The part of `parse_graph` that checks the tasks and puts them in order.
unfoldable pub order_tasks : List Task → Result (List String × Graph)
order_tasks tasks = do
  detect_cycles_kahn tasks
  parsed ← parse_dag tasks
  validate_no_solo_nodes tasks parsed.1
  graph ← validate_single_connected_dag tasks parsed.1
  ok (parsed.0, graph)

-- The part that makes the exchanges and the queues.
unfoldable pub wire_tasks :
    DagConfig → String → List Task → Outputs → List String × Graph → Result FinalConfig
wire_tasks config pipeline_id tasks outputs (execution_order, graph) = do
  parallel_tasks ← find_parallel_tasks execution_order graph
  let dict = task_dict tasks []
  let fan_in_steps = identify_fan_in_steps dict
  exchanges ← suggest_exchange_types graph dict fan_in_steps
  let parties = identify_publishers_subscribers_queues graph dict
  configs ← prepare_rabbitmq_configs exchanges outputs parties.2
  metadata ← parse_fan_in_metadata tasks pipeline_id (timeout_of config.timeout) fan_in_steps
  let queue_name = "pipeline_entry_queue_" <> pipeline_id
  let exchange_name = "pipeline_entry_" <> pipeline_id
  ok (record {
    execution_order = execution_order;
    task_graph = graph;
    parallel_tasks = parallel_tasks;
    task_dict = dict;
    fan_in_steps = fan_in_steps;
    exchange_suggestions = put exchange_name (entry_exchange exchange_name) exchanges;
    publishers = parties.0;
    subscribers = parties.1;
    queues = put queue_name (entry_queue queue_name) parties.2;
    rabbitmq_configs = configs ++ (entry_config exchange_name queue_name ∷ []);
    fan_in_metadata = metadata;
    task_outputs = outputs;
  })

unfoldable pub parse_graph : DagConfig → String → Result FinalConfig
parse_graph config pipeline_id = do
  inferred ← infer_dependencies_and_outputs config.tasks
  ordered ← order_tasks inferred.0
  wire_tasks config pipeline_id inferred.0 inferred.1 ordered

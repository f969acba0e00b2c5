-- ===== src/Lib.antt =====
-- Verification of Agentcy, an orchestrator of agents that bid for the tasks of a workflow: the
-- parser that makes a plan of a workflow's configuration, the tracker that follows a run of it, the
-- executor of coalitions, and the checks on plans and on their revisions.
--
-- A workflow configuration goes through the parser, whose result the orchestrator stores. Agents
-- report the states of their tasks to the tracker, which keeps the run document, decides when the run
-- ends, and gives a failed task to the next candidate of the evaluation sequence. A plan is validated
-- before it is used, and a revision is checked against the run that it changes. A task may go to a
-- coalition, whose members run its steps in turn. Before a run, the contract-net manager asks for bids
-- in rounds, and the graph builder awards each task to its best bid, counts the award in the registry
-- of agents, stores the other bids as the evaluation sequence that the tracker reads, and makes the
-- plan. A workflow may start from a skeleton of steps, which rules of the business template change.
--
-- Tracker (src/agentcy/agent_runtime/tracker.py):
--   Tracker/LruSet       `_LRUSet`, the cache of duplicates, over any type of keys
--   Tracker/Status       the statuses, `_to_enum`, `_ORDER`, `_forward_only`
--   Tracker/Run          `TaskState`, `PipelineRun` and the documents of
--                        src/agentcy/orchestrator_core/stores/ephemeral_pipeline_store.py
--   Tracker/Finals       `_finals`, `_derive_finals_from_cfg`, `_service_for_task`, `_services_from_cfg`
--   Tracker/Sequence     `advance_evaluation_sequence` of
--                        src/agentcy/orchestrator_core/stores/graph_marker_store.py
--   Tracker/Reforward    `_try_reforward_sync`, and the state of the tracker with its stores
--   Tracker/Handler      `on_task_done`
-- Workflow (src/agentcy/rabbitmq_workflow/workflow_config_parser.py):
--   Workflow/Kahn        the queue algorithm that the parser has three times, and the validator once
--   Workflow/Tasks       `infer_dependencies_and_outputs`
--   Workflow/Order       `detect_cycles_kahn`, `parse_dag`, the checks, `find_parallel_tasks`
--   Workflow/Wiring      exchanges, queues and the metadata of fan-in steps
--   Workflow/Parser      `parse_graph`
-- Coalition (src/agentcy/agent_runtime/services/coalition_executor.py):
--   Coalition/Executor   `execute_coalition`
-- Plans (src/agentcy/agent_runtime/services):
--   Plans/Graph, Plans/Delta, Plans/Runtime   plan_revision_utils.py
--   Plans/Validator      plan_validator.py, the checks on a graph
--   Plans/Gate           the verdicts of plan_validator.py and plan_revision_utils.py
-- Contracts (src/agentcy/agent_runtime/services/graph_builder.py and cnp_utils.py):
--   Contracts/Ranking    the sort of the candidates
--   Contracts/Bids       `_best_bids` and `_ranked_bids`
--   Contracts/Agents     `_increment_agent_load`, `agent_cnp_state`, `update_cnp_metadata`
--   Contracts/Awards     the awards and the closed calls of `build_plan_draft`
--   Contracts/Drafts     `build_plan_draft`, from given specs
--   Contracts/Specs      the specs that `build_plan_draft` takes
--   Contracts/Cycle      `handle_run_cnp_cycle` of
--                        src/agentcy/orchestrator_core/consumers/cnp_manager.py
-- Registry (src/agentcy/orchestrator_core/stores):
--   Registry/Entry       `AgentRegistryEntry` and the counters in its metadata
--   Registry/Policy      the freshness of agent_registry_policy.py
--   Registry/Store       agent_registry_store.py
-- Forwarder (src/agentcy/agent_runtime/forwarder.py):
--   Forwarder/Choice     `_resolve_competing_service`
-- Topology (src/agentcy/cognitive/topology/mutation.py):
--   Topology/Mutation    `apply_mutations`
--   Topology/Conditions  `evaluate_condition`
--
-- State is passed on: a handler takes the state of the tracker, with its stores and the messages that
-- it has scheduled, and returns the next one with its reply. An event is one step, since the code
-- holds the lock of the run. Exceptions of the parser are values of a result type. Dictionaries are
-- association lists in the order of insertion, sets are lists without repetitions. Time is a number
-- of ticks. What Python's strings do (`upper`, `capitalize`, `strip`), the configuration store, the
-- clock and the callable that runs a step of a coalition are parameters.
--
-- Fuel: the loops of Kahn's algorithm have one unit for each node that is queued or in the
-- dictionary of degrees, since each is taken once at most; the search for connected tasks has one for
-- each edge and two more, since each edge queues one task. The rounds of bids are
-- counted down from the number allowed. The duplicate cache holds 4096 entries for 3600 seconds, as
-- in the code.
--
-- Not modelled: logging, the wire format of messages, stores that raise, the drawing of the graph, the
-- time stamps of the parser and of reports, the SHACL engine and the review by a language model, and all
-- scores that are floating-point: those that order bids are numbers of millionths.
pub mod Prelude
pub mod Tracker
pub mod Workflow
pub mod Coalition
pub mod Plans
pub mod Contracts
pub mod Registry
pub mod Topology
pub mod Forwarder

-- ===== src/Lib.antt =====
-- A verification library for the workflow engine of citra-flows.
--
-- The engine runs workflows: graphs of nodes that pass Python values along edges. A worker process
-- takes a job from a queue on Redis Streams, and the job's handler has the executor run a workflow or
-- resume a paused one. The executor runs each node through its base class, which retries it, and
-- counts the run's LLM calls against a budget; calls of some services go through a circuit breaker.
--
-- Which file models what:
--
-- - Common: Boolean tests, list functions over native numbers, dicts as association lists.
-- - Value: the values that nodes exchange, with the operations of dict, str and int on them.
-- - Models: citra-workflow/citra_workflow/models.py. `WorkflowExecution` and the records that it
--   holds keep the fields that the executor decides on.
-- - Executor: citra-workflow/citra_workflow/executor.py. `_execute_inner` and `resume` share the
--   local variables of State.`Run` and the loop of Loop. A visit of one node (Visit for
--   `_execute_inner`, Resume for `resume`) goes on with the queue, returns from the loop or throws;
--   Start holds what comes before and behind the loop, and the timeout of `execute`. Branch reads
--   the labels of edges and Graph the structure of the workflow; Slots is the cap on concurrent
--   runs, with the time to live of its counter and `execute` around a run.
-- - Node: `BaseNode.run` of citra-workflow/citra_workflow/nodes/__init__.py.
-- - Budget: citra-workflow/citra_workflow/llm_budget.py.
-- - Breaker: citra-common/citra-service-utils/citra_service_utils/circuit_breaker.py.
-- - Queue: citra-common/citra-queue/citra_queue/queue.py. Job is `Job` with its JSON, Session the
--   commands sent to Redis, Consumer the functions that send them, Reader those that hand out jobs.
-- - Chunking: citra-workflow/citra_workflow/utils/chunking.py.
-- - SandboxPool: services/sandbox_pool.py. acquire, release, warmup and the reaper of
--   `WarmContainerPool` are cut at their awaits into the steps of Event, which interleave freely;
--   containers are known by their identifiers and Docker by its answers.
-- - Logic: citra-workflow/citra_workflow/nodes/logic.py. Condition, Switch, Loop,
--   SetVariable and Merge (with the split, approval and delay nodes) are `execute` of these nodes;
--   their theorems compose them with the routing of Executor.Visit. Python's conversions of objects
--   are the fields of `Python`.
-- - Triggers: citra-workflow/citra_workflow/nodes/triggers.py, `execute` of the entry points of a
--   workflow, with the checks of their schemas.
-- - Dedup: `DeduplicatorNode` of citra-workflow/citra_workflow/nodes/processors.py.
-- - Connections: citra-workflow/citra_workflow/connection_resolver.py.
-- - FileCache: services/sandbox_file_cache.py. The disk is a list of files and one of metadata, S3 is
--   known by its answers.
-- - Validator: citra-workflow/citra_workflow/workflow_reference_validator.py, the checks of a
--   generated workflow before it is shown. The registry is a list of node types with their fields.
-- - Control: citra-workflow/citra_workflow/workflow_control.py, the records that halt workflows and
--   the cache of them in a process.
-- - Scheduler: citra-workflow/citra_workflow/scheduler.py. Election is the race for the leader key,
--   its instances' turns an arbitrary sequence of events; Cron checks a schedule, Registry holds the
--   leader's cron jobs, Fire is `_execute_scheduled_workflow`, whose Redis is a list of locks and
--   which asks Control; Reaper is the sweep over executions whose worker died and Timeouts the check
--   of approvals that nobody answered, on the documents of Mongo, a list that `update_one` searches
--   in order. zoneinfo and APScheduler are the fields of `Calendar`.
-- - Approval: `_enqueue_resume` of citra-workflow/citra_workflow/router.py, on the same documents.
-- - Worker: `_process_job` of Citra-Worker/worker.py, on the functions of Queue.
-- - Tests: sample workflows, jobs, breakers and pools, and the theorems at these.
--
-- What is outside the repository is a parameter: the nodes' own work, the cancel flag, the registry,
-- the clock and approval requests (the fields of `Env`), the order in which a set of root nodes is
-- iterated, the replies of Redis, the json module and random jitter. Writes to Mongo and Redis,
-- e-mails and the deletion of blobs are effects in the trace of a run, newest first.
--
-- The outer loop of a run is recursion on fuel, one more than the nodes of the workflow; each round
-- executes at least one node that was not executed, so that the fuel is never used up. The
-- windows over a long paragraph are recursion on its length. Times are numbers of clock ticks.
-- Python's integers are the integers of Value where the code may meet a negative one, and natural
-- numbers where it only counts.
--
-- Not modelled: the other nodes, the rest of the HTTP router and of the worker process, the renewal
-- of the scheduler's locks while a fire runs, the shutdown of the container pool and its wait for
-- Docker, the AI assistant, the services around the engine and the user interface. The texts of log
-- lines and of most error messages are left out; an error is known by what is formatted into it.
pub mod Common
pub mod Models
pub mod Value
pub mod Dedup
pub mod Executor
pub mod Budget
pub mod Breaker
pub mod Node
pub mod Queue
pub mod Chunking
pub mod Connections
pub mod Control
pub mod SandboxPool
pub mod FileCache
pub mod Logic
pub mod Validator
pub mod Scheduler
pub mod Approval
pub mod Triggers
pub mod Worker
mod Tests

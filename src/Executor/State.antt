-- ===== src/Executor/State.antt =====
-- citra_workflow/executor.py: the state of a run, its effects in order, and the environment that a
-- run acts in. `_update_progress`, `_save_execution`, `_notify_failure` and the blob store catch
-- their own exceptions, so that for a run they are effects and no more.
use citra_flows.Common.{
  ℕ, ◌+◌, String, Bool, true, false, Option, none, some, List, [], ◌∷◌, mem, if◌then◌else◌, ◌==◌,
}
use citra_flows.Value.{Value, Fields, truthy}
use citra_flows.Models.{ExecutionStatus, NodeExecutionResult, WorkflowExecution, Message}
use citra_flows.Models.NodeType.{NodeType}

-- What a node is given: `NodeContext`, without what it copies from the workflow.
pub record NodeContext : Type 0 where
  pub node_id : String
  pub config : Fields
  pub input_data : Value
  pub variables : Fields
  pub workflow_context : Option Value

-- How `node_instance.run(ctx)` under `asyncio.wait_for` ends. Each way with the variables that the
-- node leaves in `ctx.variables`.
pub data NodeRun : Type 0 where
  finished : Fields → NodeExecutionResult → NodeRun
  timed_out : Fields → NodeRun
  raised : Fields → Message → NodeRun

-- What `_create_approval_request` does: it gives the request's identifier, or building it raises.
pub data Created : Type 0 where
  created : String → Created
  refused : Message → Created

pub record Env : Type 0 where
  -- `cache.get(cancel_key)` at the boundary before a node, `none` where the cache raises
  pub cancel_flag : String → Option Value
  -- the node types in the registry
  pub registered : NodeType → Bool
  pub run_node : NodeContext → NodeRun
  -- `extract_workflow_context` on the outputs so far, `none` where it raises
  pub workflow_context : String → List (String × Value) → Option Value
  pub create_approval : String → Value → Created
  -- `time.time()` and `datetime.utcnow()`, by the number of the reading
  pub clock : ℕ → ℕ
  pub max_node_steps : ℕ
  pub checkpoint_interval : ℕ

pub data Effect : Type 0 where
  -- `_update_progress`
  published : WorkflowExecution → Effect
  -- `_save_execution`
  saved : WorkflowExecution → Effect
  -- `node_instance.run(ctx)`
  ran : String → Effect
  -- `_create_approval_request`
  asked_approval : String → Effect
  -- `_notify_failure`, with the node and the error that it names
  notified : String → Message → Effect
  -- the cancel flag is deleted
  cleared_cancel : Effect
  -- `delete_blobs_for_execution`
  swept : Effect

-- The local variables of `_execute_inner` and `resume`. `trace` is the run's effects, newest first.
pub record Run : Type 0 where
  pub execution : WorkflowExecution
  pub open execution use {status, node_results, error, current_node, paused_at_node}
  pub run_variables : Fields
  pub node_outputs : List (String × Value)
  pub executed : List String
  pub soft_failed : List String
  pub steps_executed : ℕ
  pub last_checkpoint : ℕ
  pub reads : ℕ
  pub trace : List Effect

-- The nodes that were run, newest first.
abbrev pub runs : List Effect → List String
runs [] = []
runs (ran nid ∷ t) = nid ∷ runs t
runs (published x ∷ t) = runs t
runs (saved x ∷ t) = runs t
runs (asked_approval nid ∷ t) = runs t
runs (notified nid m ∷ t) = runs t
runs (cleared_cancel ∷ t) = runs t
runs (swept ∷ t) = runs t

-- `s.add(x)`.
abbrev pub add : String → List String → List String
add x s = if mem x s then s else x ∷ s

-- `_update_progress` and `_save_execution`.
abbrev pub publish : Run → Run
publish r = record r { trace = published r.execution ∷ r.trace }

abbrev pub save : Run → Run
save r = record r { trace = saved r.execution ∷ r.trace }

abbrev pub emit : Effect → Run → Run
emit e r = record r { trace = e ∷ r.trace }

abbrev pub set_status : ExecutionStatus → Run → Run
set_status s r = record r { execution = record (r.execution) { status = s } }

abbrev pub set_error : Message → Run → Run
set_error m r = record r { execution = record (r.execution) { error = some m } }

-- `execution.completed_at = datetime.utcnow()`.
abbrev pub stamp : Env → Run → Run
stamp env r = record r {
  execution = record (r.execution) { completed_at = some (env.clock r.reads) };
  reads = r.reads + 1;
}

-- `_is_cancel_requested`: an error of the cache counts as no request.
unfoldable pub is_cancel_requested : Env → String → Bool
is_cancel_requested env nid = elim (env.cancel_flag nid) [ none ↦ false | some v ↦ truthy v ]

-- `not execution.error`.
abbrev no_error : Option Message → Bool
no_error none = true
no_error (some (Message.text s)) = s == ""
no_error (some m) = false

abbrev default_error : Run → Run
default_error r = if no_error r.error then set_error Message.cancelled_by_user r else r

-- `_mark_cancelled`.
unfoldable pub mark_cancelled : Env → Run → Run
mark_cancelled env r =
    emit cleared_cancel
      (save (publish (stamp env (default_error (set_status ExecutionStatus.cancelled r)))))

unfoldable pub is_terminal : ExecutionStatus → Bool
is_terminal ExecutionStatus.completed = true
is_terminal ExecutionStatus.failed = true
is_terminal ExecutionStatus.cancelled = true
is_terminal ExecutionStatus.timed_out = true
is_terminal s = false

-- `_sweep_blobs_if_terminal`.
unfoldable pub sweep_blobs_if_terminal : Run → Run
sweep_blobs_if_terminal r = if is_terminal r.status then emit swept r else r

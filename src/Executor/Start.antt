-- ===== src/Executor/Start.antt =====
-- citra_workflow/executor.py: `_execute_inner` and the timeout of `execute`.
pub mod Guarantees
pub mod Outcome
pub mod Timeout
pub mod Orphans
use citra_flows.Common.{suc, String, Option, none, some, List, [], ◌∷◌, length}
use citra_flows.Value.{Fields, end, update}
use citra_flows.Models.{
  ExecutionStatus, NodeExecutionStatus, WorkflowDefinition, WorkflowExecution, Message,
}
use citra_flows.Executor.Graph.{root_nodes, orphaned_nodes}
use citra_flows.Executor.State.{
  Env, Effect, notified, Run, publish, save, emit, set_status, set_error, stamp,
  sweep_blobs_if_terminal,
}
use citra_flows.Executor.Visit.{Flow, go, returned, threw, visit, set_result, bare_result}
use citra_flows.Executor.Loop.{Ending, done, out_of_fuel, rounds}

-- `trigger_data or {}`.
abbrev pub or_empty : Option Fields → Fields
or_empty none = end
or_empty (some d) = d

-- The execution that `execute` creates.
unfoldable pub new_execution : Option Fields → WorkflowExecution
new_execution trigger = record {
  status = ExecutionStatus.running;
  trigger_data = or_empty trigger;
  current_node = none;
  paused_at_node = none;
  approval_id = none;
  node_results = [];
  variables = end;
  error = none;
  completed_at = none;
}

unfoldable pub skip_orphans : List String → Run → Run
skip_orphans [] r = r
skip_orphans (nid ∷ nids) r =
    skip_orphans nids (set_result nid (bare_result nid NodeExecutionStatus.skipped none) r)

-- The local variables at the start of the loop.
unfoldable pub start_run : Env → WorkflowDefinition → Option Fields → WorkflowExecution → Run
start_run env wf trigger x = skip_orphans (orphaned_nodes wf) (record {
  execution = x;
  run_variables = update wf.variables (or_empty trigger);
  node_outputs = [];
  executed = [];
  soft_failed = [];
  steps_executed = 0;
  last_checkpoint = env.clock 0;
  reads = 1;
  trace = Effect.published x ∷ [];
})

-- All done.
unfoldable pub complete : Env → Run → Run
complete env r =
    let r1 = stamp env (set_status ExecutionStatus.completed r) in
    save
      (publish (record r1 { execution = record (r1.execution) { variables = r1.run_variables } }))

-- `except Exception as exc`.
unfoldable pub crash : Env → Run → Message → Run
crash env r m = save (publish (stamp env (set_error m (set_status ExecutionStatus.failed r))))

-- Everything behind the loop, the `finally` block included.
unfoldable pub conclude : Env → Flow → Run
conclude env (go r next) = sweep_blobs_if_terminal (complete env r)
conclude env (returned r) = sweep_blobs_if_terminal r
conclude env (threw r m) = sweep_blobs_if_terminal (crash env r m)

abbrev pub conclude_ending : Env → Ending → Option Run
conclude_ending env out_of_fuel = none
conclude_ending env (done f) = some (conclude env f)

-- The loop from the root nodes, with the order in which their set is iterated.
unfoldable pub execute_from :
    Env → WorkflowDefinition → (List String → List String) → Fields → List String → Run → Option Run
execute_from env wf order trigger [] r = some (conclude env (threw r Message.no_root))
execute_from env wf order trigger (root ∷ roots) r =
    conclude_ending env
      (rounds wf.edges (visit env wf trigger) (suc (length wf.nodes)) (order (root ∷ roots)) r)

-- `_execute_inner`. `none` only if the fuel, one more than the nodes, ran out.
unfoldable pub execute_inner :
    Env → WorkflowDefinition → (List String → List String) → Option Fields → Option Run
execute_inner env wf order trigger =
    execute_from env wf order (or_empty trigger) (root_nodes wf)
      (start_run env wf trigger (new_execution trigger))

abbrev current_or_empty : Option String → String
current_or_empty none = ""
current_or_empty (some nid) = nid

-- `except asyncio.TimeoutError` in `execute`. The cancelled `_execute_inner` has left its loop by
-- then at some run `r`, and its `finally` block has swept what that run's status lets it sweep.
unfoldable pub time_out : Env → Run → Run
time_out env r =
    let r1 = stamp env (
      set_error Message.execution_timed_out
        (set_status ExecutionStatus.timed_out (sweep_blobs_if_terminal r))) in
    emit (notified (current_or_empty r1.current_node) Message.execution_timed_out)
      (save (publish r1))

-- ===== src/Executor/Resume.antt =====
-- citra_workflow/executor.py, `resume`: a paused run, or one whose worker crashed, goes on. The
-- loop repeats that of `_execute_inner` over a visit that differs: it takes a `meta` that is no
-- dict for an error, propagates no skips, merges no variables, takes no checkpoints, asks for no
-- approval when it pauses again, and does not look at `continue_on_error`.
pub mod Visits
pub mod Fresh
pub mod Reach
use citra_flows.Common.{
  ℕ, zero, suc, ◌+◌, String, Bool, true, false, not, ◌&&◌, ◌||◌, Option, none, some, List, [], ◌∷◌,
  ◌++◌, mem, length, select, ltb, if◌then◌else◌, ◌==◌,
}
use citra_flows.Common.Dict.{lookup, insert, keys}
use citra_flows.Value.{Value, Fields, null, str, obj, end, get, get_default, update, is_str}
use citra_flows.Models.{
  ExecutionStatus, NodeExecutionStatus, NodeDefinition, WorkflowDefinition, NodeExecutionResult,
  WorkflowExecution, Message,
}
use citra_flows.Executor.Graph.{children, parents, edges_between, node_map}
use citra_flows.Executor.State.{
  NodeContext, NodeRun, finished, timed_out, raised, Env, ran, Run, publish, save, emit, set_status,
  set_error, stamp, is_cancel_requested, mark_cancelled, sweep_blobs_if_terminal, Effect,
}
use citra_flows.Executor.Visit.{
  Flow, go, returned, threw, output_of, gather_input, off_branch, off_route, present, holds,
  is_known, enqueue, bare_result, set_result, mark_executed, kept_variables, is_completed,
  is_skipped_status, skip_node, fail_unknown, fail_run,
}
use citra_flows.Executor.Loop.{Ending, done, out_of_fuel, rounds}
use citra_flows.Executor.Start.{conclude}

-- One parent, with `none` for the AttributeError of a `meta` that is no dict.
unfoldable pub resumed_route_meta :
    WorkflowDefinition → String → String → Fields → Value → Bool × Value → Option (Bool × Value)
resumed_route_meta wf nid pid d (obj meta) (skip, input) =
    let edges = edges_between wf.edges pid nid in
    let known = is_known (lookup pid (node_map wf)) in
    some (
      if present (get "condition_result" meta) && known
      then (skip || off_branch (get_default "branch" (str "true") meta) edges, obj d)
      else if holds (get "switch_result" meta) && known
      then (skip || off_route (get_default "matched_route" null meta) edges, obj d)
      else (skip, input))
resumed_route_meta wf nid pid d meta acc = none

unfoldable pub resumed_route :
    WorkflowDefinition → String → String → Value → Bool × Value → Option (Bool × Value)
resumed_route wf nid pid (obj d) acc =
    resumed_route_meta wf nid pid d (get_default "meta" (obj end) d) acc
resumed_route wf nid pid output acc = some acc

unfoldable pub resumed_route_all :
    WorkflowDefinition
    → List (String × Value)
    → String
    → List String
    → Bool × Value
    → Option (Bool × Value)
resumed_route_all wf outputs nid [] acc = some acc
resumed_route_all wf outputs nid (pid ∷ pids) acc =
    elim (resumed_route wf nid pid (output_of outputs pid) acc) [
      | none ↦ none
      | some acc' ↦ resumed_route_all wf outputs nid pids acc'
    ]

module _ (env : Env) (wf : WorkflowDefinition) (trigger : Fields) where
  -- The run pauses again, with no approval request.
  unfoldable pub resumed_pause : String → Run → Flow
  resumed_pause nid r = returned (
      save (
        publish (record r {
          execution = record (r.execution) {
            status = ExecutionStatus.paused;
            paused_at_node = some nid;
          };
        })))

  unfoldable pub resumed_meta : String → Value → Run → List String → Flow
  resumed_meta nid (obj meta) r next =
      if is_str (get_default "status" null meta) "waiting_approval"
      then resumed_pause nid r
      else go r (enqueue r.executed next (children wf.edges nid))
  resumed_meta nid meta r next = threw r Message.no_attribute_get

  unfoldable pub resumed_output : String → Value → Run → List String → Flow
  resumed_output nid (obj d) r next = resumed_meta nid (get_default "meta" (obj end) d) r next
  resumed_output nid output r next = go r (enqueue r.executed next (children wf.edges nid))

  unfoldable pub resumed_settle :
      String → NodeDefinition → NodeExecutionResult → Run → List String → Flow
  resumed_settle nid n result r next =
      let r1 = set_result nid result r in
      if is_completed result.status
      then resumed_output nid result.output_data
          (record (mark_executed nid r1) {
            node_outputs = insert nid result.output_data r1.node_outputs;
          })
          next
      else fail_run env wf trigger nid n result r1

  abbrev pub resumed_context : String → NodeDefinition → Value → Run → NodeContext
  resumed_context nid n input r = record {
    node_id = nid;
    config = n.config;
    input_data = input;
    variables = r.run_variables;
    workflow_context = none;
  }

  abbrev pub with_variables : Fields → Run → Run
  with_variables vars r = record r { run_variables = kept_variables r.run_variables vars }

  unfoldable pub resumed_end : String → NodeDefinition → NodeRun → Run → List String → Flow
  resumed_end nid n (raised vars m) r next = threw (with_variables vars r) m
  resumed_end nid n (timed_out vars) r next =
      resumed_settle nid n
        (bare_result nid NodeExecutionStatus.failed (some Message.node_timed_out))
        (with_variables vars r) next
  resumed_end nid n (finished vars result) r next =
      resumed_settle nid n result (with_variables vars r) next

  unfoldable pub resumed_run : String → NodeDefinition → Value → Run → List String → Flow
  resumed_run nid n input r next =
      let r1 = record r { steps_executed = r.steps_executed + 1 } in
      if not (env.registered n.kind)
      then fail_unknown env wf trigger nid n r next
      else if ltb env.max_node_steps r1.steps_executed
      then threw r1 (Message.step_limit env.max_node_steps)
      else resumed_end nid n (env.run_node (resumed_context nid n input r))
          (emit (Effect.ran nid) r1) next

  unfoldable pub resumed_routed :
      String → NodeDefinition → Option (Bool × Value) → Run → List String → Flow
  resumed_routed nid n none r next = threw r Message.no_attribute_get
  resumed_routed nid n (some (skip, input)) r next =
      if skip then skip_node env wf trigger nid r next else resumed_run nid n input r next

  unfoldable pub resumed_node : String → Option NodeDefinition → Run → List String → Flow
  resumed_node nid none r next = threw r (Message.missing_key nid)
  resumed_node nid (some n) r next =
      let pids = parents wf.edges nid in
      resumed_routed nid n
        (resumed_route_all wf r.node_outputs nid pids
          (false, gather_input trigger r.node_outputs pids))
        (publish (record r { execution = record (r.execution) { current_node = some nid } })) next

  -- One node of a batch.
  unfoldable pub resumed_visit : String → Run → List String → Flow
  resumed_visit nid r next =
      if is_cancel_requested env nid
      then returned (mark_cancelled env r)
      else resumed_node nid (lookup nid (node_map wf)) r next

-- `status in ("completed", "skipped")`.
abbrev pub is_behind : NodeExecutionResult → Bool
is_behind x = is_completed x.status || is_skipped_status x.status

-- The nodes that are completed or skipped, and their outputs.
unfoldable pub restored : List (String × NodeExecutionResult) → List String
restored [] = []
restored ((nid, x) ∷ results) =
    let rest = restored results in if is_behind x then nid ∷ rest else rest

unfoldable pub restored_outputs : List (String × NodeExecutionResult) → List (String × Value)
restored_outputs [] = []
restored_outputs ((nid, x) ∷ results) =
    let rest = restored_outputs results in if is_behind x then (nid, x.output_data) ∷ rest else rest

-- The queue that the resumed run starts with: the children of the paused node, or after a crash
-- every node that is not behind.
unfoldable pub seed : WorkflowDefinition → List String → Option String → List String
seed wf executed none = select (λ nid. not (mem nid executed)) (keys (node_map wf))
seed wf executed (some paused) =
    if paused == ""
    then select (λ nid. not (mem nid executed)) (keys (node_map wf))
    else select (λ nid. not (mem nid executed)) (children wf.edges paused)

abbrev pub resumed_execution : WorkflowExecution → WorkflowExecution
resumed_execution x = record x {
  status = ExecutionStatus.running;
  paused_at_node = none;
  approval_id = none;
}

unfoldable pub resumed_start : WorkflowDefinition → WorkflowExecution → Run
resumed_start wf x = record {
  execution = resumed_execution x;
  run_variables = update (update wf.variables x.trigger_data) x.variables;
  node_outputs = restored_outputs x.node_results;
  executed = restored x.node_results;
  soft_failed = [];
  steps_executed = length (restored x.node_results);
  last_checkpoint = 0;
  reads = 0;
  trace = Effect.published (resumed_execution x) ∷ [];
}

-- A rejected approval.
unfoldable pub reject : Env → WorkflowDefinition → WorkflowExecution → Run
reject env wf x =
    let r0 = record (resumed_start wf x) { execution = x; trace = [] } in
    sweep_blobs_if_terminal (
      save (
        publish
          (stamp env (set_error Message.approval_rejected (set_status ExecutionStatus.failed r0)))))

abbrev pub can_resume : ExecutionStatus → Bool
can_resume ExecutionStatus.paused = true
can_resume ExecutionStatus.resuming = true
can_resume s = false

-- How a call of `resume` ends: it raises the ValueError on the status, or gives the execution.
pub data Resumed : Type 0 where
  not_paused : Resumed
  resumed : Run → Resumed
  exhausted : Resumed

abbrev pub resumed_ending : Env → Ending → Resumed
resumed_ending env out_of_fuel = exhausted
resumed_ending env (done f) = resumed (conclude env f)

unfoldable pub resume : Env → WorkflowDefinition → WorkflowExecution → Bool → Resumed
resume env wf x approved =
    let r = resumed_start wf x in
    if not (can_resume x.status)
    then not_paused
    else if not approved
    then resumed (reject env wf x)
    else resumed_ending env (
        rounds wf.edges (resumed_visit env wf x.trigger_data) (suc (length wf.nodes))
          (seed wf r.executed x.paused_at_node) r)

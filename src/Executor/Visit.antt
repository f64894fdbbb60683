-- ===== src/Executor/Visit.antt =====
-- citra_workflow/executor.py, `_execute_inner`: what is done with one node of a batch.
pub mod Settles
pub mod Known
pub mod Reports
use citra_flows.Common.{
  ◌+◌, String, Bool, true, false, not, ◌&&◌, ◌||◌, Option, none, some, List, [], ◌∷◌, ◌++◌, map,
  mem, all, any, is_empty, ltb, leb, if◌then◌else◌, ◌==◌,
}
use citra_flows.Common.Dict.{lookup, insert}
use citra_flows.Value.{
  pos, Value, Fields, null, str, obj, arr, end, items_of, get, get_default, update, truthy, is_null,
  is_str, is_int, nonempty,
}
use citra_flows.Models.{
  ExecutionStatus, NodeExecutionStatus, NodeDefinition, EdgeDefinition, WorkflowDefinition,
  NodeExecutionResult, Message,
}
use citra_flows.Models.NodeType.{NodeType}
use citra_flows.Executor.Branch.{Branch, branch_text, edge_condition_branch, edge_route}
use citra_flows.Executor.Graph.{children, parents, edges_between, node_map}
use citra_flows.Executor.State.{
  NodeContext, NodeRun, finished, timed_out, raised, Env, Created, created, refused, ran,
  asked_approval, notified, Run, add, publish, save, emit, set_status, set_error, stamp,
  is_cancel_requested, mark_cancelled,
}

-- How the visit of a node ends: the run goes on with the queue of the next round, returns from
-- inside the loop, or an exception leaves the loop.
pub data Flow : Type 0 where
  go : Run → List String → Flow
  returned : Run → Flow
  threw : Run → Message → Flow

-- `node_outputs.get(pid, {})`.
unfoldable pub output_of : List (String × Value) → String → Value
output_of outputs pid = elim (lookup pid outputs) [ none ↦ obj end | some v ↦ v ]

-- The input of a node, from the outputs of all its parents.
unfoldable pub gather_input : Fields → List (String × Value) → List String → Value
gather_input trigger outputs [] = obj trigger
gather_input trigger outputs (pid ∷ []) = output_of outputs pid
gather_input trigger outputs pids = arr (items_of (map (output_of outputs) pids))

abbrev pub known_branches : List (Option Branch) → List Branch
known_branches [] = []
known_branches (none ∷ bs) = known_branches bs
known_branches (some b ∷ bs) = b ∷ known_branches bs

-- The branches that the edges carry are known, and the taken one is not among them.
unfoldable pub off_branch : Value → List EdgeDefinition → Bool
off_branch branch edges =
    let known = known_branches (map edge_condition_branch edges) in
    not (is_empty known) && not (any (λ b. is_str branch (branch_text b)) known)

abbrev pub leaves_by : Value → EdgeDefinition → Bool
leaves_by route e = elim (edge_route e) [ none ↦ false | some n ↦ is_int route n ]

-- A switch matched a route, and no edge leaves by it.
unfoldable pub off_route : Value → List EdgeDefinition → Bool
off_route route edges = not (is_null route) && not (any (leaves_by route) edges)

abbrev pub obj_or_empty : Option Value → Fields
obj_or_empty (some (obj d)) = d
obj_or_empty o = end

abbrev pub present : Option Value → Bool
present none = false
present (some v) = not (is_null v)

abbrev pub holds : Option Value → Bool
holds none = false
holds (some v) = truthy v

abbrev pub is_known : Option NodeDefinition → Bool
is_known none = false
is_known (some n) = true

-- What one parent says of a node: whether to skip it, and the input where the parent decides it.
unfoldable pub route_from :
    WorkflowDefinition → String → String → Value → Bool × Value → Bool × Value
route_from wf nid pid (obj d) (skip, input) =
    let meta = obj_or_empty (get "meta" d) in
    let edges = edges_between wf.edges pid nid in
    let known = is_known (lookup pid (node_map wf)) in
    if present (get "condition_result" meta) && known
    then (skip || off_branch (get_default "branch" (str "true") meta) edges, obj d)
    else if holds (get "switch_result" meta) && known
    then (skip || off_route (get_default "matched_route" null meta) edges, obj d)
    else (skip, input)
route_from wf nid pid output (skip, input) = (skip, input)

unfoldable pub route_all :
    WorkflowDefinition → List (String × Value) → String → List String → Bool × Value → Bool × Value
route_all wf outputs nid [] acc = acc
route_all wf outputs nid (pid ∷ pids) acc =
    route_all wf outputs nid pids (route_from wf nid pid (output_of outputs pid) acc)

abbrev pub is_skipped_status : NodeExecutionStatus → Bool
is_skipped_status NodeExecutionStatus.skipped = true
is_skipped_status s = false

abbrev pub is_skipped : Option NodeExecutionResult → Bool
is_skipped none = false
is_skipped (some result) = is_skipped_status result.status

-- The parent was skipped, or failed under `continue_on_error`.
unfoldable pub is_pruned : Run → String → Bool
is_pruned r pid = mem pid r.soft_failed || is_skipped (lookup pid r.node_results)

-- The children of a node that are neither executed nor queued, behind the queue.
unfoldable pub enqueue : List String → List String → List String → List String
enqueue executed next [] = next
enqueue executed next (c ∷ cs) =
    enqueue executed (if mem c executed || mem c next then next else next ++ c ∷ []) cs

abbrev pub bare_result : String → NodeExecutionStatus → Option Message → NodeExecutionResult
bare_result nid status error = record {
  node_id = nid;
  status = status;
  output_data = null;
  error = error;
  retry_count = pos 0;
  retry_errors = [];
}

abbrev pub set_result : String → NodeExecutionResult → Run → Run
set_result nid result r = record r {
  execution = record (r.execution) { node_results = insert nid result r.node_results };
}

abbrev pub mark_executed : String → Run → Run
mark_executed nid r = record r { executed = add nid r.executed }

-- `variables or {}`: a node shares the run's dict of variables unless that is empty.
abbrev pub kept_variables : Fields → Fields → Fields
kept_variables old new = if nonempty old then new else old

abbrev pub is_completed : NodeExecutionStatus → Bool
is_completed NodeExecutionStatus.completed = true
is_completed s = false

-- `{result.error}` in a text, and `result.error or "Unknown error"`.
abbrev pub shown : Option Message → Message
shown none = Message.text "None"
shown (some m) = m

abbrev pub or_unknown : Option Message → Message
or_unknown none = Message.text "Unknown error"
or_unknown (some (Message.text s)) = Message.text (if s == "" then "Unknown error" else s)
or_unknown (some m) = m

-- `node_def.label or nid`.
abbrev label_or_id : String → NodeDefinition → String
label_or_id nid n = if n.label == "" then nid else n.label

module _ (env : Env) (wf : WorkflowDefinition) (trigger : Fields) where
  unfoldable pub skip_node : String → Run → List String → Flow
  skip_node nid r next =
      let r' =
        mark_executed nid (set_result nid (bare_result nid NodeExecutionStatus.skipped none) r) in
      go r' (enqueue r'.executed next (children wf.edges nid))

  unfoldable pub pause_with : String → Created → Run → Flow
  pause_with nid (refused m) r = threw r m
  pause_with nid (created approval) r = returned (
      save (
        publish (
          emit (asked_approval nid)
            (record r { execution = record (r.execution) { approval_id = some approval } }))))

  -- The node's result waits for approval: the run pauses at it.
  unfoldable pub pause_at : String → Value → Run → Flow
  pause_at nid output r = pause_with nid (env.create_approval nid output) (record r {
    execution = record (r.execution) { status = ExecutionStatus.paused; paused_at_node = some nid };
  })

  -- Every `checkpoint_interval` the variables and results so far are saved.
  unfoldable pub checkpoint : Run → Run
  checkpoint r =
      if leb (r.last_checkpoint + env.checkpoint_interval) (env.clock r.reads)
      then (let r1 =
            save (record r { execution = record (r.execution) { variables = r.run_variables } }) in
          record r1 { last_checkpoint = env.clock (r.reads + 1); reads = r.reads + 2 })
      else record r { reads = r.reads + 1 }

  abbrev go_on : String → Run → List String → Flow
  go_on nid r next = go (checkpoint r) (enqueue r.executed next (children wf.edges nid))

  -- The variables that a node emits are merged, and its status may ask for approval.
  unfoldable pub take_meta : String → Fields → Value → Run → List String → Flow
  take_meta nid d (obj meta) r next =
      let r1 = record r {
        run_variables = update r.run_variables (obj_or_empty (get "variables" meta));
      } in
      if is_str (get_default "status" null meta) "waiting_approval"
      then pause_at nid (obj d) r1
      else go_on nid r1 next
  take_meta nid d meta r next = threw r Message.no_attribute_get

  unfoldable pub take_output : String → Value → Run → List String → Flow
  take_output nid (obj d) r next = take_meta nid d (get_default "meta" (obj end) d) r next
  take_output nid output r next = go_on nid r next

  -- A node failed under `continue_on_error`: its branch is pruned and the run goes on.
  unfoldable pub soft_fail : String → Run → List String → Flow
  soft_fail nid r next =
      let r1 = record r { executed = add nid r.executed; soft_failed = add nid r.soft_failed } in
      go r1 (enqueue r1.executed next (children wf.edges nid))

  -- A node failed: the run stops.
  unfoldable pub fail_run : String → NodeDefinition → NodeExecutionResult → Run → Flow
  fail_run nid n result r =
      let m = Message.node_failed nid n.label (shown result.error) in
      let r1 = stamp env (set_error m (set_status ExecutionStatus.failed r)) in
      returned (emit (notified (label_or_id nid n) (or_unknown result.error)) (save (publish r1)))

  -- What the executor does with the result of a node.
  unfoldable pub settle : String → NodeDefinition → NodeExecutionResult → Run → List String → Flow
  settle nid n result r next =
      let r1 = set_result nid result r in
      if is_completed result.status
      then take_output nid result.output_data
          (record (mark_executed nid r1) {
            node_outputs = insert nid result.output_data r1.node_outputs;
          })
          next
      else if holds (get "continue_on_error" n.config)
      then soft_fail nid r1 next
      else fail_run nid n result r1

  abbrev is_agent : NodeType → Bool
  is_agent NodeType.ai_agent = true
  is_agent t = false

  abbrev context_of : String → NodeDefinition → Value → Run → NodeContext
  context_of nid n input r = record {
    node_id = nid;
    config = n.config;
    input_data = input;
    variables = r.run_variables;
    workflow_context = if is_agent n.kind then env.workflow_context nid r.node_outputs else none;
  }

  abbrev with_variables : Fields → Run → Run
  with_variables vars r = record r { run_variables = kept_variables r.run_variables vars }

  -- The node's `run` has ended.
  unfoldable pub end_run : String → NodeDefinition → NodeRun → Run → List String → Flow
  end_run nid n (raised vars m) r next = threw (with_variables vars r) m
  end_run nid n (timed_out vars) r next =
      settle nid n (bare_result nid NodeExecutionStatus.failed (some Message.node_timed_out))
        (with_variables vars r) next
  end_run nid n (finished vars result) r next = settle nid n result (with_variables vars r) next

  -- A node of no registered type fails, and the run goes on without its children.
  unfoldable pub fail_unknown : String → NodeDefinition → Run → List String → Flow
  fail_unknown nid n r next =
      go
        (mark_executed nid (
          set_result nid
            (bare_result nid NodeExecutionStatus.failed (some (Message.unknown_type n.kind))) r))
        next

  -- The registry, the step limit, and the run of the node.
  unfoldable pub run_node : String → NodeDefinition → Value → Run → List String → Flow
  run_node nid n input r next =
      let r1 = record r { steps_executed = r.steps_executed + 1 } in
      if not (env.registered n.kind)
      then fail_unknown nid n r next
      else if ltb env.max_node_steps r1.steps_executed
      then threw r1 (Message.step_limit env.max_node_steps)
      else end_run nid n (env.run_node (context_of nid n input r)) (emit (ran nid) r1) next

  -- The decision to skip a node, and its input.
  unfoldable pub decide_skip : String → Run → Bool × Value
  decide_skip nid r =
      let pids = parents wf.edges nid in
      let (skip, input) =
        route_all wf r.node_outputs nid pids (false, gather_input trigger r.node_outputs pids) in
      (skip || (not (is_empty pids) && all (is_pruned r) pids), input)

  unfoldable pub visit_node : String → Option NodeDefinition → Run → List String → Flow
  visit_node nid none r next = threw r (Message.missing_key nid)
  visit_node nid (some n) r next =
      let r1 =
        publish (record r { execution = record (r.execution) { current_node = some nid } }) in
      let (skip, input) = decide_skip nid r1 in
      if skip then skip_node nid r1 next else run_node nid n input r1 next

  -- One node of a batch.
  unfoldable pub visit : String → Run → List String → Flow
  visit nid r next =
      if is_cancel_requested env nid
      then returned (mark_cancelled env r)
      else visit_node nid (lookup nid (node_map wf)) r next

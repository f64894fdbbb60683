-- ===== src/Tests/Executor.antt =====
-- citra_workflow/executor.py on small workflows.
use citra_flows.Common.{
  ◌≤◌, String, ◌≡◌, refl, true, false, Option, none, some, List, [], ◌∷◌, length, ◌==◌,
  if◌then◌else◌,
}
use mathlib.Core.Option
use citra_flows.Common.Dict.{lookup, insert}
use citra_flows.Value.{
  pos, strip, lower, Value, Fields, null, obj, str, bool, end, field, get, get_default, put, update,
  truthy,
}
use citra_flows.Models.{
  ExecutionStatus, NodeExecutionStatus, NodeDefinition, EdgeDefinition, WorkflowDefinition,
  NodeExecutionResult,
}
use citra_flows.Models.NodeType.{NodeType, name, to_str}
use citra_flows.Executor.Branch.{
  branch_of_token, normalize_branch_token, edge_condition_branch, edge_route, parse_int,
}
use citra_flows.Executor.Graph.{
  children, parents, edges_between, insert_nodes, node_map, root_ids, is_trigger, is_orphan,
  orphaned_nodes, root_nodes,
}
use citra_flows.Executor.State.{
  NodeContext, NodeRun, Env, Run, runs, finished, created, is_cancel_requested, mark_cancelled,
  is_terminal, sweep_blobs_if_terminal,
}
use citra_flows.Executor.Visit.{
  output_of, gather_input, off_branch, off_route, route_from, route_all, is_pruned, enqueue,
  skip_node, pause_with, pause_at, checkpoint, take_meta, take_output, soft_fail, fail_run, settle,
  end_run, fail_unknown, run_node, decide_skip, visit_node, visit,
}
use citra_flows.Executor.Loop.{is_ready, place, collect, visit_batch, round_with, rounds}
use citra_flows.Executor.Loop.Order.{Topological}
use citra_flows.Executor.Start.{
  new_execution, skip_orphans, start_run, complete, crash, conclude, execute_from, execute_inner,
}
use citra_flows.Executor.Start.Outcome.{
  IsClosed, IsAccounted, execute_inner-IsClosed, execute_inner-IsAccounted,
}
use citra_flows.Executor.Start.Guarantees.{execute_inner-Final, execute_inner-total}

unfoldable pub program : Unit {0}
unfolding strip lower lookup insert get get_default put update truthy branch_of_token
    normalize_branch_token edge_condition_branch edge_route parse_int children parents edges_between
    insert_nodes node_map root_ids is_trigger is_orphan orphaned_nodes root_nodes name to_str
    is_cancel_requested mark_cancelled is_terminal sweep_blobs_if_terminal output_of gather_input
    off_branch off_route route_from route_all is_pruned enqueue skip_node pause_with pause_at
    checkpoint take_meta take_output soft_fail fail_run settle end_run fail_unknown run_node
    decide_skip visit_node visit is_ready place collect visit_batch round_with rounds new_execution
    skip_orphans start_run complete crash conclude execute_from execute_inner
program = tt

abbrev pub node : String → NodeType → NodeDefinition
node id kind = record { id = id; kind = kind; label = id; config = end }

abbrev pub edge : String → String → EdgeDefinition
edge s t = record { source = s; target = t; source_handle = none; label = none }

abbrev pub edge_on : String → String → String → EdgeDefinition
edge_on s t h = record { source = s; target = t; source_handle = some h; label = none }

-- A trigger, a condition with two branches, and a merge of both.
abbrev pub diamond : WorkflowDefinition
diamond = record {
  nodes =
      node "t" NodeType.manual_trigger
      ∷ node "c" NodeType.condition
      ∷ node "yes" NodeType.code_block
      ∷ node "no" NodeType.code_block
      ∷ node "m" NodeType.merge_wait
      ∷ [];
  edges =
      edge "t" "c"
      ∷ edge_on "c" "yes" "Met "
      ∷ edge_on "c" "no" "not met"
      ∷ edge "yes" "m"
      ∷ edge "no" "m"
      ∷ [];
  variables = end;
  max_run_llm_calls = none;
}

abbrev pub completed_with : String → Value → NodeExecutionResult
completed_with id v = record {
  node_id = id;
  status = NodeExecutionStatus.completed;
  output_data = v;
  error = none;
  retry_count = pos 0;
  retry_errors = [];
}

abbrev meta : Fields → Value
meta d = obj (field "meta" (obj d) end)

-- The condition is met; every other node gives an empty envelope.
abbrev pub outcome : NodeContext → NodeRun
outcome ctx = finished ctx.variables (
    completed_with ctx.node_id (
      if ctx.node_id == "c"
      then meta (field "condition_result" (bool true) (field "branch" (str "true") end))
      else meta end))

abbrev pub healthy : Env
healthy = record {
  cancel_flag = λ nid. some null;
  registered = λ t. true;
  run_node = outcome;
  workflow_context = λ nid outputs. none;
  create_approval = λ nid v. created "approval";
  clock = λ n. n;
  max_node_steps = 500;
  checkpoint_interval = 5;
}

abbrev pub in_order : List String → List String
in_order roots = roots

-- The merge runs, and the branch that is not taken does not.
diamond-runs :
    Option.map (λ r. runs r.trace) (execute_inner healthy diamond in_order none)
    ≡ some ("m" ∷ "yes" ∷ "c" ∷ "t" ∷ [])
unfolding program
diamond-runs = refl

-- The execution that a run of the diamond ends with.
abbrev run_or : Option Run → Run
run_or none = start_run healthy diamond none (new_execution none)
run_or (some r) = r

abbrev pub diamond_run : Run
diamond_run = run_or (execute_inner healthy diamond in_order none)

diamond_run_is : execute_inner healthy diamond in_order none ≡ some diamond_run
unfolding program
diamond_run_is = refl

diamond_run_completed : diamond_run.status ≡ ExecutionStatus.completed
unfolding program
diamond_run_completed = refl

execute_inner-Final_example :
    Topological diamond.edges (runs diamond_run.trace) × (length (runs diamond_run.trace) ≤ 500)
execute_inner-Final_example =
    execute_inner-Final healthy diamond none in_order diamond_run diamond_run_is

execute_inner-total_example : (r : Run) × (execute_inner healthy diamond in_order none ≡ some r)
execute_inner-total_example = execute_inner-total healthy diamond none in_order

execute_inner-IsClosed_example : IsClosed diamond_run
execute_inner-IsClosed_example =
    execute_inner-IsClosed healthy diamond none in_order diamond_run diamond_run_is

execute_inner-IsAccounted_example : IsAccounted diamond diamond_run
execute_inner-IsAccounted_example =
    execute_inner-IsAccounted healthy diamond none in_order diamond_run diamond_run_is
      diamond_run_completed

-- A workflow that is a single trigger.
abbrev lone_trigger : WorkflowDefinition
lone_trigger = record {
  nodes = node "t" NodeType.manual_trigger ∷ [];
  edges = [];
  variables = end;
  max_run_llm_calls = none;
}

-- A run that is cut off at its start.
abbrev cut_off : Run
cut_off = start_run healthy diamond none (new_execution none)

cut_off_runs : is_terminal cut_off.status ≡ false
unfolding program
cut_off_runs = refl

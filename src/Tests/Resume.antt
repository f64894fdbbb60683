-- ===== src/Tests/Resume.antt =====
-- citra_workflow/executor.py: a run that pauses for an approval, and its resumption.
use citra_flows.Common.{
  All, ◌≤◌, String, ◌≡◌, ◌≢◌, refl, true, false, none, some, [], ◌∷◌, mem, length, ◌==◌,
}
use citra_flows.Value.{obj, end}
use citra_flows.Models.{ExecutionStatus, WorkflowDefinition, WorkflowExecution}
use citra_flows.Models.NodeType.{NodeType}
use citra_flows.Executor.State.{Run, runs}
use citra_flows.Executor.Loop.Order.{Topological}
use citra_flows.Executor.Resume.{
  Resumed, resumed, not_paused, exhausted, resume, restored, resumed_start, resumed_visit,
  resumed_node, resumed_routed, resumed_run, resumed_end, resumed_settle, resumed_output,
  resumed_meta, resumed_pause, resumed_route_all, resumed_route, resumed_route_meta, seed,
  restored_outputs, reject,
}
use citra_flows.Executor.Resume.Reach.{Below}
use citra_flows.Executor.Resume.Reach.Approved.{resume-Below}
use citra_flows.Executor.Resume.Fresh.{resume-Final, resume-total}
use citra_flows.Tests.Executor.{healthy, node, edge, completed_with, program}

-- A trigger, a node that waits for an approval and a node beside it, each with one child.
abbrev two_branches : WorkflowDefinition
two_branches = record {
  nodes =
      node "t" NodeType.manual_trigger
      ∷ node "ask" NodeType.human_approval
      ∷ node "side" NodeType.code_block
      ∷ node "send" NodeType.code_block
      ∷ [];
  edges = edge "t" "ask" ∷ edge "t" "side" ∷ edge "ask" "send" ∷ [];
  variables = end;
  max_run_llm_calls = none;
}

-- Paused at "ask", before "side" was run.
abbrev paused : WorkflowExecution
paused = record {
  status = ExecutionStatus.paused;
  trigger_data = end;
  current_node = some "ask";
  paused_at_node = some "ask";
  approval_id = some "approval";
  node_results = ("t", completed_with "t" (obj end)) ∷ ("ask", completed_with "ask" (obj end)) ∷ [];
  variables = end;
  error = none;
  completed_at = none;
}

resumption : Unit {0}
unfolding program resume restored resumed_start resumed_visit resumed_node resumed_routed
    resumed_run resumed_end resumed_settle resumed_output resumed_meta resumed_pause
    resumed_route_all resumed_route resumed_route_meta seed restored_outputs reject
resumption = tt

abbrev run_of : Resumed → Run
run_of (resumed r) = r
run_of not_paused = resumed_start two_branches paused
run_of exhausted = resumed_start two_branches paused

abbrev resumed_two : Run
resumed_two = run_of (resume healthy two_branches paused true)

resumed_two_is : resume healthy two_branches paused true ≡ resumed resumed_two
unfolding resumption
resumed_two_is = refl

-- The run is COMPLETED, and the node beside the paused one has never run.
resumed_two-drops :
    (runs resumed_two.trace ≡ "send" ∷ []) × (resumed_two.status ≡ ExecutionStatus.completed)
unfolding resumption
resumed_two-drops = (refl, refl)

resume-Final_example :
    ((n : String)
      → mem n (runs resumed_two.trace) ≡ true
      → mem n (restored paused.node_results) ≡ false)
    × Topological two_branches.edges (runs resumed_two.trace)
    × (length (runs resumed_two.trace) ≤ 500)
resume-Final_example = resume-Final healthy two_branches paused true resumed_two resumed_two_is

resume-total_example : resume healthy two_branches paused true ≢ exhausted
resume-total_example = resume-total healthy two_branches paused true

ask_named : ("ask" == "") ≡ false
ask_named = refl

resume-Below_example : All (Below two_branches.edges "ask") (runs resumed_two.trace)
resume-Below_example =
    resume-Below healthy two_branches paused "ask" true resumed_two refl ask_named resumed_two_is

-- ===== src/Executor/Start/Orphans.antt =====
-- The orphan guard and the trigger types.
use citra_flows.Common.{
  String, ◌≡◌, refl, ap, Bool, true, false, not, ◌||◌, ◌&&◌, Option, some, none, List, [], ◌∷◌, mem,
  select,
}
use citra_flows.Common.Dict.{lookup}
use citra_flows.Value.{Fields}
use citra_flows.Models.{ExecutionStatus, WorkflowDefinition, NodeDefinition, Message}
use citra_flows.Models.NodeType.{NodeType, name, to_str}
use citra_flows.Executor.Graph.{
  is_trigger, is_orphan, root_ids, root_nodes, node_map, lacks_trigger, sources, targets,
  trigger_types,
}
use citra_flows.Executor.State.{Env, Run, sweep_blobs_if_terminal, is_terminal}
use citra_flows.Executor.Visit.{threw}
use citra_flows.Executor.Start.Guarantees.{first_run}
use citra_flows.Executor.Start.{execute_inner, execute_from, conclude, crash}

to_str-no_trigger : (t : NodeType) → mem (to_str t) trigger_types ≡ false
unfolding to_str name
to_str-no_trigger NodeType.manual_trigger = refl
to_str-no_trigger _ = refl

-- The guard exempts no node from being an orphan, whatever its type: `str` of a type is the
-- member's name, and never one of the trigger values.
is_trigger-false : (n : NodeDefinition) → is_trigger n ≡ false
unfolding is_trigger
is_trigger-false n = to_str-no_trigger n.kind

lacks_trigger-true : (o : Option NodeDefinition) → lacks_trigger o ≡ true
lacks_trigger-true none = refl
lacks_trigger-true (some n) = rw is_trigger-false

is_orphan_of_no_edges :
    (wf : WorkflowDefinition) → wf.edges ≡ [] → (nid : String) → is_orphan wf nid ≡ true
unfolding is_orphan
is_orphan_of_no_edges wf e nid =
    rw (lacks_trigger-true (lookup nid (node_map wf)))
      (ap (λ es. not (mem nid (sources es) || mem nid (targets es)) && true) e)

select_none :
    (p : String → Bool) (xs : List String)
    → ((x : String) → p x ≡ true)
    → select (λ x. not (p x)) xs ≡ []
select_none p [] h = refl
select_none p (x ∷ xs) h = rw (h x, select) (select_none p xs h)

root_nodes_of_no_edges : (wf : WorkflowDefinition) → wf.edges ≡ [] → root_nodes wf ≡ []
unfolding root_nodes
root_nodes_of_no_edges wf e = select_none (is_orphan wf) (root_ids wf) (is_orphan_of_no_edges wf e)

-- A workflow without edges never runs, even if it is a single trigger: its run is FAILED, with the
-- error that the workflow has no root node.
pub execute_inner-no_edges :
    (env : Env) (wf : WorkflowDefinition) (order : List String → List String)
    (trigger : Option Fields)
    → wf.edges ≡ []
    → (r : Run) × (execute_inner env wf order trigger ≡ some r)
      × (r.status ≡ ExecutionStatus.failed)
      × (r.error ≡ some Message.no_root)
unfolding execute_inner
execute_inner-no_edges env wf order trigger e = (
  conclude env (threw (first_run env wf trigger) Message.no_root),
  rw (root_nodes_of_no_edges wf e) (unfold execute_from in refl),
  unfold conclude crash sweep_blobs_if_terminal is_terminal in refl,
  unfold conclude crash sweep_blobs_if_terminal is_terminal in refl,
)

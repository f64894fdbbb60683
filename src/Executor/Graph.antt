-- ===== src/Executor/Graph.antt =====
-- citra_workflow/executor.py: the graph of a run, its root nodes and the orphan guard.
pub mod Sizes
use citra_flows.Common.{
  String, Bool, true, not, ◌&&◌, ◌||◌, Option, none, some, List, [], ◌∷◌, ◌==◌, mem, select,
  if◌then◌else◌,
}
use citra_flows.Common.Dict.{lookup, insert, keys}
use citra_flows.Models.{WorkflowDefinition, NodeDefinition, EdgeDefinition}
use citra_flows.Models.NodeType.{to_str}

-- `adjacency.get(nid, [])`: the targets of the edges from `nid`, in the order of the edges.
unfoldable pub children : List EdgeDefinition → String → List String
children [] nid = []
children (e ∷ es) nid =
    let rest = children es nid in if e.source == nid then e.target ∷ rest else rest

-- `incoming.get(nid, [])`.
unfoldable pub parents : List EdgeDefinition → String → List String
parents [] nid = []
parents (e ∷ es) nid =
    let rest = parents es nid in if e.target == nid then e.source ∷ rest else rest

-- The edges from `pid` to `nid`.
unfoldable pub edges_between : List EdgeDefinition → String → String → List EdgeDefinition
edges_between es pid nid = select (λ e. e.source == pid && e.target == nid) es

unfoldable pub insert_nodes :
    List (String × NodeDefinition) → List NodeDefinition → List (String × NodeDefinition)
insert_nodes m [] = m
insert_nodes m (n ∷ ns) = insert_nodes (insert n.id n m) ns

-- `{n.id: n for n in workflow.nodes}`: a later node replaces an earlier one of the same id.
unfoldable pub node_map : WorkflowDefinition → List (String × NodeDefinition)
node_map wf = insert_nodes [] wf.nodes

abbrev pub sources : List EdgeDefinition → List String
sources [] = []
sources (e ∷ es) = e.source ∷ sources es

abbrev pub targets : List EdgeDefinition → List String
targets [] = []
targets (e ∷ es) = e.target ∷ targets es

abbrev pub trigger_types : List String
trigger_types = "manual_trigger" ∷ "scheduled_trigger" ∷ "webhook_trigger" ∷ "start_node" ∷ []

-- The nodes that no edge enters.
unfoldable pub root_ids : WorkflowDefinition → List String
root_ids wf = select (λ nid. not (mem nid (targets wf.edges))) (keys (node_map wf))

-- The test of the orphan guard on a node's type.
unfoldable pub is_trigger : NodeDefinition → Bool
is_trigger n = mem (to_str n.kind) trigger_types

abbrev pub lacks_trigger : Option NodeDefinition → Bool
lacks_trigger none = true
lacks_trigger (some n) = not (is_trigger n)

unfoldable pub is_orphan : WorkflowDefinition → String → Bool
is_orphan wf nid =
    not (mem nid (sources wf.edges) || mem nid (targets wf.edges))
    && lacks_trigger (lookup nid (node_map wf))

unfoldable pub orphaned_nodes : WorkflowDefinition → List String
orphaned_nodes wf = select (is_orphan wf) (root_ids wf)

unfoldable pub root_nodes : WorkflowDefinition → List String
root_nodes wf = select (λ nid. not (is_orphan wf nid)) (root_ids wf)

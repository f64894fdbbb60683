-- ===== src/Executor/Graph/Sizes.antt =====
-- The map of the nodes has at most as many entries as the workflow has nodes.
use citra_flows.Common.{◌+◌, ◌≤◌, String, List, [], ◌∷◌, arith, length}
use citra_flows.Common.Dict.{insert, keys, keys-insert-le, length-keys}
use citra_flows.Models.{WorkflowDefinition, NodeDefinition}
use citra_flows.Executor.Graph.{insert_nodes, node_map}

insert_nodes-le :
    (m : List (String × NodeDefinition)) (ns : List NodeDefinition)
    → length (insert_nodes m ns) ≤ length m + length ns
unfolding insert_nodes
insert_nodes-le m [] = omega arith
insert_nodes-le m (n ∷ ns) =
    omega (arith, insert_nodes-le (insert n.id n m) ns, keys-insert-le n.id n m)

pub node_map-le : (wf : WorkflowDefinition) → length (keys (node_map wf)) ≤ length wf.nodes
unfolding node_map
node_map-le wf = omega (arith, insert_nodes-le [] wf.nodes, length-keys (insert_nodes [] wf.nodes))

-- ===== src/Tests/Logic.antt =====
-- The nodes that steer a workflow, at sample inputs.
use citra_flows.Common.{◌≡◌, refl, String, false, none, some, List, [], ◌∷◌, map}
use citra_flows.Value.{
  Value, Fields, str, arr, obj, nil, cons, end, field, items_of, get, get_default,
}
use citra_flows.Models.{WorkflowDefinition}
use citra_flows.Models.NodeType.{NodeType}
use citra_flows.Executor.Branch.{
  parse_signed, remove_out_dash, parse_digits, true_branch, false_branch,
}
use citra_flows.Executor.State.{NodeContext}
use citra_flows.Tests.Executor.{program}
use citra_flows.Logic.{text_of, Python, split_dots}
use citra_flows.Logic.Condition as Condition
use citra_flows.Logic.Condition.Branches.{Takes, Leads, execute-Takes}
use citra_flows.Logic.Switch as Switch
use citra_flows.Logic.Switch.Routes.{Routed, Leaves, execute-Routed}
use citra_flows.Logic.Switch.Choice.{choose}
use citra_flows.Logic.Merge.Gathered.{Envelope}

abbrev pub python : Python
python = record {
  repr = λ v. "?";
  above = λ a b. some false;
  int_of = λ v. none;
  iterate = λ v. none;
  loads = λ s. none;
}

abbrev score : Fields
score = field "score" (str "7") end

-- One item with a score.
abbrev envelope : Fields
envelope = field "items" (arr (cons (obj score) nil)) (field "meta" (obj end) end)

-- A steering node, one target on its first output or "true" branch, one on the other.
abbrev fork : WorkflowDefinition
fork = record {
  nodes = record { id = "c"; kind = NodeType.condition; label = "c"; config = end } ∷ [];
  edges =
      record { source = "c"; target = "a"; source_handle = some "out-0"; label = some "Yes" }
      ∷ record { source = "c"; target = "b"; source_handle = some "out-1"; label = some "No" }
      ∷ [];
  variables = end;
  max_run_llm_calls = none;
}

abbrev asks_score : NodeContext
asks_score = record {
  node_id = "c";
  config = field "field" (str "score") (field "operator" (str "==") (field "value" (str "7") end));
  input_data = obj envelope;
  variables = end;
  workflow_context = none;
}

to_a : Leads fork "c" true_branch "a"
unfolding program
to_a = record { first = _; others = []; between = refl; on = (refl, tt) }

to_b : Leads fork "c" false_branch "b"
unfolding program
to_b = record { first = _; others = []; between = refl; on = (refl, tt) }

execute-Takes_example :
    Takes 10 asks_score fork "c" "a" "b" (Condition.execute python 10 asks_score)
unfolding program
execute-Takes_example = execute-Takes 10 asks_score fork "c" "a" "b" refl to_a to_b python

abbrev three : List String
three = "x" ∷ "y" ∷ "z" ∷ []

abbrev two_routes : List Fields
two_routes =
    field "label" (str "Low") (field "value" (str "1") end)
    ∷ field "label" (str "High") (field "value" (str "7") end)
    ∷ []

abbrev switches_score : NodeContext
switches_score = record {
  node_id = "c";
  config = field "field" (str "score") (field "routes" (arr (items_of (map obj two_routes))) end);
  input_data = obj envelope;
  variables = end;
  workflow_context = none;
}

execute-Routed_example :
    let text = Switch.field_value python (Switch.resolve (obj envelope) end (split_dots "score")) in
    Routed switches_score fork "c"
      (map obj two_routes)
      (choose (map (Switch.kind_of python text) two_routes))
      text
      (Switch.execute python switches_score)
unfolding program
execute-Routed_example =
    execute-Routed switches_score fork "c" refl python "score" two_routes refl refl

-- The second route has the value.
second_route : Switch.search python "7" (map obj two_routes) 0 none ≡ Switch.found (some 1)
unfolding Switch.search Switch.kind_of text_of get get_default
second_route = refl

-- Its target is the node behind "out-1".
behind_out_1 : Leaves fork "c" 1 "b"
unfolding program parse_signed remove_out_dash parse_digits
behind_out_1 = record { first = _; others = []; between = refl; by = (refl, tt) }

abbrev two_parents : List (String × Value)
two_parents = ("p", obj envelope) ∷ ("q", obj envelope) ∷ []

abbrev one_score : Envelope
one_score = record { items = obj score ∷ []; meta = end }

abbrev merges : NodeContext
merges = record {
  node_id = "m";
  config = end;
  input_data = arr (cons (obj envelope) (cons (obj envelope) nil));
  variables = end;
  workflow_context = none;
}

-- ===== src/Logic/Merge.antt =====
-- `MergeWaitNode`, `ParallelSplitNode`, `HumanApprovalNode` and `DelayNode` of
-- citra_workflow/nodes/logic.py. The pause of a delay is the number of seconds that it gives.
pub mod Gathered
use citra_flows.Common.{
  ℕ, zero, suc, ◌≡◌, refl, ap, sym, ◌∙◌, String, Bool, true, false, Option, none, some, List, [],
  ◌∷◌, ◌++◌, map, length, concat, leb, if◌then◌else◌,
}
use citra_flows.Common.Dict.{lookup}
use citra_flows.Value.{
  ℤ, pos, negsuc, Value, Items, Fields, null, bool, int, str, arr, obj, other, nil, cons, end,
  field, get, get_default, items_of,
}
use citra_flows.Executor.State.{NodeContext}
use citra_flows.Executor.Visit.{output_of, gather_input}
use citra_flows.Logic.{
  Outcome, done, raised, wrong_type, Python, int_value, list_of, ctx_items, make_output,
}

-- What a branch adds to the merged items.
unfoldable pub items_or_self : Fields → Option Value → List Value
items_or_self d (some (arr vs)) = list_of vs
items_or_self d v = obj d ∷ []

unfoldable pub branch_items : Value → List Value
branch_items (obj d) = items_or_self d (get "items" d)
branch_items (arr vs) = list_of vs
branch_items v = v ∷ []

abbrev pub merge_output : List Value → ℕ → Value
merge_output items branch_count =
    make_output (items_of items) (field "branch_count" (int (pos branch_count)) end)

unfoldable pub merge_input : Value → Value
merge_input (arr vs) = merge_output (concat (map branch_items (list_of vs))) (length (list_of vs))
merge_input v = merge_output (list_of (ctx_items v)) 1

unfoldable pub execute : NodeContext → Value
execute ctx = merge_input ctx.input_data

unfoldable pub parallel_split : NodeContext → Value
parallel_split ctx = make_output (ctx_items ctx.input_data) (field "split" (bool true) end)

unfoldable pub approval_with : NodeContext → Value → Option ℤ → Outcome
approval_with ctx given none = raised (wrong_type given)
approval_with ctx given (some hours) = done (
    make_output (ctx_items ctx.input_data) (
      field "status" (str "waiting_approval") (
        field "message" (get_default "message" (str "Approval required to continue") ctx.config)
          (field "timeout_hours" (int hours) end))))

unfoldable pub human_approval : Python → NodeContext → Outcome
human_approval py ctx =
    let given = get_default "timeout_hours" (int (pos 24)) ctx.config in
    approval_with ctx given (int_value py given)

-- `min(n, 3600)`.
abbrev capped_hour : ℤ → ℤ
capped_hour (pos n) = if leb n 3600 then pos n else pos 3600
capped_hour (negsuc n) = negsuc n

unfoldable pub delay_with : NodeContext → Value → Option ℤ → Outcome
delay_with ctx given none = raised (wrong_type given)
delay_with ctx given (some seconds) = done (
    make_output (ctx_items ctx.input_data)
      (field "delayed_seconds" (int (capped_hour seconds)) end))

unfoldable pub delay : Python → NodeContext → Outcome
delay py ctx =
    let given = get_default "seconds" (int (pos 60)) ctx.config in
    delay_with ctx given (int_value py given)

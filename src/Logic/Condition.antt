-- ===== src/Logic/Condition.antt =====
-- `ConditionNode.execute` of citra_workflow/nodes/logic.py.
pub mod Branches
pub mod Envelope
use citra_flows.Common.{
  ℕ, String, Bool, true, false, not, ◌&&◌, ◌||◌, Option, none, some, List, [], ◌∷◌, length, ltb,
  is_empty, if◌then◌else◌, nat_eq, ◌==◌,
}
use citra_flows.Value.{
  Value, Fields, null, bool, str, arr, obj, nil, end, field, get, get_default, is_null, is_str,
  truthy, nonempty, codes, lower,
}
use citra_flows.Executor.State.{NodeContext}
use citra_flows.Logic.{
  Fault, missing_key, too_deep, wrong_type, overflow, Outcome, done, raised, Python, text_of,
  split_dots, follow, in_variables, in_first_item, ctx_items, make_output,
}

-- The value that the field names: in the input, in the variables, in the first item.
unfoldable pub resolve : Value → Fields → List String → Value
resolve input vars parts =
    in_first_item input (in_variables follow vars (follow input parts) parts) parts

-- `s in t`.
abbrev starts_with : List ℕ → List ℕ → Bool
starts_with [] t = true
starts_with (a ∷ s) [] = false
starts_with (a ∷ s) (b ∷ t) = nat_eq a b && starts_with s t

abbrev pub within : List ℕ → List ℕ → Bool
within s [] = is_empty s
within s (b ∷ t) = starts_with s (b ∷ t) || within s t

-- `data is None or data == "" or data == [] or data == {}`.
unfoldable pub is_blank : Value → Bool
is_blank null = true
is_blank (str s) = s == ""
is_blank (arr nil) = true
is_blank (obj d) = not (nonempty d)
is_blank v = false

-- `data or ""`.
abbrev or_blank : Value → Value
or_blank v = if truthy v then v else str ""

-- `none` where a conversion to float raises an OverflowError, which is not caught.
unfoldable pub evaluate : Python → Value → Value → Value → Option Bool
evaluate py operator found compare =
    if is_str operator "=="
    then some (text_of py found == text_of py compare)
    else if is_str operator "!="
    then some (not (text_of py found == text_of py compare))
    else if is_str operator ">"
    then py.above found compare
    else if is_str operator "<"
    then py.above compare found
    else if is_str operator "contains"
    then some
        (within (lower (codes (text_of py compare))) (lower (codes (text_of py (or_blank found)))))
    else if is_str operator "empty"
    then some (is_blank found)
    else if is_str operator "not_empty"
    then some (not (is_blank found))
    else some false

abbrev pub branch_name : Bool → String
branch_name true = "true"
branch_name false = "false"

-- The output of a condition that came out so.
abbrev pub condition_output : NodeContext → Bool → Value
condition_output ctx result =
    make_output (ctx_items ctx.input_data)
      (field "condition_result" (bool result) (field "branch" (str (branch_name result)) end))

abbrev pub judged : NodeContext → Option Bool → Outcome
judged ctx none = raised overflow
judged ctx (some result) = done (condition_output ctx result)

unfoldable pub check_path : Python → ℕ → NodeContext → Value → List String → Outcome
check_path py max_depth ctx operator parts =
    if ltb max_depth (length parts)
    then raised (too_deep (length parts))
    else judged ctx (
        evaluate py operator (resolve ctx.input_data ctx.variables parts)
          (get_default "value" (str "") ctx.config))

unfoldable pub with_operator : Python → ℕ → NodeContext → Value → Option Value → Outcome
with_operator py max_depth ctx path none = raised (missing_key "operator")
with_operator py max_depth ctx (str path) (some operator) =
    check_path py max_depth ctx operator (split_dots path)
with_operator py max_depth ctx path (some operator) = raised (wrong_type path)

unfoldable pub with_field : Python → ℕ → NodeContext → Option Value → Outcome
with_field py max_depth ctx none = raised (missing_key "field")
with_field py max_depth ctx (some path) =
    with_operator py max_depth ctx path (get "operator" ctx.config)

-- `max_depth` is `MAX_FIELD_DEPTH`.
unfoldable pub execute : Python → ℕ → NodeContext → Outcome
execute py max_depth ctx = with_field py max_depth ctx (get "field" ctx.config)

-- ===== src/Logic/Switch.antt =====
-- `SwitchRouterNode.execute` of citra_workflow/nodes/logic.py.
pub mod Choice
pub mod Routes
use citra_flows.Common.{
  ℕ, zero, suc, String, Bool, true, false, Option, none, some, List, [], ◌∷◌, if◌then◌else◌, ◌==◌,
}
use citra_flows.Value.{
  ℤ, pos, Value, Items, Fields, null, bool, int, str, arr, obj, other, nil, cons, end, field, get,
  get_default, is_null, is_str,
}
use citra_flows.Executor.State.{NodeContext}
use citra_flows.Logic.{
  Fault, missing_key, wrong_type, Outcome, done, raised, Python, text_of, split_dots, list_of,
  follow, in_variables, in_first_item, ctx_items, make_output,
}

-- The rest of a path in a variable: through dicts alone.
unfoldable pub follow_dicts : Value → List String → Value
follow_dicts v [] = v
follow_dicts (obj d) (part ∷ parts) = follow_dicts (get_default part null d) parts
follow_dicts v (part ∷ parts) = null

unfoldable pub resolve : Value → Fields → List String → Value
resolve input vars parts =
    in_first_item input (in_variables follow_dicts vars (follow input parts) parts) parts

-- `str(data) if data is not None else ""`.
unfoldable pub field_value : Python → Value → String
field_value py v = if is_null v then "" else text_of py v

-- What the loop makes of a route.
pub data RouteKind : Type 0 where
  default matching unrelated : RouteKind

unfoldable pub kind_of : Python → String → Fields → RouteKind
kind_of py text route =
    if is_str (get_default "value" null route) "__default__"
    then default
    else if text_of py (get_default "value" (str "") route) == text
    then matching
    else unrelated

pub data Search : Type 0 where
  found : Option ℕ → Search
  failed : Fault → Search

-- The loop over the routes, `index` routes on. A route that is no dict raises.
unfoldable pub search : Python → String → List Value → ℕ → Option ℕ → Search
search py text [] index default_index = found default_index
search py text (obj route ∷ routes) index default_index = elim (kind_of py text route) [
  | default ↦ search py text routes (suc index) (some index)
  | matching ↦ found (some index)
  | unrelated ↦ search py text routes (suc index) default_index
]
search py text (route ∷ routes) index default_index = failed (wrong_type route)

-- `routes[i]`.
unfoldable pub route_at : ℕ → List Value → Option Value
route_at i [] = none
route_at zero (v ∷ vs) = some v
route_at (suc i) (v ∷ vs) = route_at i vs

unfoldable pub label_in : Option Value → Option Value
label_in (some (obj route)) = get "label" route
label_in v = none

abbrev pub index_value : Option ℕ → Value
index_value none = null
index_value (some i) = int (pos i)

abbrev pub switch_output : NodeContext → Option ℕ → Value → String → Value
switch_output ctx matched label text = make_output (ctx_items ctx.input_data) (
    field "switch_result" (bool true) (
      field "matched_route" (index_value matched)
        (field "matched_label" label (field "field_value" (str text) end))))

unfoldable pub labelled : NodeContext → ℕ → String → Option Value → Outcome
labelled ctx i text none = raised (missing_key "label")
labelled ctx i text (some label) = done (switch_output ctx (some i) label text)

unfoldable pub conclude : NodeContext → List Value → String → Search → Outcome
conclude ctx routes text (failed f) = raised f
conclude ctx routes text (found none) = done (switch_output ctx none (str "none") text)
conclude ctx routes text (found (some i)) = labelled ctx i text (label_in (route_at i routes))

unfoldable pub with_routes :
    Python → NodeContext → List String → Value → Option (List Value) → Outcome
with_routes py ctx parts given none = raised (wrong_type given)
with_routes py ctx parts given (some routes) =
    let text = field_value py (resolve ctx.input_data ctx.variables parts) in
    conclude ctx routes text (search py text routes 0 none)

-- The routes, in a list or in whatever else can be iterated.
unfoldable pub routes_of : Python → Value → Option (List Value)
routes_of py (arr vs) = some (list_of vs)
routes_of py v = py.iterate v

-- `json.loads(routes)` of a text.
unfoldable pub loaded : Python → Value → Option Value
loaded py (str s) = py.loads s
loaded py v = some v

unfoldable pub with_loaded : Python → NodeContext → Value → Value → Option Value → Outcome
with_loaded py ctx path given none = raised (wrong_type given)
with_loaded py ctx (str path) given (some v) =
    with_routes py ctx (split_dots path) v (routes_of py v)
with_loaded py ctx path given (some v) = raised (wrong_type path)

unfoldable pub execute : Python → NodeContext → Outcome
execute py ctx =
    let given = get_default "routes" (arr nil) ctx.config in
    with_loaded py ctx (get_default "field" (str "") ctx.config) given (loaded py given)

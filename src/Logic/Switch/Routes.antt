-- ===== src/Logic/Switch/Routes.antt =====
-- Which route a switch matches, and which targets the executor then skips.
use citra_flows.Common.{
  ℕ, ◌≡◌, refl, sym, ap, subst, ◌∙◌, String, Bool, true, false, not, ◌||◌, Option, none, some, List,
  [], ◌∷◌, All, map, any, nat_eq, Bool-cases, inl, inr,
}
use citra_flows.Common.Dict.{lookup}
use citra_flows.Value.{
  Value, Fields, obj, arr, str, nil, int, pos, get, get_default, is_int, items_of, truthy,
}
use citra_flows.Value.Laws.{get_default-some}
use citra_flows.Models.{EdgeDefinition, WorkflowDefinition}
use citra_flows.Executor.Branch.{edge_route}
use citra_flows.Executor.Graph.{edges_between, node_map}
use citra_flows.Executor.State.{NodeContext}
use citra_flows.Executor.Visit.{leaves_by, off_route, is_known, route_from}
use citra_flows.Logic.{missing_key, Outcome, done, raised, Python, split_dots, list_of-items_of}
use citra_flows.Logic.Switch.{
  kind_of, found, search, resolve, field_value, index_value, switch_output, labelled, conclude,
  with_routes, routes_of, loaded, with_loaded, execute, label_in, route_at,
}
use citra_flows.Logic.Switch.Choice.{choose, search-choose}

-- The label of the chosen route.
abbrev pub label_of : List Value → Option ℕ → Option Value
label_of routes none = some (str "none")
label_of routes (some i) = label_in (route_at i routes)

-- The edges between the two nodes, of which there is one, leave by the switch's output `n`.
pub record Leaves (wf : WorkflowDefinition) (pid : String) (n : ℕ) (nid : String) : Type 0 where
  pub first : EdgeDefinition
  pub others : List EdgeDefinition
  pub between : edges_between wf.edges pid nid ≡ first ∷ others
  pub by : All (λ e. edge_route e ≡ some (pos n)) (first ∷ others)

-- The target of output `n` is skipped: a route is matched, and it is another one.
abbrev pub missed : Option ℕ → ℕ → Bool
missed none n = false
missed (some i) n = not (nat_eq i n)

leaves_by-on :
    (i n : ℕ) (e : EdgeDefinition)
    → edge_route e ≡ some (pos n)
    → leaves_by (int (pos i)) e ≡ nat_eq i n
unfolding is_int
leaves_by-on i n e on = ap (λ o. elim o [ none ↦ false | some z ↦ is_int (int (pos i)) z ]) on

leaves-none :
    (i n : ℕ) (edges : List EdgeDefinition)
    → All (λ e. edge_route e ≡ some (pos n)) edges
    → nat_eq i n ≡ false
    → any (leaves_by (int (pos i))) edges ≡ false
leaves-none i n [] on h = refl
leaves-none i n (e ∷ edges) on h =
    ap (λ b. b || any (leaves_by (int (pos i))) edges) (leaves_by-on i n e on.0 ∙ h)
    ∙ leaves-none i n edges on.1 h

leaves_any :
    (i n : ℕ) (e : EdgeDefinition) (edges : List EdgeDefinition)
    → All (λ e'. edge_route e' ≡ some (pos n)) (e ∷ edges)
    → any (leaves_by (int (pos i))) (e ∷ edges) ≡ nat_eq i n
leaves_any i n e edges on = elim (Bool-cases (nat_eq i n)) [
  | inl h ↦ ap (λ b. b || any (leaves_by (int (pos i))) edges) (leaves_by-on i n e on.0 ∙ h) ∙ sym h
  | inr h ↦ leaves-none i n (e ∷ edges) on h ∙ sym h
]

off_route-missed :
    (m : Option ℕ) (n : ℕ) (e : EdgeDefinition) (edges : List EdgeDefinition)
    → All (λ e'. edge_route e' ≡ some (pos n)) (e ∷ edges)
    → off_route (index_value m) (e ∷ edges) ≡ missed m n
unfolding off_route
off_route-missed none n e edges on = refl
off_route-missed (some i) n e edges on = ap not (leaves_any i n e edges on)

route_switch :
    (ctx : NodeContext) (m : Option ℕ) (label : Value) (text : String) (wf : WorkflowDefinition)
    (pid nid : String) (input : Value)
    → is_known (lookup pid (node_map wf)) ≡ true
    → route_from wf nid pid (switch_output ctx m label text) (false, input)
      ≡ (off_route (index_value m) (edges_between wf.edges pid nid), switch_output ctx m label text)
unfolding route_from get get_default truthy
route_switch ctx m label text wf pid nid input known = rw known refl

-- The configuration's routes reach the loop.
execute-search :
    (ctx : NodeContext) (py : Python) (path : String) (routes : List Value)
    → get "field" ctx.config ≡ some (str path)
    → get "routes" ctx.config ≡ some (arr (items_of routes))
    → let text = field_value py (resolve ctx.input_data ctx.variables (split_dots path)) in
      execute py ctx ≡ conclude ctx routes text (search py text routes 0 none)
unfolding execute with_loaded with_routes routes_of loaded
execute-search ctx py path routes field given =
    let vs : Value = arr (items_of routes) in
    let text = field_value py (resolve ctx.input_data ctx.variables (split_dots path)) in
    ap
      (λ v.
        with_loaded py ctx v (get_default "routes" (arr nil) ctx.config)
          (loaded py (get_default "routes" (arr nil) ctx.config)))
      (get_default-some "field" (str "") (str path) ctx.config field)
    ∙ ap (λ v. with_loaded py ctx (str path) v (loaded py v))
        (get_default-some "routes" (arr nil) vs ctx.config given)
    ∙ ap (λ us. conclude ctx us text (search py text us 0 none)) (list_of-items_of routes)

module _ (ctx : NodeContext) (wf : WorkflowDefinition) (pid : String) where
  -- The switch gave the route `m` of `routes`, and the executor skips the targets of the others.
  abbrev pub Routed : List Value → Option ℕ → String → Outcome → Type 0
  Routed routes m text (raised f) = (f ≡ missing_key "label") × (label_of routes m ≡ none)
  Routed routes m text (done out) =
      (label : Value) × (out ≡ switch_output ctx m label text)
      × ((nid : String) (n : ℕ) (input : Value)
          → Leaves wf pid n nid
          → route_from wf nid pid out (false, input) ≡ (missed m n, out))

  module _ (known : is_known (lookup pid (node_map wf)) ≡ true) where
    routed_targets :
        (m : Option ℕ) (label : Value) (text : String) (nid : String) (n : ℕ) (input : Value)
        → Leaves wf pid n nid
        → route_from wf nid pid (switch_output ctx m label text) (false, input)
          ≡ (missed m n, switch_output ctx m label text)
    routed_targets m label text nid n input leaves =
        route_switch ctx m label text wf pid nid input known
        ∙ ap (λ b. (b, switch_output ctx m label text))
            (ap (off_route (index_value m)) leaves.between
              ∙ off_route-missed m n leaves.first leaves.others leaves.by)

    labelled-Routed :
        (routes : List Value) (i : ℕ) (text : String) (label : Option Value)
        → label_of routes (some i) ≡ label
        → Routed routes (some i) text (labelled ctx i text label)
    unfolding labelled
    labelled-Routed routes i text none e = (refl, e)
    labelled-Routed routes i text (some label) e = (label, refl, routed_targets (some i) label text)

    conclude-Routed :
        (routes : List Value) (m : Option ℕ) (text : String)
        → Routed routes m text (conclude ctx routes text (found m))
    unfolding conclude
    conclude-Routed routes none text = (str "none", refl, routed_targets none (str "none") text)
    conclude-Routed routes (some i) text =
        labelled-Routed routes i text (label_in (route_at i routes)) refl

    -- A switch whose field is a text and whose routes are a list of dicts chooses the first route
    -- with the value of the field, else the last default route. When all edges to a node leave by one
    -- output, the executor skips the node, on the switch's account, exactly when the switch chose
    -- another output: when it chose none, it skips no node. The switch raises only where the
    -- chosen route has no label.
    pub execute-Routed :
        (py : Python) (path : String) (fs : List Fields)
        → get "field" ctx.config ≡ some (str path)
        → get "routes" ctx.config ≡ some (arr (items_of (map obj fs)))
        → let text = field_value py (resolve ctx.input_data ctx.variables (split_dots path)) in
          Routed (map obj fs) (choose (map (kind_of py text) fs)) text (execute py ctx)
    execute-Routed py path fs field given =
        let routes : List Value = map obj fs in
        let text = field_value py (resolve ctx.input_data ctx.variables (split_dots path)) in
        let m = choose (map (kind_of py text) fs) in
        subst (Routed routes m text)
          (sym (
            execute-search ctx py path routes field given
            ∙ ap (conclude ctx routes text) (search-choose py text fs)))
          (conclude-Routed routes m text)

-- ===== src/Logic/Condition/Branches.antt =====
-- What the executor makes of a condition's output: it follows the branch that the condition took.
use citra_flows.Common.{
  ltb, ltb→lt, if_ind, if_ind_eq, length, ◌<◌, ℕ, String, ◌≡◌, refl, ap, ◌∙◌, Bool, true, false,
  not, Option, none, some, List, [], ◌∷◌, All, map, any, arith, ◌||◌,
}
use citra_flows.Common.Dict.{lookup}
use citra_flows.Value.{Value, obj, str, null, int, arr, other, bool, get, get_default, is_str}
use citra_flows.Models.{EdgeDefinition, WorkflowDefinition}
use citra_flows.Executor.Branch.{
  Branch, true_branch, false_branch, branch_text, edge_condition_branch,
}
use citra_flows.Executor.Graph.{edges_between, node_map}
use citra_flows.Executor.State.{NodeContext}
use citra_flows.Executor.Visit.{known_branches, off_branch, is_known, route_from}
use citra_flows.Logic.{
  Fault, missing_key, too_deep, too_long, wrong_type, overflow, Outcome, done, raised, Python,
  split_dots,
}
use citra_flows.Logic.Condition.{
  evaluate, judged, check_path, with_operator, with_field, execute, condition_output, branch_name,
}

abbrev pub branch_of : Bool → Branch
branch_of true = true_branch
branch_of false = false_branch

-- All edges say that they are on the branch.
abbrev pub OnBranch : Branch → List EdgeDefinition → Type 0
OnBranch b = All (λ e. edge_condition_branch e ≡ some b)

known-OnBranch :
    (taken : Value) (b : Branch) (edges : List EdgeDefinition)
    → OnBranch b edges
    → is_str taken (branch_text b) ≡ false
    → any (λ c. is_str taken (branch_text c)) (known_branches (map edge_condition_branch edges))
      ≡ false
known-OnBranch taken b [] on h = refl
known-OnBranch taken b (e ∷ edges) on h =
    rw on.0 (ground (arith, known-OnBranch taken b edges on.1))

-- The edges between the two nodes, of which there is one, say that they are on the branch.
pub record Leads (wf : WorkflowDefinition) (pid : String) (b : Branch) (nid : String) : Type 0 where
  pub first : EdgeDefinition
  pub others : List EdgeDefinition
  pub between : edges_between wf.edges pid nid ≡ first ∷ others
  pub on : OnBranch b (first ∷ others)

-- A target is off the taken branch exactly when its edges are on the other one.
off_branch-OnBranch :
    (r : Bool) (e : EdgeDefinition) (edges : List EdgeDefinition)
    → (OnBranch true_branch (e ∷ edges) → off_branch (str (branch_name r)) (e ∷ edges) ≡ not r)
      × (OnBranch false_branch (e ∷ edges) → off_branch (str (branch_name r)) (e ∷ edges) ≡ r)
unfolding off_branch
off_branch-OnBranch true e edges = (
  λ on. rw on.0 refl,
  λ on. rw on.0 (ap not (known-OnBranch (str "true") false_branch edges on.1 refl)),
)
off_branch-OnBranch false e edges = (
  λ on. rw on.0 (ap not (known-OnBranch (str "false") true_branch edges on.1 refl)),
  λ on. rw on.0 refl,
)

-- What the executor decides about a target of a condition.
route_condition :
    (ctx : NodeContext) (r : Bool) (wf : WorkflowDefinition) (pid nid : String) (input : Value)
    → is_known (lookup pid (node_map wf)) ≡ true
    → route_from wf nid pid (condition_output ctx r) (false, input)
      ≡ (off_branch (str (branch_name r)) (edges_between wf.edges pid nid), condition_output ctx r)
unfolding route_from get get_default
route_condition ctx r wf pid nid input known = rw known refl

route-Leads :
    (ctx : NodeContext) (r : Bool) (wf : WorkflowDefinition) (pid then_id else_id : String)
    (input : Value)
    → is_known (lookup pid (node_map wf)) ≡ true
    → Leads wf pid true_branch then_id
    → Leads wf pid false_branch else_id
    → (route_from wf then_id pid (condition_output ctx r) (false, input)
        ≡ (not r, condition_output ctx r))
      × (route_from wf else_id pid (condition_output ctx r) (false, input)
          ≡ (r, condition_output ctx r))
route-Leads ctx r wf pid then_id else_id input known to_yes to_no =
    let out = condition_output ctx r in
    let off = λ (es : List EdgeDefinition). off_branch (str (branch_name r)) es in
    (
      route_condition ctx r wf pid then_id input known
          ∙ ap (λ b. (b, out)) (ap off to_yes.between ∙ (off_branch-OnBranch r _ _).0 to_yes.on),
      route_condition ctx r wf pid else_id input known
          ∙ ap (λ b. (b, out)) (ap off to_no.between ∙ (off_branch-OnBranch r _ _).1 to_no.on),
    )

-- Why a condition may raise.
abbrev pub Explains : ℕ → NodeContext → Fault → Type 0
Explains max_depth ctx (missing_key k) = get k ctx.config ≡ none
Explains max_depth ctx (too_deep n) = max_depth < n
Explains max_depth ctx (too_long n) = ⊥
Explains max_depth ctx (wrong_type v) = get "field" ctx.config ≡ some v
Explains max_depth ctx overflow =
    (o : Value) × (get "operator" ctx.config ≡ some o) × ((is_str o ">" || is_str o "<") ≡ true)

-- Only a comparison overflows.
evaluate-none :
    (py : Python) (o found compare : Value)
    → evaluate py o found compare ≡ none
    → (is_str o ">" || is_str o "<") ≡ true
unfolding evaluate
evaluate-none py o found compare =
    let P = λ (r : Option Bool). r ≡ none → (is_str o ">" || is_str o "<") ≡ true in
    if_ind P (is_str o "==") (λ e. cc)
      (if_ind P (is_str o "!=") (λ e. cc)
        (if_ind_eq P (is_str o ">") (λ t e. rw t refl)
          (λ n.
            if_ind_eq P (is_str o "<") (λ t e. rw (n, t) refl)
              (λ m.
                if_ind P (is_str o "contains") (λ e. cc)
                  (if_ind P (is_str o "empty") (λ e. cc)
                    (if_ind P (is_str o "not_empty") (λ e. cc) (λ e. cc)))))))

module _ (max_depth : ℕ) (ctx : NodeContext) (wf : WorkflowDefinition)
    (pid then_id else_id : String) where
  -- The condition came out one way, and the executor skips the target on the other branch.
  abbrev pub Takes : Outcome → Type 0
  Takes (raised f) = Explains max_depth ctx f
  Takes (done out) =
      (r : Bool) × (out ≡ condition_output ctx r)
      × ((input : Value)
          → (route_from wf then_id pid out (false, input) ≡ (not r, out))
            × (route_from wf else_id pid out (false, input) ≡ (r, out)))

  module _ (known : is_known (lookup pid (node_map wf)) ≡ true)
      (to_then : Leads wf pid true_branch then_id)
      (to_else : Leads wf pid false_branch else_id) where
    judged-Takes :
        (o : Option Bool) → (o ≡ none → Explains max_depth ctx overflow) → Takes (judged ctx o)
    judged-Takes none h = h refl
    judged-Takes (some r) h =
        (r, refl, λ input. route-Leads ctx r wf pid then_id else_id input known to_then to_else)

    check_path-Takes :
        (py : Python) (operator : Value) (parts : List String)
        → get "operator" ctx.config ≡ some operator
        → Takes (check_path py max_depth ctx operator parts)
    unfolding check_path
    check_path-Takes py operator parts o =
        if_ind_eq Takes (ltb max_depth (length parts)) (λ e. ltb→lt _ _ e)
          (λ e. judged-Takes _ (λ n. (operator, o, evaluate-none py operator _ _ n)))

    with_operator-Takes :
        (py : Python) (path : Value) (operator : Option Value)
        → get "field" ctx.config ≡ some path
        → get "operator" ctx.config ≡ operator
        → Takes (with_operator py max_depth ctx path operator)
    unfolding with_operator
    with_operator-Takes py path none f o = o
    with_operator-Takes py (str s) (some v) f o = check_path-Takes py v (split_dots s) o
    with_operator-Takes py null (some v) f o = f
    with_operator-Takes py (bool b) (some v) f o = f
    with_operator-Takes py (int n) (some v) f o = f
    with_operator-Takes py (arr vs) (some v) f o = f
    with_operator-Takes py (obj d) (some v) f o = f
    with_operator-Takes py (other b) (some v) f o = f

    with_field-Takes :
        (py : Python) (path : Option Value)
        → get "field" ctx.config ≡ path
        → Takes (with_field py max_depth ctx path)
    unfolding with_field
    with_field-Takes py none f = f
    with_field-Takes py (some path) f = with_operator-Takes py path _ f refl

    -- When edges of the "true" branch lead from the condition to one node and edges of the "false"
    -- branch to another, the executor skips exactly one of the two on the condition's account, the
    -- one on the branch that the condition did not take. The condition raises only for a field or
    -- an operator that is missing, a field that is no text, a path that is too long, or, with the
    -- operators ">" and "<", an overflow.
    pub execute-Takes : (py : Python) → Takes (execute py max_depth ctx)
    unfolding execute
    execute-Takes py = with_field-Takes py _ refl

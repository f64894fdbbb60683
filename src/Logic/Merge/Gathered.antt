-- ===== src/Logic/Merge/Gathered.antt =====
-- A merge gathers the items of its parents.
use citra_flows.Common.{
  suc, ◌≡◌, refl, ap, sym, ◌∙◌, String, List, [], ◌∷◌, ◌++◌, map, length, length-map, append_nil,
  concat,
}
use citra_flows.Value.{Value, Fields, arr, get, items_of}
use citra_flows.Executor.State.{NodeContext}
use citra_flows.Executor.Visit.{output_of, gather_input}
use citra_flows.Logic.Merge.{items_or_self, branch_items, merge_output, merge_input, execute}
use citra_flows.Logic.{list_of-items_of, ctx_items, make_output}

-- An envelope of items, as nodes give it.
pub record Envelope : Type 0 where
  pub items : List Value
  pub meta : Fields

abbrev pub enveloped : Envelope → Value
enveloped e = make_output (items_of e.items) e.meta

-- The parents' outputs are these envelopes.
abbrev pub Gave : List (String × Value) → List String → List Envelope → Type 0
Gave outputs [] [] = Unit
Gave outputs [] (e ∷ es) = ⊥
Gave outputs (pid ∷ pids) [] = ⊥
Gave outputs (pid ∷ pids) (e ∷ es) = (output_of outputs pid ≡ enveloped e) × Gave outputs pids es

abbrev pub gathered : List Envelope → List Value
gathered [] = []
gathered (e ∷ es) = e.items ++ gathered es

branch_items-enveloped : (e : Envelope) → branch_items (enveloped e) ≡ e.items
unfolding branch_items items_or_self get
branch_items-enveloped e = list_of-items_of e.items

Gave-branches :
    (outputs : List (String × Value)) (pids : List String) (es : List Envelope)
    → Gave outputs pids es
    → (concat (map branch_items (map (output_of outputs) pids)) ≡ gathered es)
      × (length pids ≡ length es)
Gave-branches outputs [] [] g = (refl, refl)
Gave-branches outputs [] (e ∷ es) g = elim g [ ]
Gave-branches outputs (pid ∷ pids) [] g = elim g [ ]
Gave-branches outputs (pid ∷ pids) (e ∷ es) g =
    let rest = Gave-branches outputs pids es g.1 in
    (
      ap (λ v. branch_items v ++ concat (map branch_items (map (output_of outputs) pids))) g.0
          ∙ ap (λ vs. vs ++ concat (map branch_items (map (output_of outputs) pids)))
              (branch_items-enveloped e)
          ∙ ap (λ vs. e.items ++ vs) rest.0,
      ap suc rest.1,
    )

merged_branches :
    (outputs : List (String × Value)) (pids : List String) (es : List Envelope)
    → Gave outputs pids es
    → merge_input (arr (items_of (map (output_of outputs) pids)))
      ≡ merge_output (gathered es) (length es)
unfolding merge_input
merged_branches outputs pids es g =
    let rest = Gave-branches outputs pids es g in
    ap (λ vs. merge_output (concat (map branch_items vs)) (length vs))
      (list_of-items_of (map (output_of outputs) pids))
    ∙ ap (λ n. merge_output (concat (map branch_items (map (output_of outputs) pids))) n)
        (length-map (output_of outputs) pids ∙ rest.1)
    ∙ ap (λ vs. merge_output vs (length es)) rest.0

merged_single : (e : Envelope) → merge_input (enveloped e) ≡ merge_output (gathered (e ∷ [])) 1
unfolding merge_input ctx_items get
merged_single e = ap (λ vs. merge_output vs 1) (list_of-items_of e.items ∙ sym (append_nil e.items))

-- A merge behind parents that each gave an envelope gives the items of all of them, in the order
-- of the parents, and their number.
pub execute-gathered :
    (ctx : NodeContext) (trigger : Fields) (outputs : List (String × Value)) (p : String)
    (pids : List String) (es : List Envelope)
    → ctx.input_data ≡ gather_input trigger outputs (p ∷ pids)
    → Gave outputs (p ∷ pids) es
    → execute ctx ≡ merge_output (gathered es) (length es)
unfolding execute gather_input
execute-gathered ctx trigger outputs p [] [] input g = elim g [ ]
execute-gathered ctx trigger outputs p [] (e ∷ []) input g =
    ap merge_input (input ∙ g.0) ∙ merged_single e
execute-gathered ctx trigger outputs p [] (e ∷ e' ∷ es) input g = elim (g.1) [ ]
execute-gathered ctx trigger outputs p (q ∷ pids) es input g =
    ap merge_input input ∙ merged_branches outputs (p ∷ q ∷ pids) es g

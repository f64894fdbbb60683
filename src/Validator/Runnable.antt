-- ===== src/Validator/Runnable.antt =====
-- The reference checks and the setup gaps together.
use citra_flows.Common.{
  ◌≡◌, refl, ◌⊎◌, inl, inr, Bool, true, false, not, ◌||◌, Option, none, some, List, [], ◌∷◌, ◌++◌,
  All, arith, Bool-cases, if_ind_eq, String,
}
use citra_flows.Common.Dict.{lookup}
use citra_flows.Value.{Value, Fields, null, bool, int, str, arr, obj, other, truthy}
use citra_flows.Logic.{Python}
use citra_flows.Validator.{
  FieldSchema, NodeClass, Registry, Connection, is_picker, chosen, node_id, node_type, node_config,
  workflow_nodes, validate_workflow_references, has_inline, field_gaps, fields_gaps, class_gaps,
  node_gaps, nodes_gaps, detect_setup_gaps,
}
use citra_flows.Validator.Clean.{
  Refers, IsCleanField, IsCleanClass, IsCleanNode, validate_workflow_references-clean,
}

append_empty {ℓ} : {A : Type ℓ} (xs ys : List A) → xs ++ ys ≡ [] → (xs ≡ []) × (ys ≡ [])
append_empty [] ys e = (refl, e)
append_empty (x ∷ xs) ys e = cc

-- The field is no picker, or it names a saved connection of its type, or it is empty and the node
-- carries an inline connection.
abbrev pub IsWired : Python → List Connection → Fields → FieldSchema → Type 0
IsWired py cs config f =
    (is_picker f ≡ false)
    ⊎ (Refers py cs f (chosen config f)
        ⊎ ((truthy (chosen config f) ≡ false) × (has_inline py config ≡ true)))

abbrev pub IsWiredClass : Python → List Connection → Fields → Option NodeClass → Type 0
IsWiredClass py cs node none = ⊥
IsWiredClass py cs node (some c) = All (IsWired py cs (node_config node)) c.fields

-- The node's type is registered and all its connections are in place.
abbrev pub IsWiredNode : Python → Registry → List Connection → Value → Type 0
IsWiredNode py registry cs (obj node) =
    IsWiredClass py cs node (lookup (node_type py node) registry)
IsWiredNode py registry cs v = Unit

module _ (py : Python) (cs : List Connection) where
  no_gap :
      (nid : String) (config : Fields) (f : FieldSchema)
      → field_gaps py cs nid config f ≡ []
      → (not (is_picker f) || truthy (chosen config f) || has_inline py config) ≡ true
  unfolding field_gaps
  no_gap nid config f =
      let c = not (is_picker f) || truthy (chosen config f) || has_inline py config in
      if_ind_eq (λ gaps. gaps ≡ [] → c ≡ true) c (λ e h. e) (λ e h. cc)

  empty-IsWired :
      (config : Fields) (f : FieldSchema)
      → (not (is_picker f) || truthy (chosen config f) || has_inline py config) ≡ true
      → truthy (chosen config f) ≡ false
      → IsWired py cs config f
  empty-IsWired config f c e = elim (Bool-cases (is_picker f)) [
    | inl p ↦ inr (inr (e, ground arith))
    | inr p ↦ inl p
  ]

  field-IsWired :
      (config : Fields) (f : FieldSchema)
      → (not (is_picker f) || truthy (chosen config f) || has_inline py config) ≡ true
      → IsCleanField py cs config f
      → IsWired py cs config f
  field-IsWired config f c (inl a) = inl a
  field-IsWired config f c (inr (inl b)) = empty-IsWired config f c b
  field-IsWired config f c (inr (inr r)) = inr (inl r)

  fields-IsWired :
      (nid : String) (config : Fields) (fs : List FieldSchema)
      → fields_gaps py cs nid config fs ≡ []
      → All (IsCleanField py cs config) fs
      → All (IsWired py cs config) fs
  unfolding fields_gaps
  fields-IsWired nid config [] e a = tt
  fields-IsWired nid config (f ∷ fs) e a =
      let parts = append_empty (field_gaps py cs nid config f) _ e in
      (
        field-IsWired config f (no_gap nid config f parts.0) a.0,
        fields-IsWired nid config fs parts.1 a.1,
      )

  class-IsWired :
      (is_fresh : Bool) (node : Fields) (c : Option NodeClass)
      → class_gaps py cs node c ≡ []
      → IsCleanClass py cs is_fresh node c
      → IsWiredClass py cs node c
  unfolding class_gaps
  class-IsWired is_fresh node none e a = a
  class-IsWired is_fresh node (some c) e a =
      fields-IsWired (node_id py node) (node_config node) c.fields e a.1

  module _ (registry : Registry) (is_fresh : Bool) where
    node-IsWired :
        (v : Value)
        → node_gaps py registry cs v ≡ []
        → IsCleanNode py registry cs is_fresh v
        → IsWiredNode py registry cs v
    unfolding node_gaps
    node-IsWired (obj node) e a =
        class-IsWired is_fresh node (lookup (node_type py node) registry) e a
    node-IsWired null e a = tt
    node-IsWired (bool b) e a = tt
    node-IsWired (int n) e a = tt
    node-IsWired (str s) e a = tt
    node-IsWired (arr vs) e a = tt
    node-IsWired (other b) e a = tt

    nodes-IsWired :
        (vs : List Value)
        → nodes_gaps py registry cs vs ≡ []
        → All (IsCleanNode py registry cs is_fresh) vs
        → All (IsWiredNode py registry cs) vs
    unfolding nodes_gaps
    nodes-IsWired [] e a = tt
    nodes-IsWired (v ∷ vs) e a =
        let parts = append_empty (node_gaps py registry cs v) _ e in
        (node-IsWired v parts.0 a.0, nodes-IsWired vs parts.1 a.1)

    -- A workflow with neither reference errors nor setup gaps has all its connections in place:
    -- each connection picker of a node names a saved connection of its type, or it is empty and the
    -- node carries an inline connection.
    pub detect_setup_gaps-wired :
        (workflow : Fields)
        → validate_workflow_references py registry cs is_fresh workflow ≡ some []
        → detect_setup_gaps py registry cs workflow ≡ []
        → All (IsWiredNode py registry cs) (workflow_nodes workflow)
    unfolding detect_setup_gaps
    detect_setup_gaps-wired workflow clean gaps =
        nodes-IsWired (workflow_nodes workflow) gaps
          ((validate_workflow_references-clean py cs registry is_fresh workflow).0 clean)

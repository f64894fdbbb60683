-- ===== src/Validator/Clean.antt =====
-- Which workflows have no reference errors.
use citra_flows.Common.{
  ◌≡◌, refl, sym, ap, subst, Bool-cases, ◌⊎◌, inl, inr, ◌↔◌, String, Bool, true, false, not, ◌&&◌,
  Option, none, some, List, [], ◌∷◌, All, arith, if◌then◌else◌, if_ind_eq, ◌==◌, ==_iff,
}
use citra_flows.Common.Dict.{lookup}
use citra_flows.Value.{Value, Fields, null, bool, int, str, arr, obj, other, truthy}
use citra_flows.Logic.{Python}
use citra_flows.Validator.Saved.{IsSaved, find_connection-IsSaved, IsSaved-find_connection}
use citra_flows.Validator.{
  FieldSchema, NodeClass, Registry, Connection, ReferenceError, connection_type_matches, Entry,
  unhashable, missing, entry, find_connection, both, check_type, check_entry, is_picker, chosen,
  check_field, check_fields, node_id, node_type, node_config, check_class, check_node, check_nodes,
  workflow_nodes, validate_workflow_references,
}

-- A connection of the type may stand in the field.
pub data Fits (py : Python) (actual : Value) : Option String → Type 0 where
  any_type : Fits py actual none
  no_type : Fits py actual (some "")
  same_type :
      {t : String} → connection_type_matches py (str t) actual ≡ true → Fits py actual (some t)

-- The field names a saved connection of its type: the last one with the identifier.
pub record Refers (py : Python) (cs : List Connection) (f : FieldSchema) (v : Value) : Type 0 where
  pub actual : Value
  pub saved : IsSaved cs v actual
  pub fits : Fits py actual f.connection_type

-- The field is no picker, or it is empty, or it names a saved connection of its type.
abbrev pub IsCleanField : Python → List Connection → Fields → FieldSchema → Type 0
IsCleanField py cs config f =
    (is_picker f ≡ false) ⊎ ((truthy (chosen config f) ≡ false) ⊎ Refers py cs f (chosen config f))

abbrev pub IsCleanClass : Python → List Connection → Bool → Fields → Option NodeClass → Type 0
IsCleanClass py cs is_fresh node none = ⊥
IsCleanClass py cs is_fresh node (some c) =
    ((is_fresh ≡ false) ⊎ (c.ai_visible ≡ true))
    × All (IsCleanField py cs (node_config node)) c.fields

-- The node's type is registered and may be generated, and its fields are clean.
abbrev pub IsCleanNode : Python → Registry → List Connection → Bool → Value → Type 0
IsCleanNode py registry cs is_fresh (obj node) =
    IsCleanClass py cs is_fresh node (lookup (node_type py node) registry)
IsCleanNode py registry cs is_fresh v = Unit

-- A check that finds nothing exactly where the statement holds.
record Decides (C : Type 0) (found : Option (List ReferenceError)) : Type 0 where
  to : found ≡ some [] → C
  from : C → found ≡ some []

passed : {C : Type 0} → C → Decides C (some [])
passed c = record { to = λ e. c; from = λ c'. refl }

found_one :
    {C : Type 0} (e : ReferenceError) (es : List ReferenceError)
    → (C → ⊥)
    → Decides C (some (e ∷ es))
found_one e es unclean = record { to = λ h. cc; from = λ c. elim (unclean c) [ ] }

both-Decides :
    {C D : Type 0} (a b : Option (List ReferenceError))
    → Decides C a
    → Decides D b
    → Decides (C × D) (both a b)
both-Decides none b p q = record { to = λ h. cc; from = λ c. cc (p.from c.0) }
both-Decides (some xs) none p q = record { to = λ h. cc; from = λ c. cc (q.from c.1) }
both-Decides (some []) (some ys) p q = record {
  to = λ h. (p.to refl, q.to h);
  from = λ c. q.from c.1;
}
both-Decides (some (x ∷ xs)) (some ys) p q = record { to = λ h. cc; from = λ c. cc (p.from c.0) }

abbrev kind_in : Entry → Value
kind_in (entry actual) = actual
kind_in e = null

module _ (py : Python) (cs : List Connection) where
  Fits-absurd :
      (t : String) (actual : Value)
      → (not (t == "") && not (connection_type_matches py (str t) actual)) ≡ true
      → Fits py actual (some t)
      → ⊥
  Fits-absurd t actual e no_type = cc
  Fits-absurd t actual e (same_type m) = ground arith

  Fits-from :
      (t : String) (actual : Value)
      → (not (t == "") && not (connection_type_matches py (str t) actual)) ≡ false
      → Fits py actual (some t)
  Fits-from t actual e = elim (Bool-cases (t == "")) [
    | inl e' ↦ subst (λ u. Fits py actual (some u)) (sym ((==_iff t "").0 e')) no_type
    | inr e' ↦ same_type (ground arith)
  ]

  check_type-Decides :
      (nid name : String) (v : Value) (required : Option String) (actual : Value)
      → Decides (Fits py actual required) (check_type py nid name v required actual)
  unfolding check_type
  check_type-Decides nid name v none actual = passed any_type
  check_type-Decides nid name v (some t) actual =
      if_ind_eq (Decides (Fits py actual (some t)))
        (not (t == "") && not (connection_type_matches py (str t) actual))
        (λ e. found_one _ [] (Fits-absurd t actual e)) (λ e. passed (Fits-from t actual e))

  -- What `check_entry` decides of the entry that it is given.
  record Found (f : FieldSchema) (e : Entry) : Type 0 where
    actual : Value
    saved : e ≡ entry actual
    fits : Fits py actual f.connection_type

  check_entry-Decides :
      (nid : String) (f : FieldSchema) (v : Value) (e : Entry)
      → Decides (Found f e) (check_entry py nid f v e)
  unfolding check_entry
  check_entry-Decides nid f v unhashable = record { to = λ h. cc; from = λ c. cc (c.saved) }
  check_entry-Decides nid f v missing = found_one _ [] (λ c. cc (c.saved))
  check_entry-Decides nid f v (entry actual) =
      let d = check_type-Decides nid f.name v f.connection_type actual in
      record {
        to = λ h. record { actual = actual; saved = refl; fits = d.to h };
        from = λ c.
            d.from (subst (λ a. Fits py a f.connection_type) (sym (ap kind_in c.saved)) c.fits);
      }

  picked :
      (nid : String) (config : Fields) (f : FieldSchema)
      → IsCleanField py cs config f
      → not (is_picker f) ≡ false
      → not (truthy (chosen config f)) ≡ false
      → check_entry py nid f (chosen config f) (find_connection cs (chosen config f)) ≡ some []
  picked nid config f (inl a) e e' = ground arith
  picked nid config f (inr (inl b)) e e' = ground arith
  picked nid config f (inr (inr r)) e e' =
      (check_entry-Decides nid f (chosen config f) (find_connection cs (chosen config f))).from
        (record {
          actual = r.actual;
          saved = IsSaved-find_connection cs _ _ r.saved;
          fits = r.fits;
        })

  check_field-Decides :
      (nid : String) (config : Fields) (f : FieldSchema)
      → Decides (IsCleanField py cs config f) (check_field py cs nid config f)
  unfolding check_field
  check_field-Decides nid config f =
      let v = chosen config f in
      let C = IsCleanField py cs config f in
      let d = check_entry-Decides nid f v (find_connection cs v) in
      if_ind_eq (Decides C) (not (is_picker f)) (λ e. passed (inl (ground arith)))
        (λ e.
          if_ind_eq (Decides C) (not (truthy v)) (λ e'. passed (inr (inl (ground arith))))
            (λ e'. record {
              to = λ h.
                  let r = d.to h in
                  let saved = find_connection-IsSaved cs v r.actual (ground (arith, e')) r.saved in
                  inr (inr (record { actual = r.actual; saved = saved; fits = r.fits }));
              from = λ c. picked nid config f c e e';
            }))

  check_fields-Decides :
      (nid : String) (config : Fields) (fs : List FieldSchema)
      → Decides (All (IsCleanField py cs config) fs) (check_fields py cs nid config fs)
  unfolding check_fields
  check_fields-Decides nid config [] = passed tt
  check_fields-Decides nid config (f ∷ fs) =
      both-Decides _ _ (check_field-Decides nid config f) (check_fields-Decides nid config fs)

  check_visible-Decides :
      (is_fresh visible : Bool) (e : ReferenceError)
      → Decides
          ((is_fresh ≡ false) ⊎ (visible ≡ true))
          (if is_fresh && not visible then some (e ∷ []) else some [])
  check_visible-Decides true true e = passed (inr refl)
  check_visible-Decides true false e = found_one e [] (λ c. elim c [ inl a ↦ cc | inr b ↦ cc ])
  check_visible-Decides false b e = passed (inl refl)

  check_class-Decides :
      (is_fresh : Bool) (node : Fields) (c : Option NodeClass)
      → Decides (IsCleanClass py cs is_fresh node c) (check_class py cs is_fresh node c)
  unfolding check_class
  check_class-Decides is_fresh node none = found_one _ [] (λ c. c)
  check_class-Decides is_fresh node (some c) =
      both-Decides _ _ (check_visible-Decides is_fresh c.ai_visible _)
        (check_fields-Decides (node_id py node) (node_config node) c.fields)

  module _ (registry : Registry) (is_fresh : Bool) where
    check_node-Decides :
        (v : Value)
        → Decides (IsCleanNode py registry cs is_fresh v) (check_node py registry cs is_fresh v)
    unfolding check_node
    check_node-Decides (obj node) =
        check_class-Decides is_fresh node (lookup (node_type py node) registry)
    check_node-Decides null = passed tt
    check_node-Decides (bool b) = passed tt
    check_node-Decides (int n) = passed tt
    check_node-Decides (str s) = passed tt
    check_node-Decides (arr vs) = passed tt
    check_node-Decides (other b) = passed tt

    check_nodes-Decides :
        (vs : List Value)
        → Decides
            (All (IsCleanNode py registry cs is_fresh) vs)
            (check_nodes py registry cs is_fresh vs)
    unfolding check_nodes
    check_nodes-Decides [] = passed tt
    check_nodes-Decides (v ∷ vs) = both-Decides _ _ (check_node-Decides v) (check_nodes-Decides vs)

    -- The validator returns the empty list exactly for the workflows whose every node has a
    -- registered type, which in a fresh workflow is one that may be generated, and whose every
    -- connection picker is empty or names a saved connection of the type that the field wants.
    pub validate_workflow_references-clean :
        (workflow : Fields)
        → (validate_workflow_references py registry cs is_fresh workflow ≡ some [])
          ↔ All (IsCleanNode py registry cs is_fresh) (workflow_nodes workflow)
    unfolding validate_workflow_references
    validate_workflow_references-clean workflow =
        let d = check_nodes-Decides (workflow_nodes workflow) in (d.to, d.from)

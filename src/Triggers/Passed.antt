-- ===== src/Triggers/Passed.antt =====
-- What the start node passes on.
use mathlib.Core.Bool.{true≢false}
use citra_flows.Common.{
  then_of, else_of, String, true, false, ◌&&◌, some, List, [], ◌∷◌, map, mem, is_empty, Distinct,
  In, ◌≡◌, ◌⊎◌, inl, inr, refl, sym, ap, subst, ◌∙◌, arith, Bool-cases, Option-cases, if_ind,
  if_ind_eq, ==_iff, if◌then◌else◌, ◌==◌,
}
use citra_flows.Value.{Value, Fields, null, get, put, update, is_null, truthy}
use citra_flows.Value.Laws.{get-put}
use citra_flows.Executor.State.{NodeContext}
use citra_flows.Triggers.{
  Casts, SchemaField, schema_of, FieldError, missing, not_number, cast_or, cast_input, Checked,
  check_value, check_field, check_fields, unchecked, Started, Triggered, emitted, single,
  conclude_start, input_of, start_with, execute_start,
}
use citra_flows.Triggers.Required.{value_of, In-last, occupied, check_fields-grows}

-- A field's value that was stored.
abbrev pub IsPresent : String → Fields → Type 0
IsPresent name d = (v : Value) × (get name d ≡ some v) × (is_null v ≡ false)

get-put-same : (k : String) (v : Value) (d : Fields) → get k (put k v d) ≡ some v
get-put-same k v d = get-put k k v d ∙ ap (λ b. if b then some v else get k d) ((==_iff k k).1 refl)

module _ (cs : Casts) (input vars : Fields) where
  -- Another field's check leaves a stored value alone.
  check_field-other :
      (name : String) (f : SchemaField) (c : Checked)
      → (name == f.name) ≡ false
      → get name (check_field cs input vars f c).validated ≡ get name c.validated
  unfolding check_field check_value
  check_field-other name f c n =
      let v = value_of input vars f in
      let Same = λ (d : Checked). get name d.validated ≡ get name c.validated in
      let skip : (w : Value) → get name (put f.name w c.validated) ≡ get name c.validated = λ w.
        get-put name f.name w c.validated
        ∙ ap (λ b. if b then some w else get name c.validated) n in
      if_ind Same (is_null v && truthy f.required) refl
        (if_ind Same (is_null v) (skip null) (skip _))

  check_fields-other :
      (name : String) (fs : List SchemaField) (c : Checked)
      → mem name (map (λ (f : SchemaField). f.name) fs) ≡ false
      → get name (check_fields cs input vars fs c).validated ≡ get name c.validated
  unfolding check_fields
  check_fields-other name [] c m = refl
  check_fields-other name (f ∷ fs) c m =
      check_fields-other name fs (check_field cs input vars f c) (ground (arith, m))
      ∙ check_field-other name f c (ground (arith, m))

  module _ (floats : (v w : Value) → cs.float_of v ≡ some w → is_null w ≡ false) where
    -- A conversion other than that of JSON keeps a value from being None.
    cast_input-present :
        (name t : String) (v : Value)
        → (t == "json") ≡ false
        → is_null v ≡ false
        → is_null (cast_input cs name t v).0 ≡ false
    unfolding cast_input
    cast_input-present name t v j n =
        let Kept = λ (r : Value × List FieldError). is_null r.0 ≡ false in
        if_ind Kept (t == "number")
          (elim (Option-cases (cs.float_of v)) [
            | inl e ↦ ap (λ o. is_null (cast_or (not_number name) v o).0) e ∙ n
            | inr s ↦ ap (λ o. is_null (cast_or (not_number name) v o).0) s.1 ∙ floats v s.0 s.1
          ])
          (if_ind Kept (t == "boolean") refl
            (if_ind_eq Kept (t == "json") (λ u. absurd (true≢false (sym u ∙ j))) (λ u. n)))

    check_field-present :
        (f : SchemaField) (c : Checked)
        → truthy f.required ≡ true
        → (f.field_type == "json") ≡ false
        → (In (missing f.name) (check_field cs input vars f c).errors)
          ⊎ IsPresent f.name (check_field cs input vars f c).validated
    unfolding check_field check_value
    check_field-present f c r j =
        let v = value_of input vars f in
        let Either = λ (d : Checked). In (missing f.name) d.errors ⊎ IsPresent f.name d.validated in
        if_ind_eq Either (is_null v && truthy f.required)
          (λ t. inl (In-last (missing f.name) c.errors))
          (λ u.
            if_ind_eq Either (is_null v)
              (λ t. absurd (true≢false (sym (ap (λ b. b && truthy f.required) t ∙ r) ∙ u)))
              (λ n.
                let w = (cast_input cs f.name f.field_type v).0 in
                inr (
                  w,
                  get-put-same f.name w c.validated,
                  cast_input-present f.name f.field_type v j n,
                )))

    check_fields-present :
        (f : SchemaField) (fs : List SchemaField) (c : Checked)
        → In f fs
        → Distinct (map (λ (g : SchemaField). g.name) fs)
        → truthy f.required ≡ true
        → (f.field_type == "json") ≡ false
        → In (missing f.name) (check_fields cs input vars fs c).errors
          ⊎ IsPresent f.name (check_fields cs input vars fs c).validated
    unfolding check_fields
    check_fields-present f [] c i d r j = elim i [ ]
    check_fields-present f (g ∷ fs) c (In.here e) d r j =
        let c' = check_field cs input vars g c in
        elim (subst
          (λ (h : SchemaField).
            In (missing f.name) (check_field cs input vars h c).errors
            ⊎ IsPresent f.name (check_field cs input vars h c).validated)
          e (check_field-present f c r j)) [
            | inl m ↦ inl (check_fields-grows cs input vars (missing f.name) fs c' m)
            | inr p ↦
                let same = check_fields-other f.name fs c' (
                  ap (λ (h : SchemaField). mem h.name (map (λ (x : SchemaField). x.name) fs)) e
                  ∙ d.0) in
                inr (p.0, same ∙ p.1, p.2)
          ]
    check_fields-present f (g ∷ fs) c (In.there k) d r j =
        check_fields-present f fs (check_field cs input vars g c) k d.1 r j

emitted_inj : (a b : Triggered) → emitted a ≡ emitted b → a ≡ b
emitted_inj a b e = ap (triggered_of a) e
  where
    triggered_of : Triggered → Started → Triggered
    triggered_of t (emitted u) = u
    triggered_of t s = t

-- What a start node that emits has passed on: one dict, which the variables are updated with, and
-- which has a value for the field.
pub record Complete (name : String) (vars : Fields) (t : Triggered) : Type 0 where
  pub validated : Fields
  pub row : t.items ≡ single validated
  pub merged : t.variables ≡ update vars validated
  pub present : IsPresent name validated

-- When the start node emits its output, a required field of its schema has a value other than None
-- among the inputs that it passes on, unless the field's type is "json"; the names of the fields are
-- different and `float` does not return None.
pub execute_start-Complete :
    (cs : Casts) (ctx : NodeContext) (f : SchemaField) (t : Triggered)
    → ((v w : Value) → cs.float_of v ≡ some w → is_null w ≡ false)
    → Distinct (map (λ (g : SchemaField). g.name) (schema_of cs.python ctx.config))
    → In f (schema_of cs.python ctx.config)
    → truthy f.required ≡ true
    → (f.field_type == "json") ≡ false
    → execute_start cs ctx ≡ emitted t
    → Complete f.name ctx.variables t
unfolding execute_start start_with
execute_start-Complete cs ctx f t floats d i r j e =
    let schema = schema_of cs.python ctx.config in
    let q =
      sym (
        ap
          (λ b.
            if b
            then conclude_start ctx.variables unchecked
            else start_with cs ctx (input_of ctx.input_data))
          (occupied f schema i))
      ∙ e in
    elim (Option-cases (input_of ctx.input_data)) [
      | inl n ↦ let w = sym (ap (start_with cs ctx) n) ∙ q in absurd (cc)
      | inr m ↦
          let c = check_fields cs m.0 ctx.variables schema unchecked in
          let w = sym (ap (start_with cs ctx) m.1) ∙ q in
          elim (check_fields-present cs m.0 ctx.variables floats f schema unchecked i d r j) [
            | inl x ↦ let bad = else_of _ (occupied (missing f.name) c.errors x) w in absurd (cc)
            | inr p ↦ elim (Bool-cases (is_empty c.errors)) [
              | inr y ↦ let bad = else_of _ y w in absurd (cc)
              | inl y ↦
                  let good = emitted_inj _ t (then_of _ y w) in
                  record {
                    validated = c.validated;
                    row = ap (λ (u : Triggered). u.items) (sym good);
                    merged = ap (λ (u : Triggered). u.variables) (sym good);
                    present = p;
                  }
            ]
          ]
    ]

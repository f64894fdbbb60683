-- ===== src/Triggers/Required.antt =====
-- Required inputs of the start and webhook triggers.

use citra_flows.Common.{false, ◌&&◌, List, [], ◌∷◌, ◌++◌, is_empty, In, ◌≡◌, refl, if_ind}
use citra_flows.Value.{Value, Fields, is_null, truthy}
use citra_flows.Triggers.{
  Casts, SchemaField, or_default, FieldError, given, Checked, check_value, check_field,
  check_fields,
}

-- The value that a field is checked with.
abbrev pub value_of : Fields → Fields → SchemaField → Value
value_of input vars f = or_default (given f.name input vars) f.default_value

In-append {ℓ} : {A : Type ℓ} (x : A) (xs ys : List A) → In x xs → In x (xs ++ ys)
In-append x [] ys i = elim i [ ]
In-append x (y ∷ xs) ys (In.here e) = In.here e
In-append x (y ∷ xs) ys (In.there j) = In.there (In-append x xs ys j)

pub In-last {ℓ} : {A : Type ℓ} (x : A) (xs : List A) → In x (xs ++ x ∷ [])
In-last x [] = In.here refl
In-last x (y ∷ xs) = In.there (In-last x xs)

pub occupied {ℓ} : {A : Type ℓ} (x : A) (xs : List A) → In x xs → is_empty xs ≡ false
occupied x [] i = elim i [ ]
occupied x (y ∷ xs) i = refl

module _ (cs : Casts) (input vars : Fields) where
  -- Errors stay.
  check_field-grows :
      (e : FieldError) (f : SchemaField) (c : Checked)
      → In e c.errors
      → In e (check_field cs input vars f c).errors
  unfolding check_field check_value
  check_field-grows e f c i =
      let v = value_of input vars f in
      let Has = λ (d : Checked). In e d.errors in
      if_ind Has (is_null v && truthy f.required) (In-append e c.errors _ i)
        (if_ind Has (is_null v) i (In-append e c.errors _ i))

  pub check_fields-grows :
      (e : FieldError) (fs : List SchemaField) (c : Checked)
      → In e c.errors
      → In e (check_fields cs input vars fs c).errors
  unfolding check_fields
  check_fields-grows e [] c i = i
  check_fields-grows e (f ∷ fs) c i =
      check_fields-grows e fs (check_field cs input vars f c) (check_field-grows e f c i)

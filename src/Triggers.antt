-- ===== src/Triggers.antt =====
-- `execute` of the nodes of citra_workflow/nodes/triggers.py, the entry points of workflows. The names
-- and types of schema fields are texts, as the form saves them.
pub mod Required
pub mod Passed
use citra_flows.Common.{
  String, Bool, true, false, not, ◌&&◌, ◌||◌, Option, none, some, List, [], ◌∷◌, ◌++◌, any,
  is_empty, if◌then◌else◌, ◌==◌,
}
use citra_flows.Value.{
  Value, Items, Fields, null, bool, str, arr, obj, nil, cons, end, field, get, get_default, put,
  update, nonempty, is_null, truthy, codes, codes_eq, lower,
}
use citra_flows.Executor.State.{NodeContext}
use citra_flows.Logic.{Python, text_of}

-- Python's conversions, with `float(v)`, `none` where it raises ValueError or TypeError.
pub record Casts : Type 0 where
  pub python : Python
  pub float_of : Value → Option Value

-- A field of a schema, with the keys that the nodes read.
pub record SchemaField : Type 0 where
  pub name : String
  pub field_type : String
  pub required : Value
  pub default_value : Value

abbrev text_at : String → String → Fields → String
text_at k other f = elim (get_default k (str other) f) [ str s ↦ s | v ↦ other ]

unfoldable pub read_field : Fields → SchemaField
read_field f = record {
  name = text_at "name" "" f;
  field_type = text_at "type" "string" f;
  required = get_default "required" (bool false) f;
  default_value = get_default "default" null f;
}

-- The fields that are dicts.
unfoldable pub dict_fields : Items → List SchemaField
dict_fields nil = []
dict_fields (cons (obj f) vs) = read_field f ∷ dict_fields vs
dict_fields (cons v vs) = dict_fields vs

unfoldable pub fields_of_list : Option Value → List SchemaField
fields_of_list (some (arr vs)) = dict_fields vs
fields_of_list v = []

abbrev pub is_list_at : String → Fields → Bool
is_list_at k d = elim (get k d) [ some (arr vs) ↦ true | v ↦ false ]

-- A dict is a schema under one of three keys, or one field.
unfoldable pub fields_of_dict : Fields → List SchemaField
fields_of_dict d =
    if is_list_at "fields" d
    then fields_of_list (get "fields" d)
    else if is_list_at "schema" d
    then fields_of_list (get "schema" d)
    else if is_list_at "input_schema" d
    then fields_of_list (get "input_schema" d)
    else if truthy (get_default "name" null d)
    then read_field d ∷ []
    else []

unfoldable pub fields_of_value : Option Value → List SchemaField
fields_of_value (some (obj d)) = fields_of_dict d
fields_of_value v = fields_of_list v

-- `_coerce_schema_fields`.
unfoldable pub coerce_schema_fields : Python → Value → List SchemaField
coerce_schema_fields py (str s) = if s == "" then [] else fields_of_value (py.loads s)
coerce_schema_fields py v = fields_of_value (some v)

abbrev pub schema_of : Python → Fields → List SchemaField
schema_of py config = coerce_schema_fields py (get_default "input_schema" (arr nil) config)

-- `str(value).lower() in ("true", "1", "yes")`.
unfoldable pub is_yes : Python → Value → Bool
is_yes py v =
    let t = lower (codes (text_of py v)) in
    codes_eq t (codes "true") || codes_eq t (codes "1") || codes_eq t (codes "yes")

abbrev pub or_default : Value → Value → Value
or_default v d = if is_null v then d else v

-- `float(value)`, the value itself where it raises.
abbrev float_or_self : Casts → Value → Value
float_or_self cs v = elim (cs.float_of v) [ none ↦ v | some w ↦ w ]

-- What the manual and the scheduled trigger make of a value.
unfoldable pub cast_variable : Casts → String → Value → Value
cast_variable cs t v =
    if t == "number"
    then float_or_self cs v
    else if t == "boolean"
    then bool (is_yes cs.python v)
    else v

-- A field whose value is None leaves the variables alone.
unfoldable pub fill_field : Casts → SchemaField → Fields → Fields
fill_field cs f vars =
    let v = or_default (get_default f.name null vars) f.default_value in
    if is_null v then vars else put f.name (cast_variable cs f.field_type v) vars

unfoldable pub fill : Casts → List SchemaField → Fields → Fields
fill cs [] vars = vars
fill cs (f ∷ fs) vars = fill cs fs (fill_field cs f vars)

-- The items and the variables that a trigger passes on.
pub record Triggered : Type 0 where
  pub items : Items
  pub variables : Fields

abbrev pub single : Fields → Items
single d = if nonempty d then cons (obj d) nil else nil

-- `ManualTriggerNode.execute`, and `ScheduledTriggerNode.execute`, which differs in the metadata.
unfoldable pub execute_manual : Casts → NodeContext → Triggered
execute_manual cs ctx =
    let vars = fill cs (schema_of cs.python ctx.config) ctx.variables in
    record { items = single vars; variables = vars }

pub data FieldError : Type 0 where
  missing not_number not_json : String → FieldError

-- `input.get(name) or variables.get(name)`.
unfoldable pub given : String → Fields → Fields → Value
given name input vars =
    let v = get_default name null input in if truthy v then v else get_default name null vars

-- A conversion that raises keeps the value and reports an error.
abbrev pub cast_or : FieldError → Value → Option Value → Value × List FieldError
cast_or e v none = (v, e ∷ [])
cast_or e v (some w) = (w, [])

unfoldable pub cast_json : Casts → String → Value → Value × List FieldError
cast_json cs name (str s) = cast_or (not_json name) (str s) (cs.python.loads s)
cast_json cs name v = (v, [])

unfoldable pub cast_input : Casts → String → String → Value → Value × List FieldError
cast_input cs name t v =
    if t == "number"
    then cast_or (not_number name) v (cs.float_of v)
    else if t == "boolean"
    then (bool (is_yes cs.python v), [])
    else if t == "json"
    then cast_json cs name v
    else (v, [])

-- `validated` and `errors`.
pub record Checked : Type 0 where
  pub validated : Fields
  pub errors : List FieldError

abbrev pub add_cast : String → Value × List FieldError → Checked → Checked
add_cast name r c = record { validated = put name r.0 c.validated; errors = c.errors ++ r.1 }

unfoldable pub check_value : Casts → SchemaField → Value → Checked → Checked
check_value cs f v c =
    if is_null v && truthy f.required
    then record c { errors = c.errors ++ missing f.name ∷ [] }
    else if is_null v
    then record c { validated = put f.name null c.validated }
    else add_cast f.name (cast_input cs f.name f.field_type v) c

unfoldable pub check_field : Casts → Fields → Fields → SchemaField → Checked → Checked
check_field cs input vars f c =
    check_value cs f (or_default (given f.name input vars) f.default_value) c

unfoldable pub check_fields : Casts → Fields → Fields → List SchemaField → Checked → Checked
check_fields cs input vars [] c = c
check_fields cs input vars (f ∷ fs) c =
    check_fields cs input vars fs (check_field cs input vars f c)

abbrev pub unchecked : Checked
unchecked = record { validated = end; errors = [] }

-- How a trigger with inputs ends: with its output, with the errors in its output or with a ValueError
-- that names them, or with an error of Python's own on an input that is no dict.
pub data Started : Type 0 where
  emitted : Triggered → Started
  invalid failed : List FieldError → Started
  not_a_dict : Value → Started

-- `ctx.input_data or {}`.
unfoldable pub input_of : Value → Option Fields
input_of (obj d) = some d
input_of v = if truthy v then none else some end

abbrev pub emit_checked : Fields → Checked → Started
emit_checked vars c =
    emitted (record { items = single c.validated; variables = update vars c.validated })

abbrev pub conclude_start : Fields → Checked → Started
conclude_start vars c = if is_empty c.errors then emit_checked vars c else invalid c.errors

abbrev pub conclude_webhook : Fields → Checked → Started
conclude_webhook vars c = if is_empty c.errors then emit_checked vars c else failed c.errors

unfoldable pub start_with : Casts → NodeContext → Option Fields → Started
start_with cs ctx none = not_a_dict ctx.input_data
start_with cs ctx (some input) =
    conclude_start ctx.variables
      (check_fields cs input ctx.variables (schema_of cs.python ctx.config) unchecked)

-- `StartNode.execute`; without a field the input is not looked at.
unfoldable pub execute_start : Casts → NodeContext → Started
execute_start cs ctx =
    if is_empty (schema_of cs.python ctx.config)
    then conclude_start ctx.variables unchecked
    else start_with cs ctx (input_of ctx.input_data)

unfoldable pub webhook_with : Casts → NodeContext → Option Fields → Started
webhook_with cs ctx none = not_a_dict ctx.input_data
webhook_with cs ctx (some payload) =
    let schema = schema_of cs.python ctx.config in
    if is_empty schema
    then emitted (record { items = single payload; variables = update ctx.variables payload })
    else conclude_webhook ctx.variables (check_fields cs payload ctx.variables schema unchecked)

-- `WebhookTriggerNode.execute`.
unfoldable pub execute_webhook : Casts → NodeContext → Started
execute_webhook cs ctx = webhook_with cs ctx (input_of ctx.input_data)

-- ===== src/Validator.antt =====
-- citra_workflow/workflow_reference_validator.py: the checks of a generated workflow against the
-- registry of node types and the saved connections, whose identifiers are texts.
pub mod Clean
pub mod Saved
pub mod Runnable
use citra_flows.Common.{
  ℕ, String, Bool, true, false, not, ◌&&◌, ◌||◌, Option, none, some, List, [], ◌∷◌, ◌++◌, any,
  is_empty, if◌then◌else◌, ◌==◌,
}
use citra_flows.Common.Dict.{lookup}
use citra_flows.Value.{
  Value, Items, Fields, null, bool, int, str, arr, obj, other, nil, end, get_default, truthy, codes,
  codes_eq, strip, lower,
}
use citra_flows.Logic.{Python, text_of, list_of}

-- The attributes of a `NodeFieldSchema` that the checks read.
pub record FieldSchema : Type 0 where
  pub name : String
  pub kind : String
  pub connection_type : Option String

-- A class of the registry.
pub record NodeClass : Type 0 where
  pub fields : List FieldSchema
  pub ai_visible : Bool

abbrev pub Registry : Type 0
Registry = List (String × NodeClass)

pub record Connection : Type 0 where
  pub id : String
  pub kind : Value

-- The errors, by their code.
pub data ReferenceError : Type 0 where
  unknown_node_type forbidden_node_type : String → String → ReferenceError
  unknown_connection : String → String → Value → ReferenceError
  connection_type_mismatch : String → String → Value → String → Value → ReferenceError

-- `str(v or "")`.
unfoldable pub text_or_empty : Python → Value → String
text_or_empty py v = if truthy v then text_of py v else ""

-- `_normalize_connection_type`, on the characters.
unfoldable pub normalize_connection_type : Python → Value → List ℕ
normalize_connection_type py v =
    let raw = lower (strip (codes (text_or_empty py v))) in
    if codes_eq raw (codes "s3") then codes "bucket" else raw

-- `_connection_type_matches`.
unfoldable pub connection_type_matches : Python → Value → Value → Bool
connection_type_matches py required actual =
    codes_eq (normalize_connection_type py required) (normalize_connection_type py actual)

-- What `conn_idx.get(conn_id)` gives: a list or a dict cannot be looked up.
pub data Entry : Type 0 where
  unhashable missing : Entry
  entry : Value → Entry

-- In `_connection_index` the last connection of an identifier stays, and none without one.
unfoldable pub index_get : String → List Connection → Entry
index_get k [] = missing
index_get k (c ∷ cs) = elim (index_get k cs) [
  | missing ↦ if not (k == "") && k == c.id then entry c.kind else missing
  | e ↦ e
]

unfoldable pub find_connection : List Connection → Value → Entry
find_connection cs (str s) = index_get s cs
find_connection cs (arr vs) = unhashable
find_connection cs (obj d) = unhashable
find_connection cs v = missing

-- The errors of one part and of the next; `none` where one raises.
abbrev pub both :
    Option (List ReferenceError) → Option (List ReferenceError) → Option (List ReferenceError)
both none b = none
both (some xs) none = none
both (some xs) (some ys) = some (xs ++ ys)

unfoldable pub check_type :
    Python → String → String → Value → Option String → Value → Option (List ReferenceError)
check_type py nid name v none actual = some []
check_type py nid name v (some required) actual =
    if not (required == "") && not (connection_type_matches py (str required) actual)
    then some (connection_type_mismatch nid name v required actual ∷ [])
    else some []

unfoldable pub check_entry :
    Python → String → FieldSchema → Value → Entry → Option (List ReferenceError)
check_entry py nid f v unhashable = none
check_entry py nid f v missing = some (unknown_connection nid f.name v ∷ [])
check_entry py nid f v (entry actual) = check_type py nid f.name v f.connection_type actual

abbrev pub is_picker : FieldSchema → Bool
is_picker f = f.kind == "connection_picker"

-- The value that the node's configuration gives the field.
abbrev pub chosen : Fields → FieldSchema → Value
chosen config f = get_default f.name null config

unfoldable pub check_field :
    Python → List Connection → String → Fields → FieldSchema → Option (List ReferenceError)
check_field py cs nid config f =
    if not (is_picker f)
    then some []
    else if not (truthy (chosen config f))
    then some []
    else check_entry py nid f (chosen config f) (find_connection cs (chosen config f))

unfoldable pub check_fields :
    Python → List Connection → String → Fields → List FieldSchema → Option (List ReferenceError)
check_fields py cs nid config [] = some []
check_fields py cs nid config (f ∷ fs) =
    both (check_field py cs nid config f) (check_fields py cs nid config fs)

-- `node.get("config") or {}`, if it is a dict.
unfoldable pub dict_or_empty : Value → Fields
dict_or_empty (obj d) = d
dict_or_empty v = end

abbrev pub node_id : Python → Fields → String
node_id py node = text_or_empty py (get_default "id" null node)

abbrev pub node_type : Python → Fields → String
node_type py node = text_or_empty py (get_default "type" null node)

abbrev pub node_config : Fields → Fields
node_config node = dict_or_empty (get_default "config" null node)

unfoldable pub check_class :
    Python → List Connection → Bool → Fields → Option NodeClass → Option (List ReferenceError)
check_class py cs is_fresh node none =
    some (unknown_node_type (node_id py node) (node_type py node) ∷ [])
check_class py cs is_fresh node (some c) =
    both
      (if is_fresh && not c.ai_visible
        then some (forbidden_node_type (node_id py node) (node_type py node) ∷ [])
        else some [])
      (check_fields py cs (node_id py node) (node_config node) c.fields)

-- One turn of the loop; what is no dict is passed over.
unfoldable pub check_node :
    Python → Registry → List Connection → Bool → Value → Option (List ReferenceError)
check_node py registry cs is_fresh (obj node) =
    check_class py cs is_fresh node (lookup (node_type py node) registry)
check_node py registry cs is_fresh v = some []

unfoldable pub check_nodes :
    Python → Registry → List Connection → Bool → List Value → Option (List ReferenceError)
check_nodes py registry cs is_fresh [] = some []
check_nodes py registry cs is_fresh (v ∷ vs) =
    both (check_node py registry cs is_fresh v) (check_nodes py registry cs is_fresh vs)

-- `workflow.get("nodes") or []`, if it is a list.
unfoldable pub list_or_empty : Value → List Value
list_or_empty (arr vs) = list_of vs
list_or_empty v = []

abbrev pub workflow_nodes : Fields → List Value
workflow_nodes workflow = list_or_empty (get_default "nodes" null workflow)

-- `none` where the call raises.
unfoldable pub validate_workflow_references :
    Python → Registry → List Connection → Bool → Fields → Option (List ReferenceError)
validate_workflow_references py registry cs is_fresh workflow =
    check_nodes py registry cs is_fresh (workflow_nodes workflow)

abbrev inline_conn_fields : List String
inline_conn_fields =
    "connection_string" ∷ "conn_string" ∷ "connection_uri" ∷ "uri" ∷ "url" ∷ "host" ∷ "hostname"
    ∷ "endpoint" ∷ "bucket" ∷ "smtp_host" ∷ "server" ∷ []

-- `has_inline`.
unfoldable pub has_inline : Python → Fields → Bool
has_inline py config =
    any (λ k. not (is_empty (strip (codes (text_or_empty py (get_default k null config))))))
      inline_conn_fields

-- A gap, without its message, which says whether a connection of the type is there.
pub record Gap : Type 0 where
  pub node_id : String
  pub field : String
  pub connection_type : String
  pub has_matching : Bool

-- `getattr(field, "connection_type", None) or "data"`.
unfoldable pub type_or_data : Option String → String
type_or_data none = "data"
type_or_data (some t) = if t == "" then "data" else t

unfoldable pub field_gaps : Python → List Connection → String → Fields → FieldSchema → List Gap
field_gaps py cs nid config f =
    if not (is_picker f) || truthy (chosen config f) || has_inline py config
    then []
    else record {
      node_id = nid;
      field = f.name;
      connection_type = type_or_data f.connection_type;
      has_matching =
          any (λ c. connection_type_matches py (str (type_or_data f.connection_type)) c.kind) cs;
    }
      ∷ []

unfoldable pub fields_gaps :
    Python → List Connection → String → Fields → List FieldSchema → List Gap
fields_gaps py cs nid config [] = []
fields_gaps py cs nid config (f ∷ fs) =
    field_gaps py cs nid config f ++ fields_gaps py cs nid config fs

unfoldable pub class_gaps : Python → List Connection → Fields → Option NodeClass → List Gap
class_gaps py cs node none = []
class_gaps py cs node (some c) = fields_gaps py cs (node_id py node) (node_config node) c.fields

unfoldable pub node_gaps : Python → Registry → List Connection → Value → List Gap
node_gaps py registry cs (obj node) = class_gaps py cs node (lookup (node_type py node) registry)
node_gaps py registry cs v = []

unfoldable pub nodes_gaps : Python → Registry → List Connection → List Value → List Gap
nodes_gaps py registry cs [] = []
nodes_gaps py registry cs (v ∷ vs) = node_gaps py registry cs v ++ nodes_gaps py registry cs vs

unfoldable pub detect_setup_gaps : Python → Registry → List Connection → Fields → List Gap
detect_setup_gaps py registry cs workflow = nodes_gaps py registry cs (workflow_nodes workflow)

-- ===== src/Tests/Validator.antt =====
-- The reference checks on a small workflow.
use citra_flows.Common.{◌≡◌, ◌≢◌, refl, ◌↔◌, true, none, some, List, [], ◌∷◌, All}
use citra_flows.Common.Dict.{lookup}
use citra_flows.Value.{
  Value, Fields, str, arr, obj, nil, cons, end, field, get, get_default, truthy, strip, lower,
}
use citra_flows.Logic.{text_of}
use citra_flows.Validator.{
  Registry, Connection, unknown_connection, text_or_empty, normalize_connection_type,
  connection_type_matches, index_get, find_connection, check_type, check_entry, check_field,
  check_fields, dict_or_empty, check_class, check_node, check_nodes, list_or_empty, workflow_nodes,
  validate_workflow_references, has_inline, field_gaps, fields_gaps, class_gaps, node_gaps,
  nodes_gaps, detect_setup_gaps,
}
use citra_flows.Validator.Clean.{IsCleanNode, validate_workflow_references-clean}
use citra_flows.Tests.Logic.{python}

unfoldable validation : Unit {0}
unfolding lookup get get_default truthy strip lower text_of text_or_empty normalize_connection_type
    connection_type_matches index_get find_connection check_type check_entry check_field
    check_fields dict_or_empty check_class check_node check_nodes list_or_empty
    validate_workflow_references has_inline field_gaps fields_gaps class_gaps node_gaps nodes_gaps
    detect_setup_gaps
validation = tt

abbrev registry : Registry
registry =
    (
      "s3_reader",
      record {
        fields =
            record {
              name = "connection_id";
              kind = "connection_picker";
              connection_type = some "s3";
            }
            ∷ [];
        ai_visible = true;
      },
    )
    ∷ []

abbrev saved : List Connection
saved = record { id = "c1"; kind = str "bucket" } ∷ []

-- A workflow of one reader, with its connection.
abbrev reads : Value → Fields
reads connection =
    field "nodes"
      (arr (
        cons
          (obj (
            field "id" (str "n") (
              field "type" (str "s3_reader")
                (field "config" (obj (field "connection_id" connection end)) end))))
          nil))
      end

validate_workflow_references-clean_example :
    (validate_workflow_references python registry saved true (reads (str "c1")) ≡ some [])
    ↔ All (IsCleanNode python registry saved true) (workflow_nodes (reads (str "c1")))
validate_workflow_references-clean_example =
    validate_workflow_references-clean python saved registry true (reads (str "c1"))

-- A connection that is not saved is an error, a list in its place raises.
dangling :
    validate_workflow_references python registry saved true (reads (str "c2"))
    ≡ some (unknown_connection "n" "connection_id" (str "c2") ∷ [])
unfolding validation
dangling = refl

list_raises :
    validate_workflow_references python registry saved true (reads (arr (cons (str "c1") nil)))
    ≡ none
unfolding validation
list_raises = refl

gap : (detect_setup_gaps python registry saved (reads (str ""))) ≢ []
unfolding validation
gap = λ e. cc

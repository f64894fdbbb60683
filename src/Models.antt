-- ===== src/Models.antt =====
-- citra_workflow/models.py: the enums and records of workflows and of their runs. The fields that
-- a run only copies (identifiers, names, owners, positions, start times) are left out.
pub mod NodeType
use citra_flows.Common.{ℕ, String, Option, List}
use citra_flows.Value.{ℤ, Value, Fields}
use NodeType.{NodeType as Kind}

pub data ExecutionStatus : Type 0 where
  pending running completed failed cancelled timed_out waiting_approval paused : ExecutionStatus
  resuming : ExecutionStatus

pub data NodeExecutionStatus : Type 0 where
  pending running completed failed skipped waiting : NodeExecutionStatus

-- The texts that a run stores as errors, by what is formatted into them.
pub data Message : Type 0 where
  text : String → Message
  -- "Workflow has no root node (trigger). …"
  no_root : Message
  -- "Workflow exceeded max step limit (…)"
  step_limit : ℕ → Message
  -- `str` of a KeyError
  missing_key : String → Message
  -- `str` of the AttributeError of a `.get` on what is no dict
  no_attribute_get : Message
  -- "Unknown node type: …", "Node timed out after …s", "Workflow execution timed out after …s"
  unknown_type : Kind → Message
  node_timed_out : Message
  execution_timed_out : Message
  -- "Node … (…) failed: …"
  node_failed : String → String → Message → Message
  cancelled_by_user : Message
  approval_rejected : Message

pub record NodeDefinition : Type 0 where
  pub id : String
  pub kind : Kind
  pub label : String
  pub config : Fields

pub record EdgeDefinition : Type 0 where
  pub source : String
  pub target : String
  pub source_handle : Option String
  pub label : Option String

pub record WorkflowDefinition : Type 0 where
  pub nodes : List NodeDefinition
  pub edges : List EdgeDefinition
  pub variables : Fields
  pub max_run_llm_calls : Option ℤ

pub record NodeExecutionResult : Type 0 where
  pub node_id : String
  pub status : NodeExecutionStatus
  pub output_data : Value
  pub error : Option Message
  pub retry_count : ℤ
  pub retry_errors : List Message

pub record WorkflowExecution : Type 0 where
  pub status : ExecutionStatus
  pub trigger_data : Fields
  pub current_node : Option String
  pub paused_at_node : Option String
  pub approval_id : Option String
  pub node_results : List (String × NodeExecutionResult)
  pub variables : Fields
  pub error : Option Message
  pub completed_at : Option ℕ

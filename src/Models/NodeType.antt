-- ===== src/Models/NodeType.antt =====
-- citra_workflow/models.py: the members of the enum `NodeType`, by the values that documents hold.
use Prim.Native.String.{String, ◌++◌}

pub data NodeType : Type 0 where
  manual_trigger scheduled_trigger webhook_trigger start_node sql_source mongo_source : NodeType
  csv_source api_source vector_search mcp_server vector_embed reranker s3_source : NodeType
  sftp_source ftp_folder_source sftp_folder_source s3_folder_source file_fetch ai_agent : NodeType
  llm_processor custom_llm rules_engine data_transform classifier extractor summarizer : NodeType
  validator deduplicator merge_data code_block ocr audio_transcribe vision_llm condition : NodeType
  switch_router loop parallel_split merge_wait human_approval delay set_variable sql_writer :
      NodeType
  pdf_export excel_export csv_export email_sender bucket_writer sftp_writer webhook_output :
      NodeType
  file_download notify workflow_state_get workflow_state_set : NodeType

-- `t.value`.
unfoldable pub value : NodeType → String
value manual_trigger = "manual_trigger"
value scheduled_trigger = "scheduled_trigger"
value webhook_trigger = "webhook_trigger"
value start_node = "start_node"
value sql_source = "sql_source"
value mongo_source = "mongo_source"
value csv_source = "csv_source"
value api_source = "api_source"
value vector_search = "vector_search"
value mcp_server = "mcp_server"
value vector_embed = "vector_embed"
value reranker = "reranker"
value s3_source = "s3_source"
value sftp_source = "sftp_source"
value ftp_folder_source = "ftp_folder_source"
value sftp_folder_source = "sftp_folder_source"
value s3_folder_source = "s3_folder_source"
value file_fetch = "file_fetch"
value ai_agent = "ai_agent"
value llm_processor = "llm_processor"
value custom_llm = "custom_llm"
value rules_engine = "rules_engine"
value data_transform = "data_transform"
value classifier = "classifier"
value extractor = "extractor"
value summarizer = "summarizer"
value validator = "validator"
value deduplicator = "deduplicator"
value merge_data = "merge_data"
value code_block = "code_block"
value ocr = "ocr"
value audio_transcribe = "audio_transcribe"
value vision_llm = "vision_llm"
value condition = "condition"
value switch_router = "switch_router"
value loop = "loop"
value parallel_split = "parallel_split"
value merge_wait = "merge_wait"
value human_approval = "human_approval"
value delay = "delay"
value set_variable = "set_variable"
value sql_writer = "sql_writer"
value pdf_export = "pdf_export"
value excel_export = "excel_export"
value csv_export = "csv_export"
value email_sender = "email_sender"
value bucket_writer = "bucket_writer"
value sftp_writer = "sftp_writer"
value webhook_output = "webhook_output"
value file_download = "file_download"
value notify = "notify"
value workflow_state_get = "workflow_state_get"
value workflow_state_set = "workflow_state_set"

-- `t.name`.
unfoldable pub name : NodeType → String
name manual_trigger = "MANUAL_TRIGGER"
name scheduled_trigger = "SCHEDULED_TRIGGER"
name webhook_trigger = "WEBHOOK_TRIGGER"
name start_node = "START_NODE"
name sql_source = "SQL_SOURCE"
name mongo_source = "MONGO_SOURCE"
name csv_source = "CSV_SOURCE"
name api_source = "API_SOURCE"
name vector_search = "VECTOR_SEARCH"
name mcp_server = "MCP_SERVER"
name vector_embed = "VECTOR_EMBED"
name reranker = "RERANKER"
name s3_source = "S3_SOURCE"
name sftp_source = "SFTP_SOURCE"
name ftp_folder_source = "FTP_FOLDER_SOURCE"
name sftp_folder_source = "SFTP_FOLDER_SOURCE"
name s3_folder_source = "S3_FOLDER_SOURCE"
name file_fetch = "FILE_FETCH"
name ai_agent = "AI_AGENT"
name llm_processor = "LLM_PROCESSOR"
name custom_llm = "CUSTOM_LLM"
name rules_engine = "RULES_ENGINE"
name data_transform = "DATA_TRANSFORM"
name classifier = "CLASSIFIER"
name extractor = "EXTRACTOR"
name summarizer = "SUMMARIZER"
name validator = "VALIDATOR"
name deduplicator = "DEDUPLICATOR"
name merge_data = "MERGE_DATA"
name code_block = "CODE_BLOCK"
name ocr = "OCR"
name audio_transcribe = "AUDIO_TRANSCRIBE"
name vision_llm = "VISION_LLM"
name condition = "CONDITION"
name switch_router = "SWITCH_ROUTER"
name loop = "LOOP"
name parallel_split = "PARALLEL_SPLIT"
name merge_wait = "MERGE_WAIT"
name human_approval = "HUMAN_APPROVAL"
name delay = "DELAY"
name set_variable = "SET_VARIABLE"
name sql_writer = "SQL_WRITER"
name pdf_export = "PDF_EXPORT"
name excel_export = "EXCEL_EXPORT"
name csv_export = "CSV_EXPORT"
name email_sender = "EMAIL_SENDER"
name bucket_writer = "BUCKET_WRITER"
name sftp_writer = "SFTP_WRITER"
name webhook_output = "WEBHOOK_OUTPUT"
name file_download = "FILE_DOWNLOAD"
name notify = "NOTIFY"
name workflow_state_get = "WORKFLOW_STATE_GET"
name workflow_state_set = "WORKFLOW_STATE_SET"

-- `str(t)`: the enum defines no `__str__`, and that of `Enum` gives the class and the member's name.
unfoldable pub to_str : NodeType → String
unfolding name
to_str t = "NodeType." ++ name t

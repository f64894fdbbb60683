-- ===== src/Queue/Job.antt =====
-- citra_queue/queue.py: `Job`, its JSON dict, and reading the entries of a stream. JSON itself is
-- the json module's: `dumps` and `loads` of the environment. Times are whole numbers of ticks.
use citra_flows.Common.{ℕ, String, true, false, Option, none, some, List, [], ◌∷◌, if◌then◌else◌}
use citra_flows.Value.{
  codes, ℤ, pos, Value, Fields, null, bool, int, str, obj, end, field, get, get_default, truthy,
}
use citra_flows.Executor.Branch.{parse_int}

pub record Json : Type 0 where
  pub dumps : Fields → String
  -- `none` where it raises or gives no dict
  pub loads : String → Option Fields
  -- `int(v)` of an object that is no bool, int or text, `none` where it raises
  pub int_of : Value → Option ℤ
  -- `time.time()` at the reading of an entry
  pub now : ℕ
  pub default_max_retries : ℤ

-- `Job`. Its dataclass does not check its fields.
pub record Job : Type 0 where
  pub id : Value
  pub handler : Value
  pub payload : Value
  pub queue : Value
  pub enqueued_at : Value
  pub retries : ℤ
  pub max_retries : ℤ
  pub tenant_id : Value
  pub request_id : Value
  pub stream_id : Option String

-- The dict of `to_json`.
unfoldable pub job_fields : Job → Fields
job_fields job = field "id" job.id (
    field "handler" job.handler (
      field "payload" job.payload (
        field "queue" job.queue (
          field "enqueued_at" job.enqueued_at (
            field "retries" (int job.retries) (
              field "max_retries" (int job.max_retries)
                (field "tenant_id" job.tenant_id (field "request_id" job.request_id end))))))))

-- `to_json`.
unfoldable pub to_json : Json → Job → String
to_json json job = json.dumps (job_fields job)

-- `v or w`.
abbrev pub or_else : Value → Value → Value
or_else v w = if truthy v then v else w

-- `int(v)`.
unfoldable pub cast_int : Json → Value → Option ℤ
cast_int json (bool true) = some (pos 1)
cast_int json (bool false) = some (pos 0)
cast_int json (int n) = some n
cast_int json (str t) = parse_int (codes t)
cast_int json v = json.int_of v

unfoldable pub job_of :
    Json → Fields → Option String → Option Value → Option Value → Option ℤ → Option ℤ → Option Job
job_of json d stream_id (some id) (some handler) (some retries) (some max_retries) = some (record {
  id = id;
  handler = handler;
  payload = or_else (get_default "payload" null d) (obj end);
  queue = or_else (get_default "queue" null d) (str "default");
  enqueued_at = or_else (get_default "enqueued_at" null d) (int (pos json.now));
  retries = retries;
  max_retries = max_retries;
  tenant_id = get_default "tenant_id" null d;
  request_id = get_default "request_id" null d;
  stream_id = stream_id;
})
job_of json d stream_id id handler retries max_retries = none

-- The job of a dict, `none` where a key is missing or a number is malformed.
unfoldable pub of_fields : Json → Option String → Fields → Option Job
of_fields json stream_id d =
    job_of json d stream_id (get "id" d) (get "handler" d)
      (cast_int json (or_else (get_default "retries" null d) (int (pos 0))))
      (cast_int json (or_else (get_default "max_retries" null d) (int json.default_max_retries)))

unfoldable pub of_loaded : Json → Option String → Option Fields → Option Job
of_loaded json stream_id none = none
of_loaded json stream_id (some d) = of_fields json stream_id d

-- `from_json`, `none` where it raises.
unfoldable pub from_json : Json → String → Option String → Option Job
from_json json blob stream_id = of_loaded json stream_id (json.loads blob)

-- An entry of a stream: its identifier, and its "data" field where it has a nonempty one.
abbrev pub Entry : Type 0
Entry = String × Option String

abbrev pub read_entry : Json → Entry → Option Job
read_entry json (id, none) = none
read_entry json (id, some blob) = from_json json blob (some id)

abbrev pub cons_job : Option Job → List Job → List Job
cons_job none jobs = jobs
cons_job (some job) jobs = job ∷ jobs

-- `_parse_entries`: an entry that cannot be read is skipped.
unfoldable pub parse_entries : Json → List Entry → List Job
parse_entries json [] = []
parse_entries json (e ∷ entries) = cons_job (read_entry json e) (parse_entries json entries)

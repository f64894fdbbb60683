-- ===== src/Queue/RoundTrip.antt =====
-- What a job becomes on its way through a stream.
use citra_flows.Common.{zero, suc, String, ◌≡◌, refl, true, Option, some}
use citra_flows.Value.{
  ℤ, pos, negsuc, Value, Fields, int, str, obj, end, field, get, get_default, truthy,
}
use citra_flows.Queue.Job.{
  Json, Job, job_fields, to_json, or_else, cast_int, job_of, of_fields, of_loaded, from_json,
}

-- Documented behaviour of the json module on the dicts of jobs.
abbrev pub ReadsBack : Json → Job → Type 0
ReadsBack json job = json.loads (json.dumps (job_fields job)) ≡ some (job_fields job)

-- `int(d.get("max_retries") or DEFAULT_MAX_RETRIES)` of a job that was written with `n`.
abbrev pub read_max_retries : Json → ℤ → ℤ
read_max_retries json (pos zero) = json.default_max_retries
read_max_retries json n = n

retries-read : (json : Json) (n : ℤ) → cast_int json (or_else (int n) (int (pos 0))) ≡ some n
unfolding cast_int truthy
retries-read json (pos zero) = refl
retries-read json (pos (suc n)) = refl
retries-read json (negsuc n) = refl

max_retries-read :
    (json : Json) (n : ℤ)
    → cast_int json (or_else (int n) (int json.default_max_retries))
      ≡ some (read_max_retries json n)
unfolding cast_int truthy
max_retries-read json (pos zero) = refl
max_retries-read json (pos (suc n)) = refl
max_retries-read json (negsuc n) = refl

or_else-true : (v w : Value) → truthy v ≡ true → or_else v w ≡ v
or_else-true v w h = rw h refl

or_else-obj : (d : Fields) → or_else (obj d) (obj end) ≡ obj d
unfolding truthy
or_else-obj end = refl
or_else-obj (field k v d) = refl

-- The last step of reading, when the parts that may be missing are there.
job_of-fields :
    (json : Json) (job : Job) (stream_id : Option String) (r m : Option ℤ)
    → or_else job.payload (obj end) ≡ job.payload
    → or_else job.queue (str "default") ≡ job.queue
    → or_else job.enqueued_at (int (pos json.now)) ≡ job.enqueued_at
    → r ≡ some job.retries
    → m ≡ some (read_max_retries json job.max_retries)
    → job_of json (job_fields job) stream_id (some job.id) (some job.handler) r m
      ≡ some (record job {
        max_retries = read_max_retries json job.max_retries;
        stream_id = stream_id;
      })
unfolding job_of job_fields get_default get
job_of-fields json job stream_id r m p q t e f = rw (e, f, p, q, t) refl

of_fields-job_fields :
    (json : Json) (job : Job) (stream_id : Option String) (d : Fields)
    → job.payload ≡ obj d
    → truthy job.queue ≡ true
    → truthy job.enqueued_at ≡ true
    → of_fields json stream_id (job_fields job)
      ≡ some (record job {
        max_retries = read_max_retries json job.max_retries;
        stream_id = stream_id;
      })
unfolding of_fields get get_default job_fields
of_fields-job_fields json job stream_id d p q t =
    job_of-fields json job stream_id _ _ (rw p (or_else-obj d)) (or_else-true _ _ q)
      (or_else-true _ _ t) (retries-read json job.retries) (max_retries-read json job.max_retries)

-- A job that has a dict for its payload, a queue and a time is read back as it was written, under
-- the entry's identifier, but for a `max_retries` of 0, which is read back as the default.
pub from_json-to_json :
    (json : Json) (job : Job) (stream_id : Option String) (d : Fields)
    → ReadsBack json job
    → job.payload ≡ obj d
    → truthy job.queue ≡ true
    → truthy job.enqueued_at ≡ true
    → from_json json (to_json json job) stream_id
      ≡ some (record job {
        max_retries = read_max_retries json job.max_retries;
        stream_id = stream_id;
      })
unfolding from_json of_loaded to_json
from_json-to_json json job stream_id d back p q t =
    rw back (of_fields-job_fields json job stream_id d p q t)

-- ===== src/Tests/Queue.antt =====
-- citra_queue/queue.py at sample inputs. The sample JSON module reads back one dict.
use citra_flows.Common.{
  ℕ, zero, suc, if◌then◌else◌, ap, ◌+◌, ◌<◌, String, ◌≡◌, refl, true, false, Option, some, none,
  List, [], ◌∷◌, In, arith, nat_eq,
}
use citra_flows.Value.{ℤ, pos, Value, get, null, str, int, obj, end, truthy}
use citra_flows.Queue.Job.{Json, Job, job_fields, to_json, from_json}
use citra_flows.Queue.RoundTrip.{ReadsBack, from_json-to_json}
use citra_flows.Queue.Session.{
  hset, expire, xack, xdel, Reply, applied, not_applied, Session, Ended, new_session, returned,
  raised,
}
use citra_flows.Queue.Consumer.{will_retry, failed_once, status_if, mark_failed}
use citra_flows.Queue.Failures.{mark_failed-loses}
use citra_flows.Worker.{Handled, transient, process_job}
use citra_flows.Queue.Reader.{Reclaimed, claim_stale}
use citra_flows.Queue.Claims.{IsClaimed, claim_stale-Claimed}

abbrev sample : Job
sample = record {
  id = str "1";
  handler = str "workflow.run";
  payload = obj end;
  queue = str "default";
  enqueued_at = int (pos 7);
  retries = pos 0;
  max_retries = pos 3;
  tenant_id = null;
  request_id = null;
  stream_id = some "1-0";
}

queue_full : truthy sample.queue ≡ true
unfolding truthy
queue_full = refl

time_full : truthy sample.enqueued_at ≡ true
unfolding truthy
time_full = refl

abbrev unary : ℕ → String
unary zero = ""
unary (suc k) = String.◌∷◌ "x" (unary k)

abbrev count : String → ℕ
count String.[] = 0
count (String.◌∷◌ c s) = suc (count s)

count-unary : (k : ℕ) → count (unary k) ≡ k
count-unary zero = refl
count-unary (suc k) = ap suc (count-unary k)

abbrev number_in : Option Value → ℕ
number_in (some (int (pos k))) = k
number_in v = 0

-- It writes the number of retries alone, and reads the sample back with that number.
abbrev sample_json : Json
sample_json = record {
  dumps = λ d. unary (number_in (get "retries" d));
  loads = λ s. some (job_fields (record sample { retries = pos (count s) }));
  int_of = λ v. none;
  now = 9;
  default_max_retries = pos 3;
}

sample-ReadsBack : (k : ℕ) → ReadsBack sample_json (record sample { retries = pos k })
unfolding job_fields get
sample-ReadsBack k = ap (λ n. some (job_fields (record sample { retries = pos n }))) (count-unary k)

from_json-to_json_example :
    from_json sample_json (to_json sample_json sample) (some "2-0")
    ≡ some (record sample { stream_id = some "2-0" })
from_json-to_json_example =
    from_json-to_json sample_json sample (some "2-0") end (sample-ReadsBack 0) refl queue_full
      time_full

abbrev always : ℕ → Reply
always k = applied

abbrev five_ticks : ℤ → ℕ
five_ticks k = 5

abbrev session_of : Ended (Unit {0}) → Session
session_of (returned u s) = s
session_of (raised s) = s

-- The handler fails, and the job is parked for a retry.
abbrev failing : Option (Job → Handled)
failing = some (λ job. transient)

abbrev after_failure : Session
after_failure = session_of (process_job sample_json always five_ticks sample failing new_session)

-- Redis fails at the fifth command.
abbrev but_fifth : ℕ → Reply
but_fifth k = if nat_eq k 4 then not_applied else applied

good_before : (k : ℕ) → k < 0 + 4 → but_fifth k ≡ applied
good_before k lt = ground arith

mark_failed-loses_example :
    mark_failed sample_json but_fifth five_ticks sample false new_session
    ≡ raised (record {
      sent = 5;
      log =
          xdel "1-0"
          ∷ xack "1-0"
          ∷ expire (str "1")
          ∷ hset (str "1") (status_if (will_retry (failed_once sample) false)) (pos 1)
          ∷ [];
    })
mark_failed-loses_example =
    mark_failed-loses sample_json but_fifth five_ticks sample false new_session "1-0" refl
      good_before refl

-- A stale entry of the default queue that has been delivered nine times.
abbrev crashed : Reclaimed
crashed = record {
  queue = str "default";
  answer = some (("1-0", some (to_json sample_json sample)) ∷ []);
  delivered = some (("1-0", 9) ∷ []);
}

claim_stale-Claimed_example :
    (claimed : List Job) × (s' : Session) × (claim_stale sample_json always five_ticks
        (crashed ∷ [])
        new_session
      ≡ returned claimed s')
    × ((q : Reclaimed) → In q (crashed ∷ []) → IsClaimed sample_json q claimed s'.log)
claim_stale-Claimed_example =
    claim_stale-Claimed sample_json always five_ticks (crashed ∷ []) new_session
      ((("1-0", some (to_json sample_json sample)) ∷ [], refl), tt)

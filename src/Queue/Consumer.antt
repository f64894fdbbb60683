-- ===== src/Queue/Consumer.antt =====
-- citra_queue/queue.py: `enqueue`, `mark_running`, `_ack`, `mark_done`, `mark_failed`, and the part
-- of `claim_stale` that decides on the reclaimed jobs of a queue.
use citra_flows.Common.{
  ℕ, zero, suc, String, Bool, true, false, not, ◌&&◌, Option, none, some, List, [], ◌∷◌, ◌++◌, ltb,
  if◌then◌else◌, ◌==◌, max,
}
use citra_flows.Common.Dict.{lookup}
use citra_flows.Value.{ℤ, pos, negsuc, Value, Fields, int, str, obj}
use citra_flows.Queue.Job.{Json, Job, to_json}
use citra_flows.Queue.Session.{
  Status, hset, hset_result, expire, xack, xdel, zadd_retry, xadd_dlq, enqueued, signal, Reply,
  Session, Ended, returned, raised, send,
}

-- `n + 1` and `m < n` on integers.
abbrev pub succ : ℤ → ℤ
succ (pos n) = pos (suc n)
succ (negsuc zero) = pos 0
succ (negsuc (suc n)) = negsuc n

abbrev pub int_ltb : ℤ → ℤ → Bool
int_ltb (pos m) (pos n) = ltb m n
int_ltb (pos m) (negsuc n) = false
int_ltb (negsuc m) (pos n) = true
int_ltb (negsuc m) (negsuc n) = ltb n m

-- `job.retries += 1`.
abbrev pub failed_once : Job → Job
failed_once job = record job { retries = succ job.retries }

-- `(not permanent) and job.retries < job.max_retries`, of the job that has failed once more.
unfoldable pub will_retry : Job → Bool → Bool
will_retry job permanent = not permanent && int_ltb job.retries job.max_retries

abbrev pub stream_id_of : Option String → Option String
stream_id_of none = none
stream_id_of (some id) = if id == "" then none else some id

abbrev pub status_if : Bool → Status
status_if true = Status.queued
status_if false = Status.failed

-- `times > max(1, job.max_retries)`.
unfoldable pub is_crash_loop : ℕ → ℤ → Bool
is_crash_loop times (pos n) = ltb (max 1 n) times
is_crash_loop times (negsuc n) = ltb 1 times

abbrev times_of : List (String × ℕ) → Option String → ℕ
times_of delivered none = 1
times_of delivered (some id) = elim (lookup id delivered) [ none ↦ 1 | some n ↦ n ]

module _ (json : Json) (replies : ℕ → Reply) (delay : ℤ → ℕ) where
  -- The job that `enqueue` builds, under a fresh identifier.
  abbrev new_job : String → String → Fields → String → ℤ → Value → Value → Job
  new_job id handler payload queue max_retries tenant_id request_id = record {
    id = str id;
    handler = str handler;
    payload = obj payload;
    queue = str queue;
    enqueued_at = int (pos json.now);
    retries = pos 0;
    max_retries = max_retries;
    tenant_id = tenant_id;
    request_id = request_id;
    stream_id = none;
  }

  -- `enqueue`: one transaction.
  unfoldable pub enqueue :
      String → String → Fields → String → ℤ → Value → Value → Session → Ended Value
  enqueue id handler payload queue max_retries tenant_id request_id =
      send replies
        (enqueued (str id) (str queue)
          (to_json json (new_job id handler payload queue max_retries tenant_id request_id)))
        (returned (str id)) raised

  -- `mark_running`.
  unfoldable pub mark_running : Job → Session → Ended (Unit {0})
  mark_running job =
      send replies (hset job.id Status.running job.retries)
        (send replies (expire job.id) (returned tt) raised) raised

  -- `_ack`, which catches every exception, followed by `next`.
  unfoldable pub ack {ℓ} : {A : Type ℓ} → Option String → (Session → A) → Session → A
  ack none next = next
  ack (some id) next = send replies (xack id) (send replies (xdel id) next next) next

  -- `mark_done`.
  unfoldable pub mark_done : Job → Value → Session → Ended (Unit {0})
  mark_done job result =
      send replies (hset_result job.id result)
        (send replies (expire job.id)
          (ack (stream_id_of job.stream_id) (send replies (signal job.id) (returned tt) raised))
          raised)
        raised

  -- What `mark_failed` does last: the job is parked for a retry, or dead-lettered.
  unfoldable pub park : Bool → Job → Session → Ended Bool
  park true job =
      send replies (zadd_retry job.queue (to_json json job) (delay job.retries)) (returned true)
        raised
  park false job =
      send replies (xadd_dlq job.queue (to_json json job))
        (send replies (signal job.id) (returned false) raised) raised

  -- `mark_failed`.
  unfoldable pub mark_failed : Job → Bool → Session → Ended Bool
  mark_failed before permanent =
      let job = failed_once before in
      let again = will_retry job permanent in
      send replies (hset job.id (status_if again) job.retries)
        (send replies (expire job.id) (ack (stream_id_of job.stream_id) (park again job)) raised)
        raised

  abbrev text_or_empty : Option String → String
  text_or_empty none = ""
  text_or_empty (some id) = id

  -- After a dead-lettered job, and "fall back to re-delivery rather than drop".
  abbrev settled : Session → List Job × Session
  settled s = ([], s)

  abbrev fall_back : Job → Session → List Job × Session
  fall_back job s = (job ∷ [], s)

  -- A crash-looping job is dead-lettered, with what `claim_stale` then claims: nothing, or the job
  -- where a command raises.
  unfoldable pub dead_letter : Value → ℕ → Job → Session → List Job × Session
  dead_letter queue times job =
      send replies (xadd_dlq queue (to_json json job))
        (send replies (xack (text_or_empty job.stream_id))
          (send replies (xdel (text_or_empty job.stream_id))
            (send replies (hset job.id Status.failed (pos times))
              (send replies (signal job.id) settled (fall_back job)) (fall_back job))
            (fall_back job))
          (fall_back job))
        (fall_back job)

  unfoldable pub dead_letter_if : Bool → Value → ℕ → Job → Session → List Job × Session
  dead_letter_if true queue times job s = dead_letter queue times job s
  dead_letter_if false queue times job s = (job ∷ [], s)

  -- One reclaimed job.
  unfoldable pub reclaim : Value → List (String × ℕ) → Job → Session → List Job × Session
  reclaim queue delivered job s =
      let times = times_of delivered job.stream_id in
      dead_letter_if (is_crash_loop times job.max_retries) queue times job s

  -- The reclaimed jobs of a queue: those that `claim_stale` claims.
  unfoldable pub reclaim_all : Value → List (String × ℕ) → List Job → Session → List Job × Session
  reclaim_all queue delivered [] s = ([], s)
  reclaim_all queue delivered (job ∷ jobs) s =
      let (claimed, s1) = reclaim queue delivered job s in
      let (rest, s2) = reclaim_all queue delivered jobs s1 in (claimed ++ rest, s2)

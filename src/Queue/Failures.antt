-- ===== src/Queue/Failures.antt =====
-- What a failed job comes to: one retry or one dead letter, and how many retries there are.
use citra_flows.Common.{
  ℕ, zero, suc, ◌+◌, ◌≤◌, ◌<◌, String, ◌≡◌, refl, sym, ap, subst, ◌∙◌, Bool, true, false, Option,
  none, some, List, ◌∷◌, arith, ltb,
}
use citra_flows.Value.{ℤ, pos, Fields, obj, truthy}
use citra_flows.Queue.Job.{Json, Job, to_json, from_json}
use citra_flows.Queue.RoundTrip.{ReadsBack, read_max_retries, from_json-to_json}
use citra_flows.Queue.Session.{
  Command, hset, expire, xack, xdel, zadd_retry, xadd_dlq, signal, Reply, applied, not_applied,
  Session, Ended, returned, raised, misses, on_reply, send_ind,
}
use citra_flows.Queue.Consumer.{
  succ, int_ltb, failed_once, will_retry, status_if, stream_id_of, ack, park, mark_failed,
}

-- What the log ends with where `mark_failed` returned `again` for the job.
abbrev pub Parked : String → (ℤ → ℕ) → Job → Bool → List Command → Type 0
Parked blob delay job true log =
    (older : List Command) × (log ≡ zadd_retry job.queue blob (delay job.retries) ∷ older)
Parked blob delay job false log =
    (older : List Command) × (log ≡ signal job.id ∷ xadd_dlq job.queue blob ∷ older)

record EndsParked (blob : String) (delay : ℤ → ℕ) (job : Job) (again : Bool) (o : Ended Bool)
    : Type 0 where
  at : (b : Bool) (s : Session) → o ≡ returned b s → (b ≡ again) × Parked blob delay job again s.log

module _ (json : Json) (replies : ℕ → Reply) (delay : ℤ → ℕ) where
  raised-EndsParked :
      (job : Job) (again : Bool) (s : Session)
      → EndsParked (to_json json job) delay job again (raised s)
  raised-EndsParked job again s = record { at = λ b s e. cc }

  pub ack_ind {ℓ κ} :
      {A : Type ℓ} (P : Ended A → Type κ) (id : Option String) (next : Session → Ended A)
      (s : Session)
      → ((s : Session) → P (next s))
      → P (ack json replies delay id next s)
  unfolding ack
  ack_ind P none next s h = h s
  ack_ind P (some id) next s h =
      send_ind P _ _ _ _ s (send_ind P _ _ _ _ _ (h _) (h _) (h _)) (h _) (h _)

  park-EndsParked :
      (again : Bool) (job : Job) (s : Session)
      → EndsParked (to_json json job) delay job again (park json replies delay again job s)
  unfolding park
  park-EndsParked true job s =
      let raise = raised-EndsParked job true in
      send_ind (EndsParked (to_json json job) delay job true) _ _ _ _ s
        (record { at = λ b s' e. (cc, (s.log, cc)) }) (raise _) (raise _)
  park-EndsParked false job s =
      let raise = raised-EndsParked job false in
      let P = EndsParked (to_json json job) delay job false in
      send_ind P _ _ _ _ s
        (send_ind P _ _ _ _ _ (record { at = λ b s' e. (cc, (s.log, cc)) }) (raise _) (raise _))
        (raise _) (raise _)

  mark-EndsParked :
      (job : Job) (permanent : Bool) (s : Session)
      → EndsParked
          (to_json json (failed_once job))
          delay
          (failed_once job)
          (will_retry (failed_once job) permanent)
          (mark_failed json replies delay job permanent s)
  unfolding mark_failed
  mark-EndsParked job permanent s =
      let job' = failed_once job in
      let again = will_retry job' permanent in
      let P = EndsParked (to_json json job') delay job' again in
      let raise = raised-EndsParked job' again in
      send_ind P _ _ _ _ s (send_ind P _ _ _ _ _ (acked _) (raise _) (raise _)) (raise _) (raise _)
    where
      acked :
          (s : Session)
          → EndsParked
              (to_json json (failed_once job))
              delay
              (failed_once job)
              (will_retry (failed_once job) permanent)
              (ack json replies delay
                (stream_id_of job.stream_id)
                (park json replies delay (will_retry (failed_once job) permanent) (failed_once job))
                s)
      acked s =
          ack_ind
            (EndsParked (to_json json (failed_once job)) delay (failed_once job)
              (will_retry (failed_once job) permanent))
            (stream_id_of job.stream_id)
            (park json replies delay (will_retry (failed_once job) permanent) (failed_once job)) s
            (park-EndsParked (will_retry (failed_once job) permanent) (failed_once job))

  -- Where `mark_failed` returns, the job has failed once more and what it returns is whether it is
  -- to be retried: then the last command was to park it in the retry set, and else to write it to
  -- the dead-letter stream and to signal its result.
  pub mark_failed-parks :
      (job : Job) (permanent : Bool) (s : Session) (b : Bool) (s' : Session)
      → mark_failed json replies delay job permanent s ≡ returned b s'
      → (b ≡ will_retry (failed_once job) permanent)
        × Parked (to_json json (failed_once job)) delay (failed_once job) b s'.log
  mark_failed-parks job permanent s b s' e =
      let (q, h) = (mark-EndsParked job permanent s).at b s' e in
      (
        q,
        subst (λ c. Parked (to_json json (failed_once job)) delay (failed_once job) c s'.log)
            (sym q) h,
      )

  park-misses :
      (again : Bool) (job : Job) (s : Session)
      → replies s.sent ≡ not_applied
      → park json replies delay again job s ≡ raised (misses s)
  unfolding park on_reply
  park-misses true job s h = rw h refl
  park-misses false job s h = rw h refl

  -- A failed job whose entry has an identifier is lost if Redis takes the first four commands and
  -- not the fifth: `mark_failed` raises when it has updated the hash of the job, set its expiry, and
  -- acknowledged and deleted its entry, and nothing else: it has neither parked the job for a retry
  -- nor dead-lettered it.
  pub mark_failed-loses :
      (job : Job) (permanent : Bool) (s : Session) (id : String)
      → stream_id_of job.stream_id ≡ some id
      → ((k : ℕ) → k < s.sent + 4 → replies k ≡ applied)
      → replies (s.sent + 4) ≡ not_applied
      → mark_failed json replies delay job permanent s
        ≡ raised (record {
          sent = s.sent + 5;
          log =
              xdel id
              ∷ xack id
              ∷ expire job.id
              ∷ hset job.id (status_if (will_retry (failed_once job) permanent)) (succ job.retries)
              ∷ s.log;
        })
  unfolding mark_failed on_reply ack
  mark_failed-loses job permanent s id i good bad =
      rw
        (
          good s.sent (omega arith),
          good (s.sent + 1) (omega arith),
          i,
          good (s.sent + 1 + 1) (omega arith),
          good (s.sent + 1 + 1 + 1) (omega arith),
        )
        (park-misses _ (failed_once job) _ (subst (λ k. replies k ≡ not_applied) four bad)
          ∙ ap
              (λ k. raised (record {
                sent = k;
                log =
                    xdel id
                    ∷ xack id
                    ∷ expire job.id
                    ∷ hset job.id (status_if (will_retry (failed_once job) permanent))
                        (succ job.retries)
                    ∷ s.log;
              }))
              five)
    where
      four : s.sent + 4 ≡ s.sent + 1 + 1 + 1 + 1
      four = omega arith

      five : s.sent + 1 + 1 + 1 + 1 + 1 ≡ s.sent + 5
      five = omega arith

ltb-true : (m n : ℕ) → m < n → ltb m n ≡ true
ltb-true m n h = ground arith

ltb-false : (m n : ℕ) → n ≤ m → ltb m n ≡ false
ltb-false m n h = ground arith

-- The job as it is handed out again after a transient failure, `none` where it is dead-lettered or
-- cannot be read back.
abbrev pub redelivered_if : Json → Option String → Job → Bool → Option Job
redelivered_if json stream_id job true = from_json json (to_json json job) stream_id
redelivered_if json stream_id job false = none

abbrev pub redelivered : Json → Option String → Option Job → Option Job
redelivered json stream_id none = none
redelivered json stream_id (some job) =
    redelivered_if json stream_id (failed_once job) (will_retry (failed_once job) false)

redelivered-if :
    (json : Json) (stream_id : Option String) (job : Job) (b : Bool)
    → int_ltb (succ job.retries) job.max_retries ≡ b
    → redelivered json stream_id (some job) ≡ redelivered_if json stream_id (failed_once job) b
unfolding will_retry
redelivered-if json stream_id job b e = ap (redelivered_if json stream_id (failed_once job)) e

-- After `n` transient failures.
abbrev pub after_failures : ℕ → Json → Option String → Job → Option Job
after_failures zero json stream_id job = some job
after_failures (suc n) json stream_id job =
    redelivered json stream_id (after_failures n json stream_id job)

module _ (json : Json) (stream_id : Option String) (job : Job) (d : Fields)
    (back : (k : ℕ) → ReadsBack json (record job { retries = pos k })) where
  -- A job that is read for the first time with `max_retries` n + 1 and fails each time is handed
  -- out again after each of its first n failures, as it was but for the count of its failures,
  -- and not after the next one: it gets n + 1 attempts in all.
  pub after_failures-budget :
      (n : ℕ)
      → job.payload ≡ obj d
      → truthy job.queue ≡ true
      → truthy job.enqueued_at ≡ true
      → job.retries ≡ pos 0
      → job.max_retries ≡ pos (suc n)
      → job.stream_id ≡ stream_id
      → ((j : ℕ)
          → j ≤ n
          → after_failures j json stream_id job ≡ some (record job { retries = pos j }))
        × (after_failures (suc n) json stream_id job ≡ none)
  after_failures-budget n p q t r m i = (budget, out)
    where
      same :
          (k : ℤ)
          → record job {
            retries = k;
            max_retries = read_max_retries json job.max_retries;
            stream_id = stream_id;
          }
            ≡ record job { retries = k }
      same k = rw (m, sym i) refl

      step :
          (j : ℕ)
          → j < n
          → redelivered json stream_id (some (record job { retries = pos j }))
            ≡ some (record job { retries = pos (suc j) })
      step j lt =
          redelivered-if json stream_id (record job { retries = pos j }) true
            (rw m (ltb-true (suc j) (suc n) (omega arith)))
          ∙ (from_json-to_json json (record job { retries = pos (suc j) }) stream_id d (back _) p q
                t
              ∙ ap some (same _))

      budget :
          (j : ℕ)
          → j ≤ n
          → after_failures j json stream_id job ≡ some (record job { retries = pos j })
      budget zero le = rw (sym r) refl
      budget (suc j) le =
          ap (redelivered json stream_id) (budget j (omega arith)) ∙ step j (omega arith)

      out : after_failures (suc n) json stream_id job ≡ none
      out =
          ap (redelivered json stream_id) (budget n (omega arith))
          ∙ redelivered-if json stream_id (record job { retries = pos n }) false
              (rw m (ltb-false (suc n) (suc n) (omega arith)))

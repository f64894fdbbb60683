-- ===== src/Queue/Reader.antt =====
-- citra_queue/queue.py: `_promote_due_retries` with its script, `consume_one` and `claim_stale`.
-- A queue's retry set is a list by rising time, its stream a list of blobs. What XREADGROUP,
-- XAUTOCLAIM and XPENDING answer is a parameter.
pub mod Promotion
use citra_flows.Common.{
  ℕ, zero, suc, ◌+◌, String, Bool, true, false, Option, none, some, List, [], ◌∷◌, ◌++◌, leb,
  if◌then◌else◌,
}
use citra_flows.Value.{ℤ, Value, str}
use citra_flows.Queue.Job.{Json, Job, Entry, parse_entries}
use citra_flows.Queue.Session.{Session, Reply, Ended, returned, raised}
use citra_flows.Queue.Consumer.{reclaim_all}

abbrev pub Retry : Type 0
Retry = List (String × ℕ)

-- `_PROMOTE_LUA`: the entries that are due by `now`, at most `limit`, go back onto the stream.
unfoldable pub promote : ℕ → ℕ → Retry → List String → Retry × List String
promote now zero retry stream = (retry, stream)
promote now (suc limit) [] stream = ([], stream)
promote now (suc limit) ((blob, ready_at) ∷ retry) stream =
    let moved = promote now limit retry (stream ++ blob ∷ []) in
    if leb ready_at now then moved else ((blob, ready_at) ∷ retry, stream)

-- `_promote_due_retries` on one queue: a script that raises changes nothing.
unfoldable pub promote_due_retries : Bool → ℕ → Retry → List String → Retry × List String
promote_due_retries true now retry stream = promote now 256 retry stream
promote_due_retries false now retry stream = (retry, stream)

-- `jobs[0]` of the first stream that has any.
unfoldable pub first_job : List (List Job) → Option Job
first_job [] = none
first_job ([] ∷ streams) = first_job streams
first_job ((job ∷ jobs) ∷ streams) = some job

abbrev pub parse_streams : Json → List (List Entry) → List (List Job)
parse_streams json [] = []
parse_streams json (entries ∷ streams) = parse_entries json entries ∷ parse_streams json streams

-- `consume_one`, of what XREADGROUP answers: the entries of each stream.
unfoldable pub consume_one : Json → List (List Entry) → Option Job
consume_one json response = first_job (parse_streams json response)

-- A queue as `claim_stale` sees it: its name, the entries that XAUTOCLAIM gives (nothing where
-- `_ensure_group_async` or XAUTOCLAIM raises), and how often XPENDING says that each was delivered
-- (nothing where it raises).
pub record Reclaimed : Type 0 where
  pub queue : Value
  pub answer : Option (List Entry)
  pub delivered : Option (List (String × ℕ))

abbrev pub counts_or_none : Option (List (String × ℕ)) → List (String × ℕ)
counts_or_none none = []
counts_or_none (some d) = d

-- The jobs of the later queues behind those that are claimed already: an exception drops both.
abbrev pub and_claimed : List Job → Ended (List Job) → Ended (List Job)
and_claimed claimed (returned rest s) = returned (claimed ++ rest) s
and_claimed claimed (raised s) = raised s

-- An exception of `_ensure_group_async` or XAUTOCLAIM leaves the loop over the queues.
unfoldable pub on_answer :
    Option (List Entry) → (List Entry → Ended (List Job)) → Session → Ended (List Job)
on_answer none next s = raised s
on_answer (some entries) next s = next entries

-- `claim_stale`: the jobs that it claims over all queues.
unfoldable pub claim_stale :
    Json → (ℕ → Reply) → (ℤ → ℕ) → List Reclaimed → Session → Ended (List Job)
claim_stale json replies delay [] s = returned [] s
claim_stale json replies delay (q ∷ queues) s =
    on_answer q.answer
      (λ entries.
        let (claimed, s1) =
          reclaim_all json replies delay q.queue (counts_or_none q.delivered)
            (parse_entries json entries) s in
        and_claimed claimed (claim_stale json replies delay queues s1))
      s

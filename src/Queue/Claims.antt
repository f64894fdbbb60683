-- ===== src/Queue/Claims.antt =====
-- citra_queue/queue.py: that `claim_stale` returns where XAUTOCLAIM answers, and loses no job of any queue.
use citra_flows.Common.{
  ℕ, ◌≡◌, refl, sym, subst, ap, ◌∙◌, All, ◌⊎◌, inl, inr, Option, none, some, List, [], ◌∷◌, ◌++◌,
  In, here, there,
}
use citra_flows.Value.{ℤ}
use citra_flows.Queue.Job.{Json, Job, to_json, Entry, parse_entries}
use citra_flows.Queue.Session.{Command, xadd_dlq, Reply, Session, Ended, returned, raised}
use citra_flows.Queue.Consumer.{reclaim_all}
use citra_flows.Queue.Reader.{Reclaimed, counts_or_none, and_claimed, on_answer, claim_stale}
use citra_flows.Queue.Safety.{In-left, In-right, reclaim_all-Kept, reclaim_all-grows}

-- Each stale job that XAUTOCLAIM gave for the queue is claimed or stands in the dead-letter stream.
abbrev pub IsClaimed : Json → Reclaimed → List Job → List Command → Type 0
IsClaimed json q claimed log =
    (entries : List Entry) × (q.answer ≡ some entries)
    × ((job : Job)
        → In job (parse_entries json entries)
        → In job claimed ⊎ In (xadd_dlq q.queue (to_json json job)) log)

-- What a call that returns keeps of the commands before it and of the queues.
abbrev Claims : Json → List Command → List Reclaimed → Ended (List Job) → Type 0
Claims json older queues (raised s) = Unit
Claims json older queues (returned claimed s) =
    ((c : Command) → In c older → In c s.log)
    × ((q : Reclaimed) → In q queues → IsClaimed json q claimed s.log)

module _ (json : Json) (replies : ℕ → Reply) (delay : ℤ → ℕ) where
  abbrev claims_of : Reclaimed → List Entry → Session → List Job × Session
  claims_of q entries =
      reclaim_all json replies delay q.queue (counts_or_none q.delivered)
        (parse_entries json entries)

  first-IsClaimed :
      (q : Reclaimed) (entries : List Entry) (s : Session) (rest : List Job) (log : List Command)
      → q.answer ≡ some entries
      → ((c : Command) → In c (claims_of q entries s).1.log → In c log)
      → IsClaimed json q ((claims_of q entries s).0 ++ rest) log
  first-IsClaimed q entries s rest log a grows = (
    entries,
    a,
    λ job i. elim (reclaim_all-Kept json replies delay q.queue _ _ s job i) [
      | inl j ↦ inl (In-left _ rest j)
      | inr j ↦ inr (grows _ j)
    ],
  )

  later-IsClaimed :
      (q : Reclaimed) (claimed rest : List Job) (log : List Command)
      → IsClaimed json q rest log
      → IsClaimed json q (claimed ++ rest) log
  later-IsClaimed q claimed rest log (entries, a, h) = (
    entries,
    a,
    λ job i. elim (h job i) [ inl j ↦ inl (In-right claimed rest j) | inr j ↦ inr j ],
  )

  and_claimed-Claims :
      (q : Reclaimed) (entries : List Entry) (queues : List Reclaimed) (s : Session)
      → q.answer ≡ some entries
      → (o : Ended (List Job)) → Claims json (claims_of q entries s).1.log queues o
      → Claims json s.log (q ∷ queues) (and_claimed (claims_of q entries s).0 o)
  and_claimed-Claims q entries queues s a (raised s') h = tt
  and_claimed-Claims q entries queues s a (returned rest s') (grows, all) = (
    λ c i. grows c (reclaim_all-grows json replies delay q.queue _ _ s c i),
    λ p i. elim i [
      | here e ↦
          subst (λ p. IsClaimed json p ((claims_of q entries s).0 ++ rest) s'.log) (sym e)
            (first-IsClaimed q entries s rest s'.log a grows)
      | there j ↦ later-IsClaimed p _ rest s'.log (all p j)
    ],
  )

  on_answer-Claims :
      (q : Reclaimed) (queues : List Reclaimed) (s : Session) (answer : Option (List Entry))
      (next : List Entry → Ended (List Job))
      → ((entries : List Entry)
          → answer ≡ some entries
          → Claims json s.log (q ∷ queues) (next entries))
      → Claims json s.log (q ∷ queues) (on_answer answer next s)
  unfolding on_answer
  on_answer-Claims q queues s none next h = tt
  on_answer-Claims q queues s (some entries) next h = h entries refl

  claim_stale-Claims :
      (queues : List Reclaimed) (s : Session)
      → Claims json s.log queues (claim_stale json replies delay queues s)
  unfolding claim_stale
  claim_stale-Claims [] s = (λ c i. i, λ q i. elim i [ ])
  claim_stale-Claims (q ∷ queues) s = on_answer-Claims q queues s q.answer _ (λ entries a.
      and_claimed-Claims q entries queues s a _
        (claim_stale-Claims queues (claims_of q entries s).1))

  and_claimed-returned :
      (claimed : List Job) (o : Ended (List Job))
      → (rest : List Job) × (s : Session) × (o ≡ returned rest s)
      → (all : List Job) × (s : Session) × (and_claimed claimed o ≡ returned all s)
  and_claimed-returned claimed o (rest, s, e) = (claimed ++ rest, s, ap (and_claimed claimed) e)

  claim_stale-returned :
      (queues : List Reclaimed) (s : Session)
      → All (λ (q : Reclaimed). (entries : List Entry) × (q.answer ≡ some entries)) queues
      → (claimed : List Job) × (s' : Session) × (claim_stale json replies delay queues s
          ≡ returned claimed s')
  unfolding claim_stale on_answer
  claim_stale-returned [] s tt = ([], s, refl)
  claim_stale-returned (q ∷ queues) s ((entries, e), answers) =
      let next = λ (entries : List Entry).
        and_claimed (claims_of q entries s).0
          (claim_stale json replies delay queues (claims_of q entries s).1) in
      let (all, s', r) =
        and_claimed-returned (claims_of q entries s).0 _
          (claim_stale-returned queues (claims_of q entries s).1 answers) in
      (all, s', ap (λ o. on_answer o next s) e ∙ r)

  -- Whatever Redis answers to the other commands: if XAUTOCLAIM answers for every queue, then
  -- `claim_stale` returns, and each job that can be read from the answer for a queue is among the
  -- claimed jobs or has been written to the dead-letter stream of the queue. (Where
  -- `_ensure_group_async` or XAUTOCLAIM raises for one queue the call raises, and returns nothing.)
  pub claim_stale-Claimed :
      (queues : List Reclaimed) (s : Session)
      → All (λ (q : Reclaimed). (entries : List Entry) × (q.answer ≡ some entries)) queues
      → (claimed : List Job) × (s' : Session) × (claim_stale json replies delay queues s
          ≡ returned claimed s')
        × ((q : Reclaimed) → In q queues → IsClaimed json q claimed s'.log)
  claim_stale-Claimed queues s answers =
      let (claimed, s', e) = claim_stale-returned queues s answers in
      (claimed, s', e, (subst (Claims json s.log queues) e (claim_stale-Claims queues s)).1)

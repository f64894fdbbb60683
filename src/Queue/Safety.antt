-- ===== src/Queue/Safety.antt =====
-- That the stale jobs of one queue are not lost, whatever Redis answers.
use citra_flows.Common.{
  ℕ, String, ◌≡◌, refl, sym, subst, ◌⊎◌, inl, inr, Bool, true, false, List, [], ◌∷◌, ◌++◌, In, here,
  there,
}
use citra_flows.Value.{ℤ, pos, Value}
use citra_flows.Queue.Job.{Json, Job, to_json}
use citra_flows.Queue.Session.{
  Status, Command, hset, xack, xdel, xadd_dlq, signal, Reply, Session, send_ind,
}
use citra_flows.Queue.Consumer.{dead_letter, dead_letter_if, reclaim, reclaim_all}

pub In-left {ℓ} : {A : Type ℓ} {x : A} (xs ys : List A) → In x xs → In x (xs ++ ys)
In-left [] ys i = elim i [ ]
In-left (x ∷ xs) ys (here e) = here e
In-left (x ∷ xs) ys (there i) = there (In-left xs ys i)

pub In-right {ℓ} : {A : Type ℓ} {x : A} (xs ys : List A) → In x ys → In x (xs ++ ys)
In-right [] ys i = i
In-right (x ∷ xs) ys i = there (In-right xs ys i)

-- Every command that removes the entry `id` came after the dead-letter command `dlq`.
abbrev pub Covered : Command → String → List Command → Type 0
Covered dlq id [] = Unit
Covered dlq id (c ∷ older) = ((c ≡ xack id) ⊎ (c ≡ xdel id) → In dlq older) × Covered dlq id older

-- The job is claimed for another run, or it is dead-lettered.
abbrev pub Kept : Command → Job → List Job → List Command → Type 0
Kept dlq job claimed log = In job claimed ⊎ In dlq log

-- What a session that went on from `older` keeps.
record Grows (older : List Command) (o : List Job × Session) : Type 0 where
  at : (c : Command) → In c older → In c o.1.log

record Keeps (dlq : Command) (job : Job) (o : List Job × Session) : Type 0 where
  at : Kept dlq job o.0 o.1.log

record Covers (dlq : Command) (id : String) (o : List Job × Session) : Type 0 where
  at : Covered dlq id o.1.log

Covered-cons :
    (c dlq : Command) (id : String) (log : List Command)
    → In dlq log
    → Covered dlq id log
    → Covered dlq id (c ∷ log)
Covered-cons c dlq id log i h = (λ e. i, h)

Covered-dlq :
    (q : Value) (blob : String) (dlq : Command) (id : String) (log : List Command)
    → Covered dlq id log
    → Covered dlq id (xadd_dlq q blob ∷ log)
Covered-dlq q blob dlq id log h = (λ e. elim e [ inl p ↦ cc | inr p ↦ cc ], h)

module _ (json : Json) (replies : ℕ → Reply) (delay : ℤ → ℕ) (queue : Value) where
  abbrev dlq_of : Job → Command
  dlq_of job = xadd_dlq queue (to_json json job)

  dead_letter-Keeps :
      (times : ℕ) (job : Job) (s : Session)
      → Keeps (dlq_of job) job (dead_letter json replies delay queue times job s)
  unfolding dead_letter
  dead_letter-Keeps times job s =
      let back : (s : Session) → Keeps (dlq_of job) job (job ∷ [], s) =
        λ s. record { at = inl (here refl) } in
      send_ind (Keeps (dlq_of job) job) _ _ _ _ s
        (send_ind (Keeps (dlq_of job) job) _ _ _ _ _
          (send_ind (Keeps (dlq_of job) job) _ _ _ _ _
            (send_ind (Keeps (dlq_of job) job) _ _ _ _ _
              (send_ind (Keeps (dlq_of job) job) _ _ _ _ _
                (record { at = inr (there (there (there (there (here refl))))) }) (back _) (back _))
              (back _) (back _))
            (back _) (back _))
          (back _) (back _))
        (back _) (back _)

  dead_letter-Grows :
      (times : ℕ) (job : Job) (s : Session)
      → Grows s.log (dead_letter json replies delay queue times job s)
  unfolding dead_letter
  dead_letter-Grows times job s =
      send_ind (Grows s.log) _ _ _ _ s
        (send_ind (Grows s.log) _ _ _ _ _
          (send_ind (Grows s.log) _ _ _ _ _
            (send_ind (Grows s.log) _ _ _ _ _
              (send_ind (Grows s.log) _ _ _ _ _
                (record { at = λ c i. there (there (there (there (there i)))) })
                (record { at = λ c i. there (there (there (there i))) })
                (record { at = λ c i. there (there (there (there (there i)))) }))
              (record { at = λ c i. there (there (there i)) })
              (record { at = λ c i. there (there (there (there i))) }))
            (record { at = λ c i. there (there i) })
            (record { at = λ c i. there (there (there i)) }))
          (record { at = λ c i. there i }) (record { at = λ c i. there (there i) }))
        (record { at = λ c i. i }) (record { at = λ c i. there i })

  if-Keeps :
      (b : Bool) (times : ℕ) (job : Job) (s : Session)
      → Keeps (dlq_of job) job (dead_letter_if json replies delay b queue times job s)
  unfolding dead_letter_if
  if-Keeps true times job s = dead_letter-Keeps times job s
  if-Keeps false times job s = record { at = inl (here refl) }

  if-Grows :
      (b : Bool) (times : ℕ) (job : Job) (s : Session)
      → Grows s.log (dead_letter_if json replies delay b queue times job s)
  unfolding dead_letter_if
  if-Grows true times job s = dead_letter-Grows times job s
  if-Grows false times job s = record { at = λ c i. i }

  reclaim-Keeps :
      (delivered : List (String × ℕ)) (job : Job) (s : Session)
      → Keeps (dlq_of job) job (reclaim json replies delay queue delivered job s)
  unfolding reclaim
  reclaim-Keeps delivered job s = if-Keeps _ _ job s

  reclaim-Grows :
      (delivered : List (String × ℕ)) (job : Job) (s : Session)
      → Grows s.log (reclaim json replies delay queue delivered job s)
  unfolding reclaim
  reclaim-Grows delivered job s = if-Grows _ _ job s

  pub reclaim_all-grows :
      (delivered : List (String × ℕ)) (jobs : List Job) (s : Session) (c : Command)
      → In c s.log
      → In c (reclaim_all json replies delay queue delivered jobs s).1.log
  unfolding reclaim_all
  reclaim_all-grows delivered [] s c i = i
  reclaim_all-grows delivered (job ∷ jobs) s c i =
      reclaim_all-grows delivered jobs _ c ((reclaim-Grows delivered job s).at c i)

  head-Kept :
      (delivered : List (String × ℕ)) (jobs : List Job) (s : Session) (job : Job)
      → Kept
          (dlq_of job)
          job
          (reclaim_all json replies delay queue delivered (job ∷ jobs) s).0
          (reclaim_all json replies delay queue delivered (job ∷ jobs) s).1.log
  unfolding reclaim_all
  head-Kept delivered jobs s job = elim (reclaim-Keeps delivered job s).at [
    | inl i ↦ inl (
        In-left (reclaim json replies delay queue delivered job s).0
          (reclaim_all json replies delay queue delivered jobs
            (reclaim json replies delay queue delivered job s).1).0
          i)
    | inr i ↦ inr (reclaim_all-grows delivered jobs _ _ i)
  ]

  -- Whatever Redis answers: each stale job that is reclaimed is handed out for another run, or it
  -- has been written to the dead-letter stream.
  pub reclaim_all-Kept :
      (delivered : List (String × ℕ)) (jobs : List Job) (s : Session) (job : Job)
      → In job jobs
      → In job (reclaim_all json replies delay queue delivered jobs s).0
        ⊎ In
            (xadd_dlq queue (to_json json job))
            (reclaim_all json replies delay queue delivered jobs s).1.log
  unfolding reclaim_all
  reclaim_all-Kept delivered [] s job i = elim i [ ]
  reclaim_all-Kept delivered (job' ∷ jobs) s job (here e) =
      subst
        (λ j.
          Kept (dlq_of j) j (reclaim_all json replies delay queue delivered (job' ∷ jobs) s).0
            (reclaim_all json replies delay queue delivered (job' ∷ jobs) s).1.log)
        (sym e) (head-Kept delivered jobs s job')
  reclaim_all-Kept delivered (job' ∷ jobs) s job (there i) =
      elim (reclaim_all-Kept delivered jobs _ job i) [
        | inl j ↦ inl (
            In-right (reclaim json replies delay queue delivered job' s).0
              (reclaim_all json replies delay queue delivered jobs
                (reclaim json replies delay queue delivered job' s).1).0
              j)
        | inr j ↦ inr j
      ]

  -- Whatever Redis answers: if no entry `id` was removed before the job was dead-lettered, then
  -- dead-lettering a crash-looping job keeps it so: its entry goes only once the job is written.
  pub dead_letter-Covered :
      (times : ℕ) (job : Job) (s : Session) (id : String)
      → Covered (xadd_dlq queue (to_json json job)) id s.log
      → Covered
          (xadd_dlq queue (to_json json job))
          id
          (dead_letter json replies delay queue times job s).1.log
  unfolding dead_letter
  dead_letter-Covered times job s id h =
      let C = Covers (dlq_of job) id in
      let c1 = Covered-dlq queue (to_json json job) (dlq_of job) id s.log h in
      let c2 = Covered-cons (xack _) (dlq_of job) id (dlq_of job ∷ s.log) (here refl) c1 in
      let c3 = Covered-cons (xdel _) (dlq_of job) id _ (there (here refl)) c2 in
      let c4 =
        Covered-cons (hset job.id Status.failed (pos times)) (dlq_of job) id _
          (there (there (here refl))) c3 in
      let c5 =
        Covered-cons (signal job.id) (dlq_of job) id _ (there (there (there (here refl)))) c4 in
      (send_ind C _ _ _ _ s
        (send_ind C _ _ _ _ _
          (send_ind C _ _ _ _ _
            (send_ind C _ _ _ _ _
              (send_ind C _ _ _ _ _ (record { at = c5 }) (record { at = c4 }) (record { at = c5 }))
              (record { at = c3 }) (record { at = c4 }))
            (record { at = c2 }) (record { at = c3 }))
          (record { at = c1 }) (record { at = c2 }))
        (record { at = h }) (record { at = c1 })).at

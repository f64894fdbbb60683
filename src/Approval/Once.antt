-- ===== src/Approval/Once.antt =====
-- Of several decisions on one pause, one counts.
use citra_flows.Common.{
  ℕ, ◌≡◌, refl, sym, ap, subst, ◌∙◌, ◌⊎◌, inl, inr, Bool, true, false, not, List, [], ◌∷◌, All,
  arith, if_ind, if_ind_eq, ◌==◌, ==_iff, Distinct, mem,
}
use citra_flows.Scheduler.Reaper.{Execution, Store, update_one, has_id}
use citra_flows.Scheduler.Reaper.Refines.{ids, absent_ids}
use citra_flows.Scheduler.Reaper.Raced.{update_one-none}
use citra_flows.Approval.{
  Reply, not_paused, already_resolved, resuming, is_paused, set_decided, decide_with,
  enqueue_resume,
}

-- No document of the identifier is paused.
abbrev pub IsDecided : Execution → Store → Type 0
IsDecided read s = All (λ d. is_paused read d ≡ false) s.docs

absent_paused :
    (read : Execution) (ds : List Execution)
    → All (λ d. has_id read.execution_id d ≡ false) ds
    → All (λ d. is_paused read d ≡ false) ds
absent_paused read [] a = tt
absent_paused read (d ∷ ds) a = (ground (arith, a.0), absent_paused read ds a.1)

no_longer_paused :
    (approved : Bool) (now : ℕ) (read d : Execution)
    → is_paused read (set_decided approved now d) ≡ false
no_longer_paused approved now read d = ground arith

others :
    (read d : Execution) (ds : List Execution)
    → is_paused read d ≡ true
    → mem d.execution_id (ids ds) ≡ false
    → All (λ e. is_paused read e ≡ false) ds
others read d ds e absent =
    let same : d.execution_id ≡ read.execution_id =
      (==_iff d.execution_id read.execution_id).0 (ground arith) in
    absent_paused read ds
      (absent_ids read.execution_id ds (ap (λ id. mem id (ids ds)) (sym same) ∙ absent))

-- The update takes the only paused document of the identifier out of its pause.
update_one-IsDecided :
    (approved : Bool) (now : ℕ) (read : Execution) (ds : List Execution)
    → Distinct (ids ds)
    → All
        (λ d. is_paused read d ≡ false)
        (update_one (is_paused read) (set_decided approved now) ds).0
unfolding update_one
update_one-IsDecided approved now read [] distinct = tt
update_one-IsDecided approved now read (d ∷ ds) distinct =
    if_ind_eq (λ (r : List Execution × Bool). All (λ e. is_paused read e ≡ false) r.0)
      (is_paused read d)
      (λ e. (no_longer_paused approved now read d, others read d ds e distinct.0))
      (λ e. (e, update_one-IsDecided approved now read ds distinct.1))

-- What an accepted decision leaves behind.
record Settled (read : Execution) (result : Reply × Store) : Type 0 where
  at : result.0 ≡ resuming → IsDecided read result.1

accepted_with :
    (works approved : Bool) (read : Execution) (r : List Execution × Bool) (s : Store)
    → All (λ d. is_paused read d ≡ false) r.0
    → Settled read (decide_with works approved read r s)
unfolding decide_with
accepted_with works approved read (docs, false) s a = record { at = λ e. a }
accepted_with true approved read (docs, true) s a = record { at = λ e. a }
accepted_with false approved read (docs, true) s a = record { at = λ e. cc }

enqueue_resume-Settled :
    (approved : Bool) (now : ℕ) (works : Bool) (read : Execution) (s : Store)
    → Distinct (ids s.docs)
    → Settled read (enqueue_resume approved now works read s)
unfolding enqueue_resume
enqueue_resume-Settled approved now works read s distinct =
    if_ind (Settled read) (not (read.status == "paused")) (record { at = λ e. cc })
      (accepted_with works approved read _ s
        (update_one-IsDecided approved now read s.docs distinct))

-- A decision that comes too late.
record Refused (s : Store) (result : Reply × Store) : Type 0 where
  reply : (result.0 ≡ not_paused) ⊎ (result.0 ≡ already_resolved)
  same : result.1 ≡ s

decide_with-Refused :
    (works approved : Bool) (read : Execution) (s : Store)
    → Refused s (decide_with works approved read (s.docs, false) s)
unfolding decide_with
decide_with-Refused true approved read s = record { reply = inr refl; same = refl }
decide_with-Refused false approved read s = record { reply = inr refl; same = refl }

late-Refused :
    (approved : Bool) (now : ℕ) (works : Bool) (read : Execution) (s : Store)
    → IsDecided read s
    → Refused s (enqueue_resume approved now works read s)
unfolding enqueue_resume
late-Refused approved now works read s decided =
    if_ind (Refused s) (not (read.status == "paused")) (record { reply = inl refl; same = refl })
      (subst (λ r. Refused s (decide_with works approved read r s))
        (sym (update_one-none (is_paused read) (set_decided approved now) s.docs decided))
        (decide_with-Refused works approved read s))

-- Among executions with different identifiers: when a decision on a paused execution has been
-- accepted, another one that has read the same execution is refused and changes nothing, whatever it
-- decides, if it reaches the documents as the first has left them, before the execution goes on.
pub enqueue_resume-once :
    (first second : Bool) (now later : ℕ) (works works_later : Bool) (read : Execution) (s : Store)
    → Distinct (ids s.docs)
    → (enqueue_resume first now works read s).0 ≡ resuming
    → let after = (enqueue_resume first now works read s).1 in
      let reply = (enqueue_resume second later works_later read after).0 in
      ((reply ≡ not_paused) ⊎ (reply ≡ already_resolved))
      × ((enqueue_resume second later works_later read after).1 ≡ after)
enqueue_resume-once first second now later works works_later read s distinct accepted =
    let after = (enqueue_resume first now works read s).1 in
    let refused =
      late-Refused second later works_later read after
        ((enqueue_resume-Settled first now works read s distinct).at accepted) in
    (refused.reply, refused.same)

-- ===== src/Scheduler/Reaper/Raced.antt =====
-- The sweep against the other writers of an execution.
use citra_flows.Common.{
  ℕ, ◌≡◌, refl, ap, ◌∙◌, String, Bool, true, false, List, [], ◌∷◌, All, ltb, if_ind, ◌==◌,
}
use citra_flows.Scheduler.Reaper.{
  Execution, Settings, Store, update_one, is_unchanged, set_cancelled, set_failed, set_resuming,
  stored, resume_with, notify_with, reap,
}

pub update_one-none :
    (p : Execution → Bool) (f : Execution → Execution) (ds : List Execution)
    → All (λ d. p d ≡ false) ds
    → update_one p f ds ≡ (ds, false)
unfolding update_one
update_one-none p f [] a = refl
update_one-none p f (d ∷ ds) a = rw (a.0, update_one-none p f ds a.1) refl

resume_with-unmodified :
    (works : Bool) (read : Execution) (s : Store) → resume_with works read (s.docs, false) s ≡ s
unfolding resume_with
resume_with-unmodified true read s = refl
resume_with-unmodified false read s = refl

-- When no document is in the status in which the sweep has read the execution, because a worker,
-- an operator or another sweep has moved it on, the sweep changes nothing: it enqueues no
-- resumption and tells nobody.
pub reap-raced :
    (set : Settings) (now : ℕ) (enqueue_works : String → Bool) (read : Execution) (s : Store)
    → All (λ d. is_unchanged read d ≡ false) s.docs
    → reap set now enqueue_works read s ≡ s
unfolding reap notify_with
reap-raced set now enqueue_works read s raced =
    let none = λ (f : Execution → Execution). update_one-none (is_unchanged read) f s.docs raced in
    let Same = λ (t : Store). t ≡ s in
    if_ind Same read.cancel_requested (ap (λ r. stored r s) (none (set_cancelled now))) (
      if_ind Same (read.trigger_type == "assistant_test")
        (ap (λ r. stored r s) (none (set_failed now)))
        (if_ind Same (ltb read.crash_resume_count set.max_crash_resume_attempts)
          (ap (λ r. resume_with (enqueue_works read.execution_id) read r s)
              (none (set_resuming now))
            ∙ resume_with-unmodified (enqueue_works read.execution_id) read s)
          (ap (λ r. notify_with read r s) (none (set_failed now)))))

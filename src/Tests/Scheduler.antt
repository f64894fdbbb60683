-- ===== src/Tests/Scheduler.antt =====
-- Sweeps over a small collection of executions, and decisions on them.
use citra_flows.Common.{◌⊎◌, ◌≡◌, refl, true, false, none, some, [], ◌∷◌, map}
use citra_flows.Scheduler.Reaper.{
  Execution, Settings, Store, is_stuck, update_one, resume_with, notify_with, reap, reap_all,
  check_stuck_executions,
}
use citra_flows.Scheduler.Reaper.Refines.{swept, check_stuck_executions-swept}
use citra_flows.Scheduler.Reaper.Ends.{always, sweeps}
use citra_flows.Approval.{not_paused, already_resolved, decide_with, enqueue_resume}
use citra_flows.Approval.Once.{enqueue_resume-once}

abbrev settings : Settings
settings = record { grace = 100; max_crash_resume_attempts = 2 }

abbrev lost : Execution
lost = record {
  execution_id = "x";
  status = "running";
  started_at = 0;
  resumed_at = none;
  crash_resume_count = 0;
  trigger_type = "scheduled";
  cancel_requested = false;
  completed_at = none;
  resume_decision = none;
}

abbrev waiting : Execution
waiting = record (lost) { execution_id = "y"; status = "paused" }

abbrev store : Store
store = record { docs = lost ∷ waiting ∷ []; resumes = []; notified = [] }

check_stuck_executions-swept_example :
    (check_stuck_executions (some true) settings 200 always store).docs
    ≡ map (swept settings 200 always) (lost ∷ waiting ∷ [])
check_stuck_executions-swept_example =
    check_stuck_executions-swept settings 200 always store (refl, (refl, tt))

-- Two resumptions, then the failure, of which the owner is told once.
three_sweeps : (sweeps settings 3 200 store).resumes ≡ ("x", true) ∷ ("x", true) ∷ []
unfolding is_stuck update_one resume_with notify_with reap reap_all check_stuck_executions
three_sweeps = refl

told : (sweeps settings 3 200 store).notified ≡ "x" ∷ []
unfolding is_stuck update_one resume_with notify_with reap reap_all check_stuck_executions
told = refl

abbrev paused : Execution
paused = record (lost) { status = "paused" }

abbrev approval_store : Store
approval_store = record { docs = paused ∷ waiting ∷ []; resumes = []; notified = [] }

-- An approval, and a rejection by an officer who has read the same pause.
enqueue_resume-once_example :
    let after = (enqueue_resume true 10 true paused approval_store).1 in
    let reply = (enqueue_resume false 11 true paused after).0 in
    ((reply ≡ not_paused) ⊎ (reply ≡ already_resolved))
    × ((enqueue_resume false 11 true paused after).1 ≡ after)
unfolding enqueue_resume decide_with update_one
enqueue_resume-once_example =
    enqueue_resume-once true false 10 11 true true paused approval_store (refl, (refl, tt)) refl

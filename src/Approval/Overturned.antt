-- ===== src/Approval/Overturned.antt =====
-- A rejection whose job is lost.
use citra_flows.Common.{ℕ, ◌≡◌, refl, String, Bool, true, List, [], ◌∷◌}
use citra_flows.Scheduler.Reaper.{Execution, Store, update_one}
use citra_flows.Scheduler.Reaper.Refines.{same_id}
use citra_flows.Approval.{resuming, set_decided, decide_with, enqueue_resume}

-- The only execution.
abbrev pub alone : Execution → List (String × Bool) → List String → Store
alone d resumes notified = record { docs = d ∷ []; resumes = resumes; notified = notified }

pub accepted_alone :
    (approved : Bool) (d : Execution) (now : ℕ) (resumes : List (String × Bool))
    (notified : List String)
    → d.status ≡ "paused"
    → enqueue_resume approved now true d (alone d resumes notified) ≡ (
      resuming,
      alone (set_decided approved now d) ((d.execution_id, approved) ∷ resumes) notified,
    )
unfolding enqueue_resume update_one decide_with
accepted_alone approved d now resumes notified paused = rw (paused, same_id d) refl

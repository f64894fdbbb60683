-- ===== src/Approval.antt =====
-- `_enqueue_resume` of citra_workflow/router.py, which approves or rejects a paused execution. Who may
-- decide is checked before; the executions are those of the scheduler's sweep.
pub mod Once
pub mod Overturned
use citra_flows.Common.{
  ℕ, String, Bool, true, false, not, ◌&&◌, Option, none, some, List, [], ◌∷◌, if◌then◌else◌, ◌==◌,
}
use citra_flows.Scheduler.Reaper.{Execution, Store, update_one, has_id, stored}

-- The replies: 400, 409, 503 and success.
pub data Reply : Type 0 where
  not_paused already_resolved unavailable resuming : Reply

abbrev pub is_paused : Execution → Execution → Bool
is_paused read d = has_id read.execution_id d && d.status == "paused"

abbrev pub decision : Bool → String
decision true = "approved"
decision false = "rejected"

abbrev pub set_decided : Bool → ℕ → Execution → Execution
set_decided approved now d = record d {
  status = "resuming";
  resumed_at = some now;
  resume_decision = some (decision approved);
}

abbrev pub set_paused : Execution → Execution
set_paused d = record d { status = "paused" }

-- After the compare-and-set: the enqueueing, which works or not.
unfoldable pub decide_with : Bool → Bool → Execution → List Execution × Bool → Store → Reply × Store
decide_with works approved read (docs, false) s = (already_resolved, record s { docs = docs })
decide_with true approved read (docs, true) s =
    (resuming, record s { docs = docs; resumes = (read.execution_id, approved) ∷ s.resumes })
decide_with false approved read (docs, true) s =
    (unavailable, stored (update_one (has_id read.execution_id) set_paused docs) s)

-- The decision on an execution, as it was read.
unfoldable pub enqueue_resume : Bool → ℕ → Bool → Execution → Store → Reply × Store
enqueue_resume approved now works read s =
    if not (read.status == "paused")
    then (not_paused, s)
    else decide_with works approved read
        (update_one (is_paused read) (set_decided approved now) s.docs) s

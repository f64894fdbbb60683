-- ===== src/Scheduler/Reaper.antt =====
-- `_check_stuck_executions` of citra_workflow/scheduler.py, the sweep over executions whose worker
-- died. Times are seconds. Mongo is the list of documents of WorkflowExecutions; a sweep whose calls of
-- Mongo fail ends there, which is left out.
pub mod Refines
pub mod Ends
pub mod Raced
use citra_flows.Common.{
  ℕ, zero, suc, ◌+◌, ◌-◌, String, Bool, true, false, not, ◌&&◌, ◌||◌, Option, none, some, List, [],
  ◌∷◌, ltb, select, map, if◌then◌else◌, ◌==◌,
}

-- A document, with the fields that the sweep decides on or sets.
pub record Execution : Type 0 where
  pub execution_id : String
  pub status : String
  pub started_at : ℕ
  pub resumed_at : Option ℕ
  pub crash_resume_count : ℕ
  pub trigger_type : String
  pub cancel_requested : Bool
  pub completed_at : Option ℕ
  pub resume_decision : Option String

-- `grace` is `EXECUTION_TIMEOUT_SECONDS + STUCK_EXECUTION_GRACE_SECONDS`.
pub record Settings : Type 0 where
  pub grace : ℕ
  pub max_crash_resume_attempts : ℕ

-- The documents, the jobs "workflow.resume" that were enqueued, by execution and `approved`, and the
-- executions whose owner was told of the failure, the newest first.
pub record Store : Type 0 where
  pub docs : List Execution
  pub resumes : List (String × Bool)
  pub notified : List String

-- A time is before the cutoff `now - grace`; a missing one is not.
abbrev pub is_before : Settings → ℕ → Option ℕ → Bool
is_before set now none = false
is_before set now (some t) = ltb (t + set.grace) now

-- `stuck_query`.
unfoldable pub is_stuck : Settings → ℕ → Execution → Bool
is_stuck set now d =
    ((d.status == "running" || d.status == "queued") && is_before set now (some d.started_at))
    || (d.status == "resuming" && is_before set now d.resumed_at)

-- `update_one`: the documents, and whether one was modified.
unfoldable pub update_one :
    (Execution → Bool) → (Execution → Execution) → List Execution → List Execution × Bool
update_one p f [] = ([], false)
update_one p f (d ∷ ds) =
    let rest = update_one p f ds in if p d then (f d ∷ ds, true) else (d ∷ rest.0, rest.1)

abbrev pub has_id : String → Execution → Bool
has_id id d = d.execution_id == id

-- The filter of the compare-and-set: the execution, in the status in which it was read.
abbrev pub is_unchanged : Execution → Execution → Bool
is_unchanged read d = has_id read.execution_id d && d.status == read.status

abbrev pub set_cancelled : ℕ → Execution → Execution
set_cancelled now d = record d { status = "cancelled"; completed_at = some now }

abbrev pub set_failed : ℕ → Execution → Execution
set_failed now d = record d { status = "failed"; completed_at = some now }

abbrev pub set_resuming : ℕ → Execution → Execution
set_resuming now d = record d {
  status = "resuming";
  resumed_at = some now;
  crash_resume_count = d.crash_resume_count + 1;
  resume_decision = some "crash_resume";
}

abbrev pub roll_back : String → Execution → Execution
roll_back status d = record d { status = status; crash_resume_count = d.crash_resume_count - 1 }

abbrev pub stored : List Execution × Bool → Store → Store
stored result s = record s { docs = result.0 }

-- After the compare-and-set of a crash-resume: the enqueueing, which works or not.
unfoldable pub resume_with : Bool → Execution → List Execution × Bool → Store → Store
resume_with works read (docs, false) s = record s { docs = docs }
resume_with true read (docs, true) s = record s {
  docs = docs;
  resumes = (read.execution_id, true) ∷ s.resumes;
}
resume_with false read (docs, true) s =
    stored (update_one (has_id read.execution_id) (roll_back read.status) docs) s

-- After that of a failure: only who changed the document tells the owner.
unfoldable pub notify_with : Execution → List Execution × Bool → Store → Store
notify_with read (docs, false) s = record s { docs = docs }
notify_with read (docs, true) s = record s {
  docs = docs;
  notified = read.execution_id ∷ s.notified;
}

-- One document of the cursor, as it was read. `enqueue_works` is what the queue answers.
unfoldable pub reap : Settings → ℕ → (String → Bool) → Execution → Store → Store
reap set now enqueue_works read s =
    let cas = λ (f : Execution → Execution). update_one (is_unchanged read) f s.docs in
    if read.cancel_requested
    then stored (cas (set_cancelled now)) s
    else if read.trigger_type == "assistant_test"
    then stored (cas (set_failed now)) s
    else if ltb read.crash_resume_count set.max_crash_resume_attempts
    then resume_with (enqueue_works read.execution_id) read (cas (set_resuming now)) s
    else notify_with read (cas (set_failed now)) s

unfoldable pub reap_all : Settings → ℕ → (String → Bool) → List Execution → Store → Store
reap_all set now enqueue_works [] s = s
reap_all set now enqueue_works (read ∷ cursor) s =
    reap_all set now enqueue_works cursor (reap set now enqueue_works read s)

-- The sweep, when `set_nx` of its lock answers so (`none` where it raises).
unfoldable pub check_stuck_executions : Option Bool → Settings → ℕ → (String → Bool) → Store → Store
check_stuck_executions (some true) set now enqueue_works s =
    reap_all set now enqueue_works (select (is_stuck set now) s.docs) s
check_stuck_executions acquired set now enqueue_works s = s

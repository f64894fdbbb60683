-- ===== src/Scheduler/Fire.antt =====
-- `_execute_scheduled_workflow` of citra_workflow/scheduler.py, one fire of a cron job. Times are
-- seconds. The background renewal of the locks while a fire runs is left out, with the metrics, the
-- token of the run and the e-mail about a failed fire.
pub mod Guards
pub mod Locks
pub mod Once
pub mod Orphan
use citra_flows.Common.{
  ℕ, ◌+◌, String, Bool, true, false, not, ◌&&◌, ◌||◌, Option, none, some, List, [], ◌∷◌, map, mem,
  select, first, ltb, if◌then◌else◌, ◌==◌,
}
use citra_flows.Control.{Halt, Cache, get_halt}
use citra_flows.Scheduler.Reaper.{Execution}

-- The keys of Redis that a fire sets, by the parts of their names.
pub data Key : Type 0 where
  wf_cron : String → String → Key
  wf_running : String → Key

unfoldable pub key_eq : Key → Key → Bool
key_eq (wf_cron w t) (wf_cron v u) = w == v && t == u
key_eq (wf_running w) (wf_running v) = w == v
key_eq k l = false

pub record Lock : Type 0 where
  pub key : Key
  pub value : String
  pub expires : ℕ

-- A deployed version of a workflow: a document of Workflows.
pub record Workflow : Type 0 where
  pub workflow_id : String
  pub user_id : String
  pub status : String
  pub is_active : Bool
  pub schedule_enabled : Bool
  pub org_id : String
  pub dept_ids : List String
  pub run_environment : String

-- A document of WorkflowExecutions, with the fields that the sweep reads in `doc`.
pub record Run : Type 0 where
  pub workflow_id : String
  pub user_id : String
  pub environment : String
  pub doc : Execution

pub record Plant : Type 0 where
  pub locks : List Lock
  pub workflows : List Workflow
  pub executions : List Run
  pub controls : List Halt
  pub cache : Cache
  -- the executions whose job "workflow.run" was enqueued, the newest first
  pub enqueued : List String
  -- the workflows whose stale cron job was unregistered, the newest first
  pub unregistered : List String

-- The calls that may raise.
pub data Call : Type 0 where
  set_cron set_running find_workflow build_workflow find_inflight read_controls insert enqueue
        release :
      Call

-- One fire: what it is given, and the environment's part in it.
pub record Tick : Type 0 where
  pub workflow_id : String
  pub user_id : String
  pub fire_ts : String
  pub lock_value : String
  pub execution_id : String
  pub now : ℕ
  pub raises : Call → Bool
  -- `SCHEDULER_CRON_LOCK_TIMEOUT` and `SCHEDULER_OVERLAP_LOCK_TIMEOUT`
  pub cron_timeout : ℕ
  pub overlap_timeout : ℕ
  -- the token of a department in an organisation
  pub dept_token : String → String → String

-- How a fire ends.
pub data Fate : Type 0 where
  lock_error lock_rejected overlap_skipped not_deployed disabled in_flight halted failed : Fate
  dispatched : Fate

abbrev pub cron_key : Tick → Key
cron_key tick = wf_cron tick.workflow_id tick.fire_ts

abbrev pub running_key : Tick → Key
running_key tick = wf_running tick.workflow_id

-- The key is set and has not expired.
abbrev pub is_held : Key → ℕ → Lock → Bool
is_held key now l = key_eq l.key key && ltb now l.expires

abbrev pub is_not_at : Key → Lock → Bool
is_not_at key l = not (key_eq l.key key)

unfoldable pub is_locked : Key → ℕ → List Lock → Bool
is_locked key now [] = false
is_locked key now (l ∷ ls) = if is_held key now l then true else is_locked key now ls

-- `set_nx`: the locks, and whether the key was set.
unfoldable pub set_nx : Key → String → ℕ → ℕ → List Lock → List Lock × Bool
set_nx key value timeout now ls = if is_locked key now ls then (ls, false) else (
  record { key = key; value = value; expires = now + timeout } ∷ select (is_not_at key) ls,
  true,
)

abbrev pub is_not_owned : Key → String → Lock → Bool
is_not_owned key value l = not (key_eq l.key key && l.value == value)

-- `delete_if_owner`.
unfoldable pub delete_if_owner : Key → String → List Lock → List Lock
delete_if_owner key value ls = select (is_not_owned key value) ls

-- The filter of `find_one` on Workflows.
abbrev pub is_deployed : Tick → Workflow → Bool
is_deployed tick w =
    w.workflow_id == tick.workflow_id
    && w.user_id == tick.user_id
    && w.status == "deployed"
    && w.is_active

abbrev pub in_flight_statuses : List String
in_flight_statuses = "queued" ∷ "running" ∷ "resuming" ∷ "paused" ∷ []

abbrev pub is_in_flight : String → Run → Bool
is_in_flight workflow_id r = r.workflow_id == workflow_id && mem r.doc.status in_flight_statuses

abbrev pub unregister : String → Plant → Plant
unregister workflow_id s = record s { unregistered = workflow_id ∷ s.unregistered }

-- `run_environment or "prod"`.
unfoldable pub environment_of : Workflow → String
environment_of w = if w.run_environment == "" then "prod" else w.run_environment

-- The document of a run that is queued.
abbrev pub queued_run : Tick → Workflow → Run
queued_run tick w = record {
  workflow_id = tick.workflow_id;
  user_id = tick.user_id;
  environment = environment_of w;
  doc = record {
    execution_id = tick.execution_id;
    status = "queued";
    started_at = tick.now;
    resumed_at = none;
    crash_resume_count = 0;
    trigger_type = "scheduled";
    cancel_requested = false;
    completed_at = none;
    resume_decision = none;
  };
}

-- The document first, then the job. Nothing takes the document back where the queue raises.
unfoldable pub dispatch : Tick → Workflow → Plant → Fate × Plant
dispatch tick w s =
    let inserted = record s { executions = queued_run tick w ∷ s.executions } in
    if tick.raises Call.insert
    then (failed, s)
    else if tick.raises Call.enqueue
    then (failed, inserted)
    else (dispatched, record inserted { enqueued = tick.execution_id ∷ s.enqueued })

unfoldable pub unless_halted : Tick → Workflow → Option Halt → Plant → Fate × Plant
unless_halted tick w none s = dispatch tick w s
unless_halted tick w (some c) s = (halted, s)

-- The halt that covers the workflow.
abbrev pub halt_of : Tick → Workflow → Plant → Option Halt × Cache
halt_of tick w s =
    get_halt (not (tick.raises Call.read_controls)) tick.now w.org_id
      (map (tick.dept_token w.org_id) w.dept_ids) s.controls s.cache

unfoldable pub check_halt : Tick → Workflow → Plant → Fate × Plant
check_halt tick w s =
    let halt = halt_of tick w s in unless_halted tick w halt.0 (record s { cache = halt.1 })

unfoldable pub unless_in_flight : Tick → Workflow → Option Run → Plant → Fate × Plant
unless_in_flight tick w none s = check_halt tick w s
unless_in_flight tick w (some r) s = (in_flight, s)

unfoldable pub check_workflow : Tick → Option Workflow → Plant → Fate × Plant
check_workflow tick none s = (not_deployed, unregister tick.workflow_id s)
check_workflow tick (some w) s =
    if not w.schedule_enabled
    then (disabled, unregister tick.workflow_id s)
    else if tick.raises build_workflow || tick.raises find_inflight
    then (failed, s)
    else unless_in_flight tick w (first (is_in_flight tick.workflow_id) s.executions) s

-- The `try` block.
unfoldable pub attempt : Tick → Plant → Fate × Plant
attempt tick s =
    if tick.raises find_workflow
    then (failed, s)
    else check_workflow tick (first (is_deployed tick) s.workflows) s

abbrev pub release_running : Tick → Plant → Plant
release_running tick s = record s {
  locks = delete_if_owner (running_key tick) tick.lock_value s.locks;
}

-- The `finally` block: the overlap lock goes if this fire has it, the cron lock stays.
unfoldable pub conclude_fire : Tick → Bool → Fate × Plant → Fate × Plant
conclude_fire tick overlap_acquired r =
    if overlap_acquired && not (tick.raises release) then (r.0, release_running tick r.1) else r

unfoldable pub claim_running : Tick → Plant → Fate × Plant
claim_running tick s =
    let r = set_nx (running_key tick) tick.lock_value tick.overlap_timeout tick.now s.locks in
    if tick.raises set_running
    then conclude_fire tick false (attempt tick s)
    else if not r.1
    then (overlap_skipped, s)
    else conclude_fire tick true (attempt tick (record s { locks = r.0 }))

unfoldable pub execute_scheduled_workflow : Tick → Plant → Fate × Plant
execute_scheduled_workflow tick s =
    let r = set_nx (cron_key tick) tick.lock_value tick.cron_timeout tick.now s.locks in
    if tick.raises set_cron
    then (lock_error, s)
    else if not r.1
    then (lock_rejected, s)
    else claim_running tick (record s { locks = r.0 })

-- ===== src/Scheduler/Registry.antt =====
-- `register_workflow`, `unregister_workflow`, `_load_deployed_schedules` and the messages of the refresh
-- channel of the `WorkflowSchedulerManager` of citra_workflow/scheduler.py.
pub mod Agree
pub mod Accepts
use citra_flows.Common.{
  ℕ, String, Bool, true, false, not, ◌&&◌, Option, none, some, List, [], ◌∷◌, mem, is_empty, select,
  if◌then◌else◌, ◌==◌,
}
use citra_flows.Value.{codes, strip}
use citra_flows.Scheduler.Cron.{
  Calendar, normalize_timezone, split, zone_used, validate_cron_schedule,
}

-- A job of APScheduler, known by the workflow in its identifier and its arguments.
pub record Job (T : Type 0) : Type 0 where
  pub workflow_id : String
  pub trigger : T
  pub user_id : String

-- `_scheduler` with its cron jobs, `none` on a replica that does not lead, and the workflows of
-- `_jobs`.
pub record Manager (T : Type 0) : Type 0 where
  pub scheduler : Option (List (Job T))
  pub jobs : List String

-- The `schedule` of a workflow, its timezone the default where it has none, and an empty text for
-- None.
pub record Schedule : Type 0 where
  pub workflow_id : String
  pub user_id : String
  pub cron_expression : List ℕ
  pub timezone : List ℕ

abbrev pub is_other_id : String → String → Bool
is_other_id workflow_id id = not (id == workflow_id)

module _ {T : Type 0} where
  abbrev pub is_other : String → Job T → Bool
  is_other workflow_id job = not (job.workflow_id == workflow_id)

  -- `remove_job`; it raises where there is no such job, which is caught.
  unfoldable pub remove_job : String → Option (List (Job T)) → Option (List (Job T))
  remove_job workflow_id none = none
  remove_job workflow_id (some js) = some (select (is_other workflow_id) js)

  unfoldable pub unregister_workflow : String → Manager T → Manager T
  unregister_workflow workflow_id m =
      if mem workflow_id m.jobs
      then record {
        scheduler = remove_job workflow_id m.scheduler;
        jobs = select (is_other_id workflow_id) m.jobs;
      }
      else m

  -- `add_job` with `replace_existing`, and the entry of `_jobs`.
  unfoldable pub add_job : Job T → List (Job T) → Manager T → Manager T
  add_job job js m = record {
    scheduler = some (job ∷ select (is_other job.workflow_id) js);
    jobs = job.workflow_id ∷ select (is_other_id job.workflow_id) m.jobs;
  }

  -- The trigger, which may raise: the job is then not added.
  unfoldable pub add_trigger : Schedule → Option T → Option (List (Job T)) → Manager T → Manager T
  add_trigger sched (some trigger) (some js) m =
      add_job
        (record { workflow_id = sched.workflow_id; trigger = trigger; user_id = sched.user_id }) js
        m
  add_trigger sched trigger scheduler m = m

  -- After the old job is removed: a schedule with errors is refused.
  unfoldable pub register_valid : Calendar T → ℕ → Schedule → Manager T → Manager T
  register_valid cal now sched m =
      if is_empty (validate_cron_schedule cal now sched.cron_expression sched.timezone)
      then add_trigger sched
          (cal.parse (split (strip sched.cron_expression))
            (zone_used cal (normalize_timezone sched.timezone)))
          m.scheduler m
      else m

  unfoldable pub register_active : Calendar T → ℕ → Schedule → Manager T → Manager T
  register_active cal now sched m =
      if is_empty sched.cron_expression
      then m
      else register_valid cal now sched (unregister_workflow sched.workflow_id m)

  abbrev pub is_active : Manager T → Bool
  is_active m = elim (m.scheduler) [ none ↦ false | some js ↦ true ]

  unfoldable pub register_workflow : Calendar T → ℕ → Schedule → Manager T → Manager T
  register_workflow cal now sched m = if is_active m then register_active cal now sched m else m

  -- The schedules of the workflows that are deployed, active and enabled.
  unfoldable pub load_deployed_schedules : Calendar T → ℕ → List Schedule → Manager T → Manager T
  load_deployed_schedules cal now [] m = m
  load_deployed_schedules cal now (sched ∷ cursor) m =
      load_deployed_schedules cal now cursor (register_workflow cal now sched m)

  -- A message of the refresh channel, when this replica leads.
  unfoldable pub refresh : Calendar T → ℕ → String → Schedule → Manager T → Manager T
  refresh cal now action sched m =
      if action == "unregister"
      then unregister_workflow sched.workflow_id m
      else register_workflow cal now sched m

-- ===== src/Scheduler/Registry/Agree.antt =====
-- The cron jobs of APScheduler against the workflows of `_jobs`.
use citra_flows.Common.{
  ℕ, ◌≤◌, String, Option, none, some, List, [], ◌∷◌, map, mem, is_empty, select, occurrences, ◌≡◌,
  refl, ap, subst, ◌∙◌, arith, if_ind, if◌then◌else◌, ◌==◌, ==_iff,
}
use citra_flows.Value.{strip}
use citra_flows.Scheduler.Cron.{
  Calendar, normalize_timezone, split, zone_used, validate_cron_schedule,
}
use citra_flows.Scheduler.Registry.{
  Job, Manager, Schedule, is_other_id, is_other, remove_job, unregister_workflow, add_job,
  add_trigger, register_valid, register_active, is_active, register_workflow,
  load_deployed_schedules, refresh,
}

occurrences-other :
    (v w : String) (ids : List String)
    → occurrences v (select (is_other_id w) ids) ≡ (if v == w then 0 else occurrences v ids)
occurrences-other v w [] = ground arith
occurrences-other v w (x ∷ ids) =
    ground (arith, occurrences-other v w ids, ==_iff v w, ==_iff v x, ==_iff x w)

module _ {T : Type 0} where
  abbrev pub id_of : Job T → String
  id_of job = job.workflow_id

  map-other :
      (w : String) (js : List (Job T))
      → map id_of (select (is_other w) js) ≡ select (is_other_id w) (map id_of js)
  map-other w [] = refl
  map-other w (j ∷ js) = ground (arith, map-other w js)

  abbrev pub Matches : List (Job T) → List String → Type 0
  Matches js ids =
      (w : String) → (occurrences w (map id_of js) ≡ occurrences w ids) × (occurrences w ids ≤ 1)

  abbrev pub AgreesAt : Option (List (Job T)) → List String → Type 0
  AgreesAt none ids = ids ≡ []
  AgreesAt (some js) ids = Matches js ids

  -- Where the scheduler runs, each workflow of `_jobs` has one cron job and no other workflow has any.
  abbrev pub Agrees : Manager T → Type 0
  Agrees m = AgreesAt m.scheduler m.jobs

  Matches-other :
      (w : String) (js : List (Job T)) (ids : List String)
      → Matches js ids
      → Matches (select (is_other w) js) (select (is_other_id w) ids)
  Matches-other w js ids h v =
      let a = ap (occurrences v) (map-other w js) ∙ occurrences-other v w (map id_of js) in
      ground (arith, a, occurrences-other v w ids, h v)

  add_job-Matches :
      (job : Job T) (js : List (Job T)) (ids : List String)
      → Matches js ids
      → Matches
          (job ∷ select (is_other job.workflow_id) js)
          (job.workflow_id ∷ select (is_other_id job.workflow_id) ids)
  add_job-Matches job js ids h v =
      let w = job.workflow_id in
      let a = ap (occurrences v) (map-other w js) ∙ occurrences-other v w (map id_of js) in
      ground (arith, a, occurrences-other v w ids, h v)

  remove_job-AgreesAt :
      (w : String) (scheduler : Option (List (Job T))) (ids : List String)
      → AgreesAt scheduler ids
      → AgreesAt (remove_job w scheduler) (select (is_other_id w) ids)
  unfolding remove_job
  remove_job-AgreesAt w none ids h = ap (select (is_other_id w)) h
  remove_job-AgreesAt w (some js) ids h = Matches-other w js ids h

  pub unregister_workflow-Agrees :
      (w : String) (m : Manager T) → Agrees m → Agrees (unregister_workflow w m)
  unfolding unregister_workflow
  unregister_workflow-Agrees w m h =
      if_ind Agrees (mem w m.jobs) (remove_job-AgreesAt w m.scheduler m.jobs h) h

  add_trigger-Agrees :
      (sched : Schedule) (o : Option T) (scheduler : Option (List (Job T))) (m : Manager T)
      → m.scheduler ≡ scheduler
      → Agrees m
      → Agrees (add_trigger sched o scheduler m)
  unfolding add_trigger add_job
  add_trigger-Agrees sched none scheduler m e h = h
  add_trigger-Agrees sched (some trigger) none m e h = h
  add_trigger-Agrees sched (some trigger) (some js) m e h =
      add_job-Matches
        (record { workflow_id = sched.workflow_id; trigger = trigger; user_id = sched.user_id }) js
        m.jobs (subst (λ sc. AgreesAt sc m.jobs) e h)

  module _ (cal : Calendar T) (now : ℕ) where
    pub register_workflow-Agrees :
        (sched : Schedule) (m : Manager T) → Agrees m → Agrees (register_workflow cal now sched m)
    unfolding register_workflow register_active register_valid
    register_workflow-Agrees sched m h =
        let n = unregister_workflow sched.workflow_id m in
        let g = unregister_workflow-Agrees sched.workflow_id m h in
        if_ind Agrees (is_active m)
          (if_ind Agrees (is_empty sched.cron_expression) h (
            if_ind Agrees
              (is_empty (validate_cron_schedule cal now sched.cron_expression sched.timezone))
              (add_trigger-Agrees sched
                (cal.parse (split (strip sched.cron_expression))
                  (zone_used cal (normalize_timezone sched.timezone)))
                n.scheduler n refl g)
              g))
          h

    pub load_deployed_schedules-Agrees :
        (cursor : List Schedule) (m : Manager T)
        → Agrees m
        → Agrees (load_deployed_schedules cal now cursor m)
    unfolding load_deployed_schedules
    load_deployed_schedules-Agrees [] m h = h
    load_deployed_schedules-Agrees (sched ∷ cursor) m h =
        load_deployed_schedules-Agrees cursor (register_workflow cal now sched m)
          (register_workflow-Agrees sched m h)

    -- The messages of the refresh channel, oldest first.
    abbrev pub refresh_all : List (String × Schedule) → Manager T → Manager T
    refresh_all [] m = m
    refresh_all ((action, sched) ∷ messages) m =
        refresh_all messages (refresh cal now action sched m)

    pub refresh_all-Agrees :
        (messages : List (String × Schedule)) (m : Manager T)
        → Agrees m
        → Agrees (refresh_all messages m)
    unfolding refresh
    refresh_all-Agrees [] m h = h
    refresh_all-Agrees ((action, sched) ∷ messages) m h =
        refresh_all-Agrees messages (refresh cal now action sched m) (
          if_ind Agrees (action == "unregister") (unregister_workflow-Agrees sched.workflow_id m h)
            (register_workflow-Agrees sched m h))

    -- On a leader, loading the deployed schedules and then following any messages of the refresh
    -- channel leaves each workflow that is in `_jobs` with exactly one cron job, and every other
    -- with none.
    pub load_deployed_schedules-refresh_all :
        (cursor : List Schedule) (messages : List (String × Schedule))
        → Agrees (
            refresh_all messages
              (load_deployed_schedules cal now cursor (record { scheduler = some []; jobs = [] })))
    load_deployed_schedules-refresh_all cursor messages =
        refresh_all-Agrees messages
          (load_deployed_schedules cal now cursor (record { scheduler = some []; jobs = [] }))
          (load_deployed_schedules-Agrees cursor (record { scheduler = some []; jobs = [] })
            (λ w. (refl, omega arith)))

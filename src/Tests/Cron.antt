-- ===== src/Tests/Cron.antt =====
-- A cluster of two scheduler instances, a workflow with a schedule, and its halts.

use citra_flows.Common.{
  ℕ, ◌+◌, String, Bool, true, false, some, List, [], ◌∷◌, In, first, length, is_empty, ◌==◌, arith,
  ◌≡◌, refl,
}
use citra_flows.Value.{codes, codes_eq, strip}
use citra_flows.Control.{Halt, Cache, read_controls, active_controls, or_else, halt_among, get_halt}
use citra_flows.Control.Precedence.{IsWidest, get_halt-IsWidest}
use citra_flows.Scheduler.Cron.{
  Calendar, upper, normalize_timezone, split, add_fire, fires_from, gaps, least, gap_errors,
  frequency_errors, trigger_errors, zone_errors, zone_used, validate_parts, validate_cron_schedule,
}
use citra_flows.Scheduler.Cron.Accepted.{IsAccepted, validate_cron_schedule-IsAccepted}
use citra_flows.Scheduler.Registry.{
  Manager, Schedule, remove_job, unregister_workflow, add_job, add_trigger, register_valid,
  register_active, register_workflow,
}
use citra_flows.Scheduler.Registry.Agree.{register_workflow-Agrees}
use citra_flows.Scheduler.Registry.Accepts.{has_job, register_workflow-accepts}
use citra_flows.Scheduler.Election.{
  Config, Cluster, answers, raises, live, acquire, try_acquire_leadership, extend, renew, Term,
  Event, campaign, beat, poll, pass, campaign_as, elect, hold, step, steps,
}
use citra_flows.Scheduler.Election.Exclusive.{steps-one_leader}
use citra_flows.Scheduler.Fire.{
  key_eq, Workflow, Plant, Call, Tick, failed, is_locked, set_nx, delete_if_owner, environment_of,
  queued_run, dispatch, unless_halted, check_halt, unless_in_flight, check_workflow, attempt,
  conclude_fire, claim_running, execute_scheduled_workflow,
}
use citra_flows.Scheduler.Fire.Guards.{is_dispatched, Guarded, execute_scheduled_workflow-Guarded}
use citra_flows.Scheduler.Fire.Once.{is_refused, fires, execute_scheduled_workflow-once}
use citra_flows.Scheduler.Fire.Orphan.{dispatch-orphan}

abbrev halt_org : Halt
halt_org = record { scope_type = "org"; scope_id = "acme"; enabled = true }

abbrev halt_dept : Halt
halt_dept = record { scope_type = "dept"; scope_id = "acme:hr"; enabled = true }

abbrev no_cache : Cache
no_cache = record { at = 0; controls = [] }

get_halt-IsWidest_example :
    IsWidest "acme"
      ("acme:hr" ∷ [])
      (halt_dept ∷ halt_org ∷ [])
      (get_halt true 100 "acme" ("acme:hr" ∷ []) (halt_dept ∷ halt_org ∷ []) no_cache).0
get_halt-IsWidest_example =
    get_halt-IsWidest 100 "acme" ("acme:hr" ∷ []) (halt_dept ∷ halt_org ∷ []) no_cache refl
      (omega arith)

-- The organisation's record goes before the department's.
org_first :
    (get_halt true 100 "acme" ("acme:hr" ∷ []) (halt_dept ∷ halt_org ∷ []) no_cache).0
    ≡ some halt_org
unfolding get_halt active_controls read_controls halt_among or_else first
org_first = refl

-- A calendar whose triggers fire once in a day; it knows UTC and India.
abbrev daily : Calendar ℕ
daily = record {
  known_zone = λ z. codes_eq z (codes "Asia/Kolkata");
  parse = λ parts z. some 86400000000;
  next_fire = λ t prev ref. some (ref + t);
  raises = λ t. false;
  min_interval = 300;
}

abbrev nine : List ℕ
nine = codes "0 9 * * *"

validate_cron_schedule-IsAccepted_example :
    (trigger : ℕ) × IsAccepted daily 0
      (split (strip nine))
      (normalize_timezone (codes " ist "))
      trigger
unfolding validate_cron_schedule validate_parts zone_errors trigger_errors frequency_errors
    gap_errors gaps least add_fire fires_from zone_used normalize_timezone upper strip split
validate_cron_schedule-IsAccepted_example =
    validate_cron_schedule-IsAccepted daily 0 nine (codes " ist ") refl

abbrev leader : Manager ℕ
leader = record { scheduler = some []; jobs = [] }

abbrev mornings : Schedule
mornings = record {
  workflow_id = "w";
  user_id = "u";
  cron_expression = nine;
  timezone = codes "IST";
}

-- A zone that the calendar does not know.
abbrev martian : Schedule
martian = record (mornings) { timezone = codes "Mars" }

register_workflow-accepts_example :
    (has_job "w" (register_workflow daily 0 martian (register_workflow daily 0 mornings leader))
      ≡ is_empty (validate_cron_schedule daily 0 nine (codes "Mars")))
    × ((v : String)
        → (v == "w") ≡ false
        → has_job v (register_workflow daily 0 martian (register_workflow daily 0 mornings leader))
          ≡ has_job v (register_workflow daily 0 mornings leader))
unfolding register_workflow register_active register_valid add_trigger add_job unregister_workflow
    remove_job validate_cron_schedule validate_parts zone_errors trigger_errors frequency_errors
    gap_errors gaps least add_fire fires_from zone_used normalize_timezone upper strip split
register_workflow-accepts_example =
    register_workflow-accepts daily 0 martian (register_workflow daily 0 mornings leader) refl
      (register_workflow-Agrees daily 0 mornings leader (λ w. (refl, omega arith))) refl

-- The new schedule is refused, and the old job is gone.
refused : (register_workflow daily 0 martian (register_workflow daily 0 mornings leader)).jobs ≡ []
unfolding register_workflow register_active register_valid add_trigger add_job unregister_workflow
    remove_job validate_cron_schedule validate_parts zone_errors trigger_errors frequency_errors
    gap_errors gaps least add_fire fires_from zone_used normalize_timezone upper strip split
refused = refl

registered : (register_workflow daily 0 mornings leader).jobs ≡ "w" ∷ []
unfolding register_workflow register_active register_valid add_trigger add_job unregister_workflow
    remove_job validate_cron_schedule validate_parts zone_errors trigger_errors frequency_errors
    gap_errors gaps least add_fire fires_from zone_used normalize_timezone upper strip split
registered = refl

abbrev config : Config
config = record { enabled = true; ttl = 3 }

-- The second instance gets the key when the first has let it expire.
abbrev handover : List Event
handover =
    campaign answers "a"
    ∷ pass
    ∷ campaign (raises true false) "b"
    ∷ beat answers "a"
    ∷ pass
    ∷ poll answers "b"
    ∷ campaign answers "b"
    ∷ []

abbrev first_term : Term
first_term = record { instance_id = "a"; renewed_at = 1 }

steps-one_leader_example : first_term.instance_id ≡ first_term.instance_id
unfolding steps step campaign_as elect hold try_acquire_leadership acquire renew extend live
steps-one_leader_example =
    steps-one_leader config 0 handover first_term first_term (omega arith)
      (
        (refl, tt),
        ((omega arith, tt), ((refl, refl), (refl, ((omega arith, tt), (tt, ((refl, tt), tt)))))),
      )
      (In.here refl) (In.here refl)

-- The first instance leads, and the second campaigns when it has lost its connection.
abbrev led : Cluster
led = record {
  now = 7;
  key = some (record { holder = "a"; expires = 9 });
  leaders = record { instance_id = "a"; renewed_at = 6 } ∷ [];
  cut = [];
}

abbrev workflow : Workflow
workflow = record {
  workflow_id = "w";
  user_id = "u";
  status = "deployed";
  is_active = true;
  schedule_enabled = true;
  org_id = "acme";
  dept_ids = "it" ∷ [];
  run_environment = "";
}

abbrev plant : Plant
plant = record {
  locks = [];
  workflows = workflow ∷ [];
  executions = [];
  controls = halt_dept ∷ [];
  cache = no_cache;
  enqueued = [];
  unregistered = [];
}

abbrev tick : Tick
tick = record {
  workflow_id = "w";
  user_id = "u";
  fire_ts = "0900";
  lock_value = "a:1";
  execution_id = "x";
  now = 100;
  raises = λ c. false;
  cron_timeout = 60;
  overlap_timeout = 60;
  dept_token = λ o d. "acme:it";
}

abbrev rival : Tick
rival = record (tick) { lock_value = "b:2"; execution_id = "y"; now = 130 }

abbrev is_insert_lost : Call → Bool
is_insert_lost Call.enqueue = true
is_insert_lost c = false

abbrev lossy : Tick
lossy = record (tick) { raises = is_insert_lost }

execute_scheduled_workflow-once_example :
    is_refused
      (execute_scheduled_workflow rival
        (fires (tick ∷ []) (execute_scheduled_workflow tick plant).1)).0
    ≡ true
unfolding execute_scheduled_workflow claim_running conclude_fire attempt check_workflow
    unless_in_flight check_halt unless_halted dispatch set_nx is_locked delete_if_owner get_halt
    active_controls read_controls halt_among or_else first key_eq environment_of
execute_scheduled_workflow-once_example =
    execute_scheduled_workflow-once tick rival (tick ∷ []) plant refl refl refl (omega arith)
      (omega arith, tt) (omega arith)

execute_scheduled_workflow-Guarded_example :
    Guarded tick plant (execute_scheduled_workflow tick plant).1
unfolding execute_scheduled_workflow claim_running conclude_fire attempt check_workflow
    unless_in_flight check_halt unless_halted dispatch set_nx is_locked delete_if_owner get_halt
    active_controls read_controls halt_among or_else first key_eq environment_of
execute_scheduled_workflow-Guarded_example =
    execute_scheduled_workflow-Guarded tick plant refl refl (omega arith) refl

dispatch-orphan_example :
    ((dispatch lossy workflow plant).0 ≡ failed)
    × ((dispatch lossy workflow plant).1.enqueued ≡ [])
    × ((dispatch lossy workflow plant).1.executions ≡ queued_run lossy workflow ∷ [])
    × ((queued_run lossy workflow).doc.status ≡ "queued")
    × (is_dispatched (execute_scheduled_workflow rival (dispatch lossy workflow plant).1).0 ≡ false)
unfolding dispatch
dispatch-orphan_example =
    dispatch-orphan lossy rival workflow plant (dispatch lossy workflow plant).1 refl refl refl
      (In.here refl)

-- A fire leaves the lock of its window and gives back that of its workflow.
locks_left : length (execute_scheduled_workflow tick plant).1.locks ≡ 1
unfolding execute_scheduled_workflow claim_running conclude_fire attempt check_workflow
    unless_in_flight check_halt unless_halted dispatch set_nx is_locked delete_if_owner get_halt
    active_controls read_controls halt_among or_else first key_eq environment_of
locks_left = refl

-- ===== src/Worker.antt =====
-- Citra-Worker/worker.py: `_process_job`, which runs a job through its handler and tells the queue
-- how it ended. Metrics and log lines are left out.
pub mod Fate
use citra_flows.Common.{ℕ, Bool, true, false, Option, none, some}
use citra_flows.Value.{ℤ, Value}
use citra_flows.Queue.Job.{Json, Job}
use citra_flows.Queue.Session.{Reply, Session, Ended, returned, raised}
use citra_flows.Queue.Consumer.{mark_running, mark_done, mark_failed}

-- How a handler ends: with a result, with `JobPermanentFailure`, or with another exception.
pub data Handled : Type 0 where
  answered : Value → Handled
  permanent transient : Handled

abbrev pub and_then {ℓ κ} : {A : Type ℓ} {B : Type κ} → Ended A → (A → Session → Ended B) → Ended B
and_then (returned a s) next = next a s
and_then (raised s) next = raised s

abbrev pub finish : Bool → Session → Ended (Unit {0})
finish will_retry s = returned tt s

module _ (json : Json) (replies : ℕ → Reply) (delay : ℤ → ℕ) where
  unfoldable pub record_outcome : Job → Handled → Session → Ended (Unit {0})
  record_outcome job (answered result) s = mark_done json replies delay job result s
  record_outcome job permanent s = and_then (mark_failed json replies delay job true s) finish
  record_outcome job transient s = and_then (mark_failed json replies delay job false s) finish

  -- The handler is that of the registry, if it has one for the job.
  unfoldable pub process_job : Job → Option (Job → Handled) → Session → Ended (Unit {0})
  process_job job none s = and_then (mark_failed json replies delay job true s) finish
  process_job job (some handler) s =
      and_then (mark_running json replies delay job s) (λ u s'. record_outcome job (handler job) s')

-- ===== src/Worker/Fate.antt =====
-- What the worker leaves of a job.
use citra_flows.Common.{ℕ, ◌≡◌, false, Option, none, some, List, ◌∷◌}
use citra_flows.Value.{ℤ, Value}
use citra_flows.Queue.Job.{Json, Job, to_json}
use citra_flows.Queue.Session.{Command, signal, Reply, Session, Ended, returned, raised}
use citra_flows.Queue.Consumer.{failed_once, will_retry}
use citra_flows.Queue.Failures.{Parked}
use citra_flows.Worker.{Handled, answered, transient}

abbrev pub map_handler : Job → Option (Job → Handled) → Option Handled
map_handler job none = none
map_handler job (some handler) = some (handler job)

abbrev session_of {ℓ} : {A : Type ℓ} → Ended A → Session
session_of (returned a s) = s
session_of (raised s) = s

record EndsSignalled (job : Job) (o : Ended (Unit {0})) : Type 0 where
  at : (s : Session) → o ≡ returned tt s → (older : List Command) × (s.log ≡ signal job.id ∷ older)

module _ (json : Json) (replies : ℕ → Reply) (delay : ℤ → ℕ) where
  -- What the handler's end makes of the job: its result is signalled last, or it is parked as a
  -- failure of that kind.
  abbrev pub Fated : Job → Option Handled → List Command → Type 0
  Fated job (some (answered result)) log = (older : List Command) × (log ≡ signal job.id ∷ older)
  Fated job (some transient) log =
      Parked (to_json json (failed_once job)) delay (failed_once job)
        (will_retry (failed_once job) false) log
  Fated job o log = Parked (to_json json (failed_once job)) delay (failed_once job) false log

-- ===== src/Executor/Start/Timeout.antt =====
-- A run that hits the execution timeout.
use citra_flows.Common.{◌≡◌, refl, true, false, some, arith}
use citra_flows.Models.{ExecutionStatus}
use citra_flows.Executor.State.{Env, Run, is_terminal, sweep_blobs_if_terminal}
use citra_flows.Executor.Visit.Reports.{sweeps, last_saved}
use citra_flows.Executor.Start.{time_out}

-- A run that is cut off by the timeout while it is not over is TIMED_OUT, which is a terminal
-- status, and is saved so; yet no blob is swept for it, neither before nor after.
pub time_out-sweeps :
    (env : Env) (r : Run)
    → is_terminal r.status ≡ false
    → ((time_out env r).status ≡ ExecutionStatus.timed_out)
      × (is_terminal (time_out env r).status ≡ true)
      × (last_saved (time_out env r).trace ≡ some (time_out env r).execution)
      × (sweeps (time_out env r).trace ≡ sweeps r.trace)
unfolding time_out sweep_blobs_if_terminal is_terminal
time_out-sweeps env r h = (refl, refl, refl, ground arith)

-- ===== src/Scheduler/Reaper/Ends.antt =====
-- Sweep after sweep, an abandoned execution comes to an end.
use citra_flows.Common.{ℕ, zero, suc, ◌+◌, ◌≤◌, ◌≡◌, ◌⊎◌, String, Bool, true, some}
use citra_flows.Scheduler.Reaper.{Execution, Settings, Store, is_stuck, check_stuck_executions}
use citra_flows.Scheduler.Reaper.Refines.{swept}

-- The queue takes every job.
abbrev pub always : String → Bool
always id = true

module _ (set : Settings) where
  -- Sweeps that have the lock, the first at `now` and the others more than the grace apart.
  abbrev pub sweeps : ℕ → ℕ → Store → Store
  sweeps zero now s = s
  sweeps (suc n) now s =
      sweeps n (suc (now + set.grace)) (check_stuck_executions (some true) set now always s)

  -- The same for one execution.
  abbrev pub sweeps_of : ℕ → ℕ → Execution → Execution
  sweeps_of zero now d = d
  sweeps_of (suc n) now d = sweeps_of n (suc (now + set.grace)) (swept set now always d)

  abbrev pub IsEnded : Execution → Type 0
  IsEnded d = (d.status ≡ "failed") ⊎ (d.status ≡ "cancelled")

  -- What one sweep makes of a stuck execution with `k` crash-resumes left.
  data Next (now k : ℕ) (e : Execution) : Type 0 where
    over : IsEnded e → Next now k e
    again :
        {j : ℕ}
        → k ≡ suc j
        → is_stuck set (suc (now + set.grace)) e ≡ true
        → set.max_crash_resume_attempts ≤ e.crash_resume_count + j
        → Next now k e

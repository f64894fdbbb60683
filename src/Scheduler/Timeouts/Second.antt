-- ===== src/Scheduler/Timeouts/Second.antt =====
-- A second pause of an execution whose first approval was granted.
use citra_flows.Common.{ℕ, String, none, some, [], ◌∷◌, map}
use citra_flows.Scheduler.Reaper.{Store}
use citra_flows.Scheduler.Timeouts.{Request, Board}
use citra_flows.Approval.{set_paused}

-- A request of the execution that nobody has resolved.
abbrev pub pending : String → String → ℕ → ℕ → Request
pending approval_id execution_id created_at timeout_hours = record {
  approval_id = approval_id;
  execution_id = execution_id;
  created_at = some created_at;
  timeout_hours = timeout_hours;
  resolution = none;
  resolved_at = none;
}

-- The executor has paused the execution a second time, by `resume`, which asks for no approval: the
-- only call of `_create_approval_request` is in `execute`.
abbrev pub paused_again : Request → Store → Board
paused_again old s = record {
  requests = old ∷ [];
  store = record s { docs = map set_paused s.docs };
  told = [];
}

-- ===== src/Scheduler/Timeouts.antt =====
-- `_check_approval_timeouts` of citra_workflow/scheduler.py. Timeouts are whole hours; Mongo is the
-- list of documents of WorkflowApprovals, and that of WorkflowExecutions in a store of Reaper.
pub mod Second
use citra_flows.Common.{
  ℕ, ◌+◌, ◌*◌, String, Bool, true, false, not, ◌&&◌, Option, none, some, List, [], ◌∷◌, ltb, select,
  if◌then◌else◌, ◌==◌,
}
use citra_flows.Scheduler.Reaper.{Execution, Store, update_one, has_id, set_failed, stored}

-- An `ApprovalRequest`, with the fields that the check reads or sets.
pub record Request : Type 0 where
  pub approval_id : String
  pub execution_id : String
  pub created_at : Option ℕ
  pub timeout_hours : ℕ
  pub resolution : Option String
  pub resolved_at : Option ℕ

-- Both collections, and the requests whose timeout was told, the newest first.
pub record Board : Type 0 where
  pub requests : List Request
  pub store : Store
  pub told : List String

abbrev pub is_unresolved : Request → Bool
is_unresolved q = elim (q.resolution) [ none ↦ true | some r ↦ false ]

-- The request has a creation time, and `now < deadline` does not hold.
abbrev pub is_expired : ℕ → Request → Bool
is_expired now q = elim (q.created_at) [
  | none ↦ false
  | some t ↦ not (ltb now (t + 3600 * q.timeout_hours))
]

abbrev pub set_timed_out : ℕ → Request → Request
set_timed_out now q = record q { resolution = some "timed_out"; resolved_at = some now }

-- `update_one` of WorkflowApprovals by the identifier.
unfoldable pub update_request : String → (Request → Request) → List Request → List Request
update_request id f [] = []
update_request id f (q ∷ qs) =
    let rest = update_request id f qs in if q.approval_id == id then f q ∷ qs else q ∷ rest

-- The filter of the update of the execution.
abbrev pub is_paused_at : String → Execution → Bool
is_paused_at id d = has_id id d && d.status == "paused"

-- A request that has expired. Its notification goes out whatever the execution's update changed.
unfoldable pub expire : ℕ → Request → Board → Board
expire now q b = record {
  requests = update_request q.approval_id (set_timed_out now) b.requests;
  store = stored (update_one (is_paused_at q.execution_id) (set_failed now) (b.store.docs)) b.store;
  told = q.approval_id ∷ b.told;
}

unfoldable pub expire_all : ℕ → List Request → Board → Board
expire_all now [] b = b
expire_all now (q ∷ cursor) b =
    expire_all now cursor (if is_expired now q then expire now q b else b)

-- The check, when `set_nx` of its lock answers so (`none` where it raises).
unfoldable pub check_approval_timeouts : Option Bool → ℕ → Board → Board
check_approval_timeouts (some true) now b = expire_all now (select is_unresolved b.requests) b
check_approval_timeouts acquired now b = b

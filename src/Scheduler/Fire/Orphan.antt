-- ===== src/Scheduler/Fire/Orphan.antt =====
-- A fire whose job could not be enqueued.

use citra_flows.Common.{true, false, ◌&&◌, ◌∷◌, In, ◌≡◌, refl, sym, ap, ==_iff}
use citra_flows.Scheduler.Fire.{
  Workflow, Plant, Call, Tick, Fate, failed, queued_run, dispatch, execute_scheduled_workflow,
}
use citra_flows.Scheduler.Fire.Guards.{is_dispatched, execute_scheduled_workflow-in_flight}

-- When the document of a run was inserted and the queue raised, the fire has failed and enqueued
-- nothing, and the document of the run stands among the executions with the status "queued". In any
-- later state in which it still stands there as it was inserted, no fire of the workflow enqueues
-- anything.
pub dispatch-orphan :
    (tick later : Tick) (w : Workflow) (s t : Plant)
    → tick.raises Call.insert ≡ false
    → tick.raises Call.enqueue ≡ true
    → later.workflow_id ≡ tick.workflow_id
    → In (queued_run tick w) t.executions
    → ((dispatch tick w s).0 ≡ failed)
      × ((dispatch tick w s).1.enqueued ≡ s.enqueued)
      × ((dispatch tick w s).1.executions ≡ queued_run tick w ∷ s.executions)
      × ((queued_run tick w).doc.status ≡ "queued")
      × (is_dispatched (execute_scheduled_workflow later t).0 ≡ false)
unfolding dispatch
dispatch-orphan tick later w s t ok bad same still =
    let inserted = record s { executions = queued_run tick w ∷ s.executions } in
    let e : dispatch tick w s ≡ (failed, inserted) = rw (ok, bad) refl in
    (
      ap (λ (r : Fate × Plant). r.0) e,
      ap (λ (r : Fate × Plant). r.1.enqueued) e,
      ap (λ (r : Fate × Plant). r.1.executions) e,
      refl,
      execute_scheduled_workflow-in_flight later t (queued_run tick w) still
          (ap (λ b. b && true) ((==_iff tick.workflow_id later.workflow_id).1 (sym same))),
    )

-- ===== src/Scheduler/Fire/Guards.antt =====
-- When a fire enqueues a run.
use mathlib.Core.Bool.{true≢false}
use citra_flows.Common.{
  ◌-◌, ◌≤◌, Bool, true, false, not, ◌&&◌, ◌||◌, Option, none, some, List, ◌∷◌, map, select, first,
  first-none, first-from, first-passes, In, length, ltb, ◌≡◌, inl, inr, refl, sym, ap, subst, ◌∙◌,
  arith, Bool-cases, if_ind, if_ind_eq,
}
use citra_flows.Control.{Halt, ttl, limit, is_enabled, get_halt}
use citra_flows.Control.Precedence.{covers, IsWidest, get_halt-IsWidest}
use citra_flows.Scheduler.Fire.{
  Lock, Workflow, Run, Plant, Call, find_workflow, build_workflow, find_inflight, set_running,
  set_cron, release, Tick, Fate, lock_error, lock_rejected, overlap_skipped, not_deployed, disabled,
  in_flight, halted, failed, dispatched, cron_key, running_key, set_nx, is_deployed, is_in_flight,
  queued_run, dispatch, unless_halted, halt_of, check_halt, unless_in_flight, check_workflow,
  attempt, conclude_fire, claim_running, execute_scheduled_workflow,
}

abbrev pub is_dispatched : Fate → Bool
is_dispatched dispatched = true
is_dispatched fate = false

-- What a fire that enqueues a run has found, and leaves.
pub record Sent (tick : Tick) (s t : Plant) : Type 0 where
  pub workflow : Workflow
  pub found : first (is_deployed tick) s.workflows ≡ some workflow
  pub scheduled : workflow.schedule_enabled ≡ true
  pub idle : first (is_in_flight tick.workflow_id) s.executions ≡ none
  pub free : (halt_of tick workflow s).0 ≡ none
  pub inserted : t.executions ≡ queued_run tick workflow ∷ s.executions
  pub sent : t.enqueued ≡ tick.execution_id ∷ s.enqueued

-- A fire either sends a run or leaves the queue alone.
pub record Sound (tick : Tick) (s : Plant) (r : Fate × Plant) : Type 0 where
  pub sends : is_dispatched r.0 ≡ true → Sent tick s r.1
  pub silent : is_dispatched r.0 ≡ false → r.1.enqueued ≡ s.enqueued

quiet :
    {tick : Tick} {s : Plant} (fate : Fate) (t : Plant)
    → is_dispatched fate ≡ false
    → t.enqueued ≡ s.enqueued
    → Sound tick s (fate, t)
quiet fate t f e = record { sends = λ d. absurd (true≢false (sym d ∙ f)); silent = λ d. e }

module _ (tick : Tick) (s : Plant) where
  module _ (w : Workflow) (found : first (is_deployed tick) s.workflows ≡ some w)
      (scheduled : w.schedule_enabled ≡ true) where
    dispatch-Sound :
        first (is_in_flight tick.workflow_id) s.executions ≡ none
        → (halt_of tick w s).0 ≡ none
        → Sound tick s (dispatch tick w (record s { cache = (halt_of tick w s).1 }))
    unfolding dispatch
    dispatch-Sound idle free =
        if_ind (Sound tick s) (tick.raises Call.insert) (quiet failed _ refl refl) (
          if_ind (Sound tick s) (tick.raises Call.enqueue) (quiet failed _ refl refl) (record {
            sends = λ d. record {
              workflow = w;
              found = found;
              scheduled = scheduled;
              idle = idle;
              free = free;
              inserted = refl;
              sent = refl;
            };
            silent = λ d. absurd (true≢false d);
          }))

    unless_halted-Sound :
        first (is_in_flight tick.workflow_id) s.executions ≡ none
        → (o : Option Halt) → (halt_of tick w s).0 ≡ o
        → Sound tick s (unless_halted tick w o (record s { cache = (halt_of tick w s).1 }))
    unfolding unless_halted
    unless_halted-Sound idle none e = dispatch-Sound idle e
    unless_halted-Sound idle (some c) e = quiet halted _ refl refl

    unless_in_flight-Sound :
        (o : Option Run)
        → first (is_in_flight tick.workflow_id) s.executions ≡ o
        → Sound tick s (unless_in_flight tick w o s)
    unfolding unless_in_flight check_halt
    unless_in_flight-Sound none e = unless_halted-Sound e (halt_of tick w s).0 refl
    unless_in_flight-Sound (some r) e = quiet in_flight _ refl refl

  check_workflow-Sound :
      (o : Option Workflow)
      → first (is_deployed tick) s.workflows ≡ o
      → Sound tick s (check_workflow tick o s)
  unfolding check_workflow
  check_workflow-Sound none e = quiet not_deployed _ refl refl
  check_workflow-Sound (some w) e =
      if_ind_eq (Sound tick s) (not w.schedule_enabled) (λ t. quiet disabled _ refl refl)
        (λ f.
          if_ind (Sound tick s) (tick.raises build_workflow || tick.raises find_inflight)
            (quiet failed _ refl refl)
            (unless_in_flight-Sound w e (ground (arith, f))
              (first (is_in_flight tick.workflow_id) s.executions) refl))

  attempt-Sound : Sound tick s (attempt tick s)
  unfolding attempt
  attempt-Sound =
      if_ind (Sound tick s) (tick.raises find_workflow) (quiet failed _ refl refl)
        (check_workflow-Sound (first (is_deployed tick) s.workflows) refl)

-- The locks play no part in what a fire sends.
Sound-locks :
    (tick : Tick) (s : Plant) (r : Fate × Plant)
    → (ls : List Lock) → Sound tick (record s { locks = ls }) r
    → Sound tick s r
Sound-locks tick s r ls h = record {
  sends = λ d.
      let e = h.sends d in
      record {
        workflow = e.workflow;
        found = e.found;
        scheduled = e.scheduled;
        idle = e.idle;
        free = e.free;
        inserted = e.inserted;
        sent = e.sent;
      };
  silent = h.silent;
}

conclude_fire-Sound :
    (tick : Tick) (s : Plant) (b : Bool) (r : Fate × Plant)
    → Sound tick s r
    → Sound tick s (conclude_fire tick b r)
unfolding conclude_fire
conclude_fire-Sound tick s b r h =
    if_ind (Sound tick s) (b && not (tick.raises release))
      (record {
        sends = λ d.
            let e = h.sends d in
            record {
              workflow = e.workflow;
              found = e.found;
              scheduled = e.scheduled;
              idle = e.idle;
              free = e.free;
              inserted = e.inserted;
              sent = e.sent;
            };
        silent = h.silent;
      })
      h

claim_running-Sound : (tick : Tick) (s : Plant) → Sound tick s (claim_running tick s)
unfolding claim_running
claim_running-Sound tick s =
    let r = set_nx (running_key tick) tick.lock_value tick.overlap_timeout tick.now s.locks in
    if_ind (Sound tick s) (tick.raises set_running)
      (conclude_fire-Sound tick s false (attempt tick s) (attempt-Sound tick s))
      (if_ind (Sound tick s) (not r.1) (quiet overlap_skipped _ refl refl) (
        conclude_fire-Sound tick s true _
          (Sound-locks tick s _ r.0 (attempt-Sound tick (record s { locks = r.0 })))))

pub execute_scheduled_workflow-Sound :
    (tick : Tick) (s : Plant) → Sound tick s (execute_scheduled_workflow tick s)
unfolding execute_scheduled_workflow
execute_scheduled_workflow-Sound tick s =
    let r = set_nx (cron_key tick) tick.lock_value tick.cron_timeout tick.now s.locks in
    if_ind (Sound tick s) (tick.raises set_cron) (quiet lock_error _ refl refl) (
      if_ind (Sound tick s) (not r.1) (quiet lock_rejected _ refl refl)
        (Sound-locks tick s _ r.0 (claim_running-Sound tick (record s { locks = r.0 }))))

-- What holds of a run that was sent: its workflow, the executions before and the halts.
pub record Guarded (tick : Tick) (s t : Plant) : Type 0 where
  pub workflow : Workflow
  pub found : In workflow s.workflows
  pub deployed : (is_deployed tick workflow && workflow.schedule_enabled) ≡ true
  pub idle : (r : Run) → In r s.executions → is_in_flight tick.workflow_id r ≡ false
  pub free :
      (c : Halt)
      → In c (select is_enabled s.controls)
      → covers workflow.org_id (map (tick.dept_token workflow.org_id) workflow.dept_ids) c ≡ false
  pub run : Run
  pub inserted : t.executions ≡ run ∷ s.executions
  pub queued : run.doc.status ≡ "queued"
  pub named : run.doc.execution_id ≡ tick.execution_id
  pub own : run.workflow_id ≡ tick.workflow_id
  pub sent : t.enqueued ≡ tick.execution_id ∷ s.enqueued

-- While an execution of the workflow is in flight, no fire enqueues another.
pub execute_scheduled_workflow-in_flight :
    (tick : Tick) (s : Plant) (r : Run)
    → In r s.executions
    → is_in_flight tick.workflow_id r ≡ true
    → is_dispatched (execute_scheduled_workflow tick s).0 ≡ false
execute_scheduled_workflow-in_flight tick s r i f =
    elim (Bool-cases (is_dispatched (execute_scheduled_workflow tick s).0)) [
      | inl d ↦
          let e = (execute_scheduled_workflow-Sound tick s).sends d in
          absurd (
            true≢false (sym f ∙ first-none (is_in_flight tick.workflow_id) s.executions r e.idle i))
      | inr n ↦ n
    ]

-- When Mongo answers the query of the halts, which was not answered in the last 5 seconds, and at
-- most 2000 halts are enabled: a fire that enqueues a run has found its workflow in the collection,
-- deployed, active and with its schedule enabled, no execution of the workflow queued, running,
-- resuming or paused, and no enabled halt that covers the workflow. It has inserted one document,
-- with the status "queued", its execution's identifier and that of the workflow, and enqueued its job.
pub execute_scheduled_workflow-Guarded :
    (tick : Tick) (s : Plant)
    → tick.raises Call.read_controls ≡ false
    → ltb (tick.now - s.cache.at) ttl ≡ false
    → length (select is_enabled s.controls) ≤ limit
    → is_dispatched (execute_scheduled_workflow tick s).0 ≡ true
    → Guarded tick s (execute_scheduled_workflow tick s).1
execute_scheduled_workflow-Guarded tick s works stale few d =
    let e = (execute_scheduled_workflow-Sound tick s).sends d in
    let w = e.workflow in
    let tokens = map (tick.dept_token w.org_id) w.dept_ids in
    let deployed = first-passes (is_deployed tick) s.workflows w e.found in
    record {
      workflow = w;
      found = first-from (is_deployed tick) s.workflows w e.found;
      deployed = ground (arith, deployed, e.scheduled);
      idle = λ r i. first-none (is_in_flight tick.workflow_id) s.executions r e.idle i;
      free =
          subst (IsWidest w.org_id tokens (select is_enabled s.controls))
            (ap (λ b. (get_halt (not b) tick.now w.org_id tokens s.controls s.cache).0) (sym works)
              ∙ e.free)
            (get_halt-IsWidest tick.now w.org_id tokens s.controls s.cache stale few);
      run = queued_run tick w;
      inserted = e.inserted;
      queued = refl;
      named = refl;
      own = refl;
      sent = e.sent;
    }

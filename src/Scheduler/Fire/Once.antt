-- ===== src/Scheduler/Fire/Once.antt =====
-- The lock of a cron window.
use mathlib.Core.Bool.{true≢false}
use citra_flows.Common.{
  ℕ, ◌+◌, ◌≤◌, ◌<◌, String, Bool, true, false, not, ◌&&◌, List, [], ◌∷◌, All, ◌≡◌, refl, sym, ap,
  ◌∙◌, arith, if_ind, if_ind_eq, ◌==◌,
}
use citra_flows.Scheduler.Fire.{
  wf_cron, Plant, set_running, set_cron, release, Tick, Fate, lock_error, lock_rejected, cron_key,
  running_key, is_locked, set_nx, is_not_owned, delete_if_owner, attempt, conclude_fire,
  claim_running, execute_scheduled_workflow,
}
use citra_flows.Scheduler.Fire.Locks.{
  attempt-locks, is_locked-select, cron-not_running, set_nx-keeps, set_nx-locks, set_nx-refused,
}

-- The lock of a cron window is held at the time.
abbrev pub Locked : String → String → ℕ → Plant → Type 0
Locked w t now' s = is_locked (wf_cron w t) now' s.locks ≡ true

-- The lock of a cron window stays through a fire.
module _ (w t : String) (now' : ℕ) (tick : Tick) (le : tick.now ≤ now') where
  attempt-Locked : (s : Plant) → Locked w t now' s → Locked w t now' (attempt tick s).1
  attempt-Locked s h = ap (is_locked (wf_cron w t) now') (attempt-locks tick s) ∙ h

  conclude_fire-Locked :
      (b : Bool) (r : Fate × Plant)
      → Locked w t now' r.1
      → Locked w t now' (conclude_fire tick b r).1
  unfolding conclude_fire delete_if_owner
  conclude_fire-Locked b r h =
      if_ind (λ (q : Fate × Plant). Locked w t now' q.1) (b && not (tick.raises release))
        (is_locked-select (wf_cron w t) now' (is_not_owned (running_key tick) tick.lock_value)
            r.1.locks
            (λ l e.
              ap (λ c. not (c && l.value == tick.lock_value))
                (cron-not_running l.key w t tick.workflow_id e))
          ∙ h)
        h

  claim_running-Locked : (s : Plant) → Locked w t now' s → Locked w t now' (claim_running tick s).1
  unfolding claim_running
  claim_running-Locked s h =
      let r = set_nx (running_key tick) tick.lock_value tick.overlap_timeout tick.now s.locks in
      let Kept = λ (q : Fate × Plant). Locked w t now' q.1 in
      if_ind Kept (tick.raises set_running)
        (conclude_fire-Locked false (attempt tick s) (attempt-Locked s h))
        (if_ind Kept (not r.1) h (
          conclude_fire-Locked true _ (
            attempt-Locked (record s { locks = r.0 })
              (set_nx-keeps (wf_cron w t) (running_key tick) tick.lock_value tick.overlap_timeout
                tick.now now' s.locks le h))))

  execute-Locked :
      (s : Plant) → Locked w t now' s → Locked w t now' (execute_scheduled_workflow tick s).1
  unfolding execute_scheduled_workflow
  execute-Locked s h =
      let r = set_nx (cron_key tick) tick.lock_value tick.cron_timeout tick.now s.locks in
      let Kept = λ (q : Fate × Plant). Locked w t now' q.1 in
      if_ind Kept (tick.raises set_cron) h (
        if_ind Kept (not r.1) h (
          claim_running-Locked (record s { locks = r.0 })
            (set_nx-keeps (wf_cron w t) (cron_key tick) tick.lock_value tick.cron_timeout tick.now
              now' s.locks le h)))

-- The fire has not got the lock of its cron window.
abbrev pub is_refused : Fate → Bool
is_refused lock_error = true
is_refused lock_rejected = true
is_refused fate = false

-- Fires in the order in which they happen.
abbrev pub fires : List Tick → Plant → Plant
fires [] s = s
fires (tick ∷ ticks) s = fires ticks (execute_scheduled_workflow tick s).1

fires-Locked :
    (w t : String) (now' : ℕ) (ticks : List Tick) (s : Plant)
    → All (λ (tick : Tick). tick.now ≤ now') ticks
    → Locked w t now' s
    → Locked w t now' (fires ticks s)
fires-Locked w t now' [] s le h = h
fires-Locked w t now' (tick ∷ ticks) s le h =
    fires-Locked w t now' ticks (execute_scheduled_workflow tick s).1 le.1
      (execute-Locked w t now' tick le.0 s h)

execute-gains :
    (tick : Tick) (now' : ℕ) (s : Plant)
    → tick.now ≤ now'
    → now' < tick.now + tick.cron_timeout
    → is_refused (execute_scheduled_workflow tick s).0 ≡ false
    → Locked tick.workflow_id tick.fire_ts now' (execute_scheduled_workflow tick s).1
unfolding execute_scheduled_workflow
execute-gains tick now' s le lt =
    let r = set_nx (cron_key tick) tick.lock_value tick.cron_timeout tick.now s.locks in
    let Gains = λ (q : Fate × Plant).
      is_refused q.0 ≡ false → Locked tick.workflow_id tick.fire_ts now' q.1 in
    if_ind Gains (tick.raises set_cron) (λ e. absurd (true≢false e))
      (if_ind_eq Gains (not r.1) (λ u e. absurd (true≢false e))
        (λ f e.
          claim_running-Locked tick.workflow_id tick.fire_ts now' tick le (record s { locks = r.0 })
            (set_nx-locks (cron_key tick) tick.lock_value tick.cron_timeout tick.now now' s.locks
              (ground (arith, f)) lt)))

execute-refused :
    (tick : Tick) (s : Plant)
    → is_locked (cron_key tick) tick.now s.locks ≡ true
    → is_refused (execute_scheduled_workflow tick s).0 ≡ true
unfolding execute_scheduled_workflow
execute-refused tick s h =
    let r = set_nx (cron_key tick) tick.lock_value tick.cron_timeout tick.now s.locks in
    let Refused = λ (q : Fate × Plant). is_refused q.0 ≡ true in
    if_ind Refused (tick.raises set_cron) refl (
      if_ind_eq Refused (not r.1) (λ u. refl)
        (λ f.
          let n =
            set_nx-refused (cron_key tick) tick.lock_value tick.cron_timeout tick.now s.locks h in
          absurd (true≢false (sym (ap not n) ∙ f))))

-- Once a fire has got the lock of its cron window, every later fire of the same workflow and window,
-- on any instance and whatever fires happen in between, ends at that lock, as long as the lock's
-- timeout has not passed and the clocks agree on the order.
pub execute_scheduled_workflow-once :
    (tick later : Tick) (between : List Tick) (s : Plant)
    → is_refused (execute_scheduled_workflow tick s).0 ≡ false
    → later.workflow_id ≡ tick.workflow_id
    → later.fire_ts ≡ tick.fire_ts
    → tick.now ≤ later.now
    → All (λ (t : Tick). t.now ≤ later.now) between
    → later.now < tick.now + tick.cron_timeout
    → is_refused
        (execute_scheduled_workflow later (fires between (execute_scheduled_workflow tick s).1)).0
      ≡ true
execute_scheduled_workflow-once tick later between s got same window le les lt =
    let t = (execute_scheduled_workflow tick s).1 in
    execute-refused later (fires between t) (
      ap (λ k. is_locked k later.now (fires between t).locks)
        (ap (λ v. wf_cron v later.fire_ts) same ∙ ap (wf_cron tick.workflow_id) window)
      ∙ fires-Locked tick.workflow_id tick.fire_ts later.now between t les
          (execute-gains tick later.now s le lt got))

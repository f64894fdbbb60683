-- ===== src/Scheduler/Fire/Locks.antt =====
-- What the locks of Redis keep, and that nothing between them changes them.
use mathlib.Core.Bool.{true≢false}
use citra_flows.Common.{
  ℕ, ◌+◌, ◌≤◌, ◌<◌, String, Bool, true, false, not, ◌&&◌, ◌||◌, Option, none, some, List, [], ◌∷◌,
  select, first, ltb, ◌≡◌, inl, inr, refl, sym, ap, ◌∙◌, arith, Bool-cases, if_ind, if_ind_eq,
  ==_iff, if◌then◌else◌,
}
use citra_flows.Control.{Halt}
use citra_flows.Scheduler.Fire.{
  Key, wf_cron, wf_running, key_eq, Lock, Workflow, Run, Plant, Call, find_workflow, build_workflow,
  find_inflight, Tick, Fate, is_held, is_not_at, is_locked, set_nx, is_deployed, is_in_flight,
  dispatch, unless_halted, halt_of, check_halt, unless_in_flight, check_workflow, attempt,
}

-- What lies between the locks leaves these alone.
module _ (tick : Tick) (s : Plant) where
  abbrev Keeps : Fate × Plant → Type 0
  Keeps r = r.1.locks ≡ s.locks

  dispatch-locks : (w : Workflow) (t : Plant) → t.locks ≡ s.locks → Keeps (dispatch tick w t)
  unfolding dispatch
  dispatch-locks w t e =
      if_ind Keeps (tick.raises Call.insert) e (if_ind Keeps (tick.raises Call.enqueue) e e)

  unless_halted-locks :
      (w : Workflow) (o : Option Halt) (t : Plant)
      → t.locks ≡ s.locks
      → Keeps (unless_halted tick w o t)
  unfolding unless_halted
  unless_halted-locks w none t e = dispatch-locks w t e
  unless_halted-locks w (some c) t e = e

  unless_in_flight-locks : (w : Workflow) (o : Option Run) → Keeps (unless_in_flight tick w o s)
  unfolding unless_in_flight check_halt
  unless_in_flight-locks w none = unless_halted-locks w (halt_of tick w s).0 _ refl
  unless_in_flight-locks w (some r) = refl

  check_workflow-locks : (o : Option Workflow) → Keeps (check_workflow tick o s)
  unfolding check_workflow
  check_workflow-locks none = refl
  check_workflow-locks (some w) = if_ind Keeps (not w.schedule_enabled) refl (
      if_ind Keeps (tick.raises build_workflow || tick.raises find_inflight) refl
        (unless_in_flight-locks w (first (is_in_flight tick.workflow_id) s.executions)))

  pub attempt-locks : (attempt tick s).1.locks ≡ s.locks
  unfolding attempt
  attempt-locks =
      if_ind Keeps (tick.raises find_workflow) refl
        (check_workflow-locks (first (is_deployed tick) s.workflows))

-- A lock stays through a filter that keeps its key.
pub is_locked-select :
    (key : Key) (now : ℕ) (p : Lock → Bool) (ls : List Lock)
    → ((l : Lock) → key_eq l.key key ≡ true → p l ≡ true)
    → is_locked key now (select p ls) ≡ is_locked key now ls
unfolding is_locked
is_locked-select key now p [] h = refl
is_locked-select key now p (l ∷ ls) h =
    let rec = is_locked-select key now p ls h in
    elim (Bool-cases (key_eq l.key key)) [
      | inl t ↦
          ap (λ b. is_locked key now (elim b [ true ↦ l ∷ select p ls | false ↦ select p ls ]))
            (h l t)
          ∙ ap (λ b. if is_held key now l then true else b) rec
      | inr f ↦
          let skip : (xs : List Lock) → is_locked key now (l ∷ xs) ≡ is_locked key now xs =
            λ xs. ap (λ b. if b && ltb now l.expires then true else is_locked key now xs) f in
          elim (p l)
            as (λ b.
              is_locked key now (elim b [ true ↦ l ∷ select p ls | false ↦ select p ls ])
              ≡ is_locked key now (l ∷ ls)) [
                | true ↦ skip (select p ls) ∙ rec ∙ sym (skip ls)
                | false ↦ rec ∙ sym (skip ls)
              ]
    ]

pub cron-not_running :
    (k : Key) (w t v : String) → key_eq k (wf_cron w t) ≡ true → key_eq k (wf_running v) ≡ false
unfolding key_eq
cron-not_running (wf_cron a b) w t v h = refl
cron-not_running (wf_running a) w t v h = absurd (true≢false (sym h))

pub key_eq-eq : (k l : Key) → key_eq k l ≡ true → k ≡ l
unfolding key_eq
key_eq-eq (wf_cron a b) (wf_cron c d) h =
    let e = (==_iff a c).0 (ground arith) in let f = (==_iff b d).0 (ground arith) in rw (e, f) refl
key_eq-eq (wf_running a) (wf_running c) h = ap wf_running ((==_iff a c).0 h)
key_eq-eq (wf_cron a b) (wf_running c) h = absurd (true≢false (sym h))
key_eq-eq (wf_running a) (wf_cron c d) h = absurd (true≢false (sym h))

pub key_eq_refl : (k : Key) → key_eq k k ≡ true
unfolding key_eq
key_eq_refl (wf_cron a b) = ground (arith, ==_iff a a, ==_iff b b)
key_eq_refl (wf_running a) = (==_iff a a).1 refl

pub is_locked-earlier :
    (k : Key) (now now' : ℕ) (ls : List Lock)
    → now ≤ now'
    → is_locked k now' ls ≡ true
    → is_locked k now ls ≡ true
unfolding is_locked
is_locked-earlier k now now' [] le h = h
is_locked-earlier k now now' (l ∷ ls) le h = ground (arith, is_locked-earlier k now now' ls le)

pub is_locked-cons :
    (k : Key) (now : ℕ) (l : Lock) (ls : List Lock)
    → is_locked k now ls ≡ true
    → is_locked k now (l ∷ ls) ≡ true
unfolding is_locked
is_locked-cons k now l ls h = if_ind (λ b. b ≡ true) (is_held k now l) refl h

pub set_nx-keeps :
    (k k' : Key) (value : String) (timeout now now' : ℕ) (ls : List Lock)
    → now ≤ now'
    → is_locked k now' ls ≡ true
    → is_locked k now' (set_nx k' value timeout now ls).0 ≡ true
unfolding set_nx
set_nx-keeps k k' value timeout now now' ls le h =
    if_ind_eq (λ (r : List Lock × Bool). is_locked k now' r.0 ≡ true) (is_locked k' now ls) (λ t. h)
      (λ f.
        let other : key_eq k k' ≡ false = elim (Bool-cases (key_eq k k')) [
          | inl t ↦ absurd (
              true≢false (
                sym (is_locked-earlier k now now' ls le h)
                ∙ ap (λ q. is_locked q now ls) (key_eq-eq k k' t)
                ∙ f))
          | inr n ↦ n
        ] in
        is_locked-cons k now' _ (select (is_not_at k') ls) (
          is_locked-select k now' (is_not_at k') ls
            (λ l e. ap (λ q. not (key_eq q k')) (key_eq-eq l.key k e) ∙ ap not other)
          ∙ h))

pub set_nx-locks :
    (k : Key) (value : String) (timeout now now' : ℕ) (ls : List Lock)
    → (set_nx k value timeout now ls).1 ≡ true
    → now' < now + timeout
    → is_locked k now' (set_nx k value timeout now ls).0 ≡ true
unfolding set_nx is_locked
set_nx-locks k value timeout now now' ls =
    if_ind
      (λ (r : List Lock × Bool). r.1 ≡ true → now' < now + timeout → is_locked k now' r.0 ≡ true)
      (is_locked k now ls) (λ e lt. absurd (true≢false (sym e)))
      (λ e lt. ground (arith, key_eq_refl k))

pub set_nx-refused :
    (k : Key) (value : String) (timeout now : ℕ) (ls : List Lock)
    → is_locked k now ls ≡ true
    → (set_nx k value timeout now ls).1 ≡ false
unfolding set_nx
set_nx-refused k value timeout now ls h = rw h refl

-- ===== src/Scheduler/Registry/Accepts.antt =====
-- Which schedules get a cron job.
use mathlib.Core.Bool.{true≢false}
use citra_flows.Common.{
  ℕ, String, true, false, none, some, List, [], ◌∷◌, mem, is_empty, select, mem_self, ◌≡◌, inl, inr,
  refl, sym, ap, subst, ◌∙◌, arith, map, occurrences, ltb, Bool, Option-cases, if_ind_eq,
  if◌then◌else◌, ◌==◌, ==_iff,
}
use citra_flows.Value.{codes, strip}
use citra_flows.Scheduler.Cron.{
  Calendar, CronError, normalize_timezone, split, zone_used, validate_cron_schedule,
}
use citra_flows.Scheduler.Cron.Accepted.{validate_cron_schedule-IsAccepted}
use citra_flows.Scheduler.Registry.Agree.{id_of, Agrees, AgreesAt, register_workflow-Agrees}
use citra_flows.Scheduler.Registry.{
  Job, Manager, Schedule, is_other_id, remove_job, unregister_workflow, add_job, add_trigger,
  register_valid, register_active, is_active, register_workflow,
}

mem-other : (w : String) (ids : List String) → mem w (select (is_other_id w) ids) ≡ false
mem-other w [] = refl
mem-other w (x ∷ ids) = ground (arith, mem-other w ids, ==_iff w x, ==_iff x w)

mem-others :
    (v w : String) (ids : List String)
    → (v == w) ≡ false
    → mem v (select (is_other_id w) ids) ≡ mem v ids
mem-others v w [] n = refl
mem-others v w (x ∷ ids) n =
    ground (arith, mem-others v w ids n, ==_iff v w, ==_iff v x, ==_iff x w)

mem-occurrences : (w : String) (ids : List String) → mem w ids ≡ ltb 0 (occurrences w ids)
mem-occurrences w [] = refl
mem-occurrences w (x ∷ ids) = ground (arith, mem-occurrences w ids)

is_empty-nil : {A : Type 0} (xs : List A) → is_empty xs ≡ true → xs ≡ []
is_empty-nil [] e = refl
is_empty-nil (x ∷ xs) e = cc

module _ {T : Type 0} where
  is_active-some :
      (m : Manager T) → is_active m ≡ true → (js : List (Job T)) × (m.scheduler ≡ some js)
  is_active-some m a = elim (Option-cases m.scheduler) [
    | inl e ↦ let q = sym a ∙ ap (λ o. elim o [ none ↦ false | some js ↦ true ]) e in absurd (cc)
    | inr j ↦ j
  ]

  remove_job-some :
      (w : String) (m : Manager T)
      → is_active m ≡ true
      → is_active (record { scheduler = remove_job w m.scheduler; jobs = [] }) ≡ true
  unfolding remove_job
  remove_job-some w m a =
      let j = is_active-some m a in
      ap (λ o. elim (remove_job w o) [ none ↦ false | some js ↦ true ]) j.1

  -- APScheduler has a cron job of the workflow.
  abbrev pub has_job : String → Manager T → Bool
  has_job w m = elim (m.scheduler) [ none ↦ false | some js ↦ mem w (map id_of js) ]

  has_job-mem : (w : String) (m : Manager T) → Agrees m → has_job w m ≡ mem w m.jobs
  has_job-mem w m h = elim (Option-cases m.scheduler) [
    | inl e ↦ rw e (ap (mem w) (sym (subst (λ sc. AgreesAt sc m.jobs) e h)))
    | inr (js, e) ↦
        let matches = subst (λ sc. AgreesAt sc m.jobs) e h in
        rw e (
          mem-occurrences w (map id_of js)
          ∙ ap (ltb 0) (matches w).0
          ∙ sym (mem-occurrences w m.jobs))
  ]

  -- What removing the old job leaves.
  abbrev IsRemoved : String → Manager T → Manager T → Type 0
  IsRemoved w m n =
      (is_active n ≡ true)
      × (mem w n.jobs ≡ false)
      × ((v : String) → (v == w) ≡ false → mem v n.jobs ≡ mem v m.jobs)

  unregister_workflow-IsRemoved :
      (w : String) (m : Manager T) → is_active m ≡ true → IsRemoved w m (unregister_workflow w m)
  unfolding unregister_workflow
  unregister_workflow-IsRemoved w m a =
      if_ind_eq (IsRemoved w m) (mem w m.jobs)
        (λ t. (remove_job-some w m a, mem-other w m.jobs, λ v n. mem-others v w m.jobs n))
        (λ f. (a, f, λ v n. refl))

  add_trigger-jobs :
      (sched : Schedule) (trigger : T) (js : List (Job T)) (m : Manager T)
      → (add_trigger sched (some trigger) (some js) m).jobs
        ≡ sched.workflow_id ∷ select (is_other_id sched.workflow_id) m.jobs
  unfolding add_trigger add_job
  add_trigger-jobs sched trigger js m = refl

  module _ (cal : Calendar T) (now : ℕ) (sched : Schedule) where
    abbrev errors : List CronError
    errors = validate_cron_schedule cal now sched.cron_expression sched.timezone

    abbrev Accepts : Manager T → Manager T → Type 0
    Accepts m n =
        (mem sched.workflow_id n.jobs ≡ is_empty errors)
        × ((v : String) → (v == sched.workflow_id) ≡ false → mem v n.jobs ≡ mem v m.jobs)

    added :
        (m n : Manager T)
        → IsRemoved sched.workflow_id m n
        → is_empty errors ≡ true
        → Accepts m (
            add_trigger sched
              (cal.parse
                (split (strip sched.cron_expression))
                (zone_used cal (normalize_timezone sched.timezone)))
              n.scheduler
              n)
    unfolding zone_used
    added m n r t =
        let w = sched.workflow_id in
        let ok =
          validate_cron_schedule-IsAccepted cal now sched.cron_expression sched.timezone
            (is_empty-nil errors t) in
        let parts = split (strip sched.cron_expression) in
        let tz = normalize_timezone sched.timezone in
        let used = ap (λ b. cal.parse parts (if b then tz else codes "UTC")) ok.1.1 ∙ ok.1.2 in
        let js = is_active-some n r.0 in
        let e =
          ap (λ o. (add_trigger sched o n.scheduler n).jobs) used
          ∙ ap (λ o. (add_trigger sched (some ok.0) o n).jobs) js.1
          ∙ add_trigger-jobs sched ok.0 js.0 n in
        (
          ap (mem w) e ∙ mem_self w (select (is_other_id w) n.jobs) ∙ sym t,
          λ v d. ap (mem v) e ∙ ground (arith, d, mem-others v w n.jobs d, r.2 v d),
        )

    -- The same of the workflows of `_jobs`.
    register_workflow-Accepts :
        (m : Manager T)
        → is_active m ≡ true
        → is_empty sched.cron_expression ≡ false
        → Accepts m (register_workflow cal now sched m)
    unfolding register_workflow register_active register_valid
    register_workflow-Accepts m a c =
        let n = unregister_workflow sched.workflow_id m in
        let r = unregister_workflow-IsRemoved sched.workflow_id m a in
        if_ind_eq (Accepts m) (is_active m)
          (λ t.
            if_ind_eq (Accepts m) (is_empty sched.cron_expression)
              (λ e. absurd (true≢false (sym e ∙ c)))
              (λ e.
                if_ind_eq (Accepts m) (is_empty errors) (added m n r) (λ f. (r.1 ∙ sym f, r.2))))
          (λ f. absurd (true≢false (sym a ∙ f)))

    -- On a leader whose cron jobs agree with `_jobs`: after `register_workflow` of a workflow whose
    -- cron expression is not empty, APScheduler has a job of it exactly when its schedule validates,
    -- in particular when its zone is known: the job it had goes otherwise. Every other workflow has
    -- one exactly if it had one before.
    pub register_workflow-accepts :
        (m : Manager T)
        → is_active m ≡ true
        → Agrees m
        → is_empty sched.cron_expression ≡ false
        → (has_job sched.workflow_id (register_workflow cal now sched m) ≡ is_empty errors)
          × ((v : String)
              → (v == sched.workflow_id) ≡ false
              → has_job v (register_workflow cal now sched m) ≡ has_job v m)
    register_workflow-accepts m a agrees c =
        let n = register_workflow cal now sched m in
        let after = register_workflow-Agrees cal now sched m agrees in
        let accepts = register_workflow-Accepts m a c in
        (
          has_job-mem sched.workflow_id n after ∙ accepts.0,
          λ v d. has_job-mem v n after ∙ accepts.1 v d ∙ sym (has_job-mem v m agrees),
        )

-- ===== src/Executor/Resume/Reach/Approved.antt =====
-- Which nodes a run reaches that is resumed at the node where it paused.
use citra_flows.Common.{
  All, suc, String, ◌⊎◌, ◌≡◌, sym, subst, true, false, not, Bool, some, List, [], ◌∷◌, mem, length,
  select, if_ind, if_ind_eq, ◌==◌, mem-cons_cases, mem-cons_of_mem, mem_self, inl, inr,
}
use citra_flows.Models.{WorkflowDefinition, WorkflowExecution}
use citra_flows.Executor.Graph.{children}
use citra_flows.Executor.State.{Env, Run, runs}
use citra_flows.Executor.Visit.{Flow, go, returned, threw}
use citra_flows.Executor.Loop.{Ending, done, out_of_fuel, rounds}
use citra_flows.Executor.Loop.Spread.{AllHave, Spreads, SpreadsEnding, rounds-Spreads}
use citra_flows.Executor.Start.{conclude, complete, crash}
use citra_flows.Executor.Start.Guarantees.{sweep-runs}
use citra_flows.Executor.Resume.{
  Resumed, resumed, not_paused, exhausted, can_resume, resumed_visit, resumed_start, resumed_ending,
  seed, reject, resume,
}
use citra_flows.Executor.Resume.Reach.{Below, child, visit-Queues}

pick_cases :
    (b : Bool) (x y : String) (rest : List String)
    → mem x (elim b [ true ↦ y ∷ rest | false ↦ rest ]) ≡ true
    → (x ≡ y) ⊎ (mem x rest ≡ true)
pick_cases true x y rest m = mem-cons_cases x y rest m
pick_cases false x y rest m = inr m

mem-select :
    (f : String → Bool) (x : String) (xs : List String)
    → mem x (select f xs) ≡ true
    → mem x xs ≡ true
mem-select f x [] m = m
mem-select f x (y ∷ ys) m = elim (pick_cases (f y) x y (select f ys) m) [
  | inl e ↦ subst (λ z. mem z (y ∷ ys) ≡ true) (sym e) (mem_self y ys)
  | inr i ↦ mem-cons_of_mem x y ys (mem-select f x ys i)
]

module _ (env : Env) (wf : WorkflowDefinition) (x : WorkflowExecution) (top : String) where
  abbrev BelowTop : String → Type 0
  BelowTop = Below wf.edges top

  conclude-AllHave :
      (f : Flow) → Spreads BelowTop f → AllHave BelowTop (runs (conclude env f).trace)
  unfolding conclude complete crash
  conclude-AllHave (go r next) h = rw (sweep-runs env) h.0
  conclude-AllHave (returned r) h = rw (sweep-runs env) h
  conclude-AllHave (threw r m) h = rw (sweep-runs env) h

  abbrev ReachedAt : Resumed → Type 0
  ReachedAt not_paused = Unit
  ReachedAt (resumed r) = AllHave BelowTop (runs r.trace)
  ReachedAt exhausted = Unit

  record Reached (o : Resumed) : Type 0 where
    at : ReachedAt o

  ending-Reached : (e : Ending) → SpreadsEnding BelowTop e → Reached (resumed_ending env e)
  ending-Reached (done f) h = record { at = conclude-AllHave f h }
  ending-Reached out_of_fuel h = record { at = tt }

  record Started (queue : List String) : Type 0 where
    at : AllHave BelowTop queue

  seed-AllHave : (ex : List String) → (top == "") ≡ false → AllHave BelowTop (seed wf ex (some top))
  unfolding seed
  seed-AllHave ex e =
      (if_ind_eq Started (top == "") (λ h. cc)
        (λ h. record { at = λ y m. child (mem-select _ y (children wf.edges top) m) })).at

  loop-Reached :
      (queue : List String)
      → AllHave BelowTop queue
      → Reached (
          resumed_ending env (
            rounds wf.edges
              (resumed_visit env wf x.trigger_data)
              (suc (length wf.nodes))
              queue
              (resumed_start wf x)))
  unfolding resumed_start
  loop-Reached queue q = ending-Reached _ (
      rounds-Spreads BelowTop wf.edges (resumed_visit env wf x.trigger_data)
        (λ n r next b h g.
          (visit-Queues env wf x.trigger_data top n b r next
            (record { ran_below = h; queued_below = g })).at)
        (suc (length wf.nodes)) queue (resumed_start wf x) q (λ y m. cc))

  reject-Reached : Reached (resumed (reject env wf x))
  unfolding reject
  reject-Reached = record { at = rw (sweep-runs env) (λ y m. cc) }

  not_paused-Reached : Reached not_paused
  not_paused-Reached = record { at = tt }

  resume-Reached :
      (approved : Bool)
      → x.paused_at_node ≡ some top
      → (top == "") ≡ false
      → Reached (resume env wf x approved)
  unfolding resume
  resume-Reached approved p e =
      if_ind Reached (not (can_resume x.status)) {x = not_paused} not_paused-Reached (
        if_ind Reached (not approved) {x = resumed (reject env wf x)} reject-Reached (
          loop-Reached (seed wf (resumed_start wf x).executed x.paused_at_node) (
            subst (λ o. AllHave BelowTop (seed wf (resumed_start wf x).executed o)) (sym p)
              (seed-AllHave (resumed_start wf x).executed e))))

  AllHave-All : (P : String → Type 0) (xs : List String) → AllHave P xs → All P xs
  AllHave-All P [] h = tt
  AllHave-All P (y ∷ ys) h =
      (h y (mem_self y ys), AllHave-All P ys (λ z m. h z (mem-cons_of_mem z y ys m)))

  -- A run that is resumed at the node where it paused runs only nodes below that node.
  pub resume-Below :
      (approved : Bool) (r : Run)
      → x.paused_at_node ≡ some top
      → (top == "") ≡ false
      → resume env wf x approved ≡ resumed r
      → All (Below wf.edges top) (runs r.trace)
  resume-Below approved r p e q =
      AllHave-All _ (runs r.trace) (subst Reached q (resume-Reached approved p e)).at

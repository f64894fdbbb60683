-- ===== src/Executor/Resume/Fresh.antt =====
-- A resumed run: what it runs, and that it ends.

use citra_flows.Common.{
  suc, ◌≤◌, String, ◌≡◌, ◌≢◌, if_ind, subst, Bool, true, false, not, List, ◌∷◌, [], arith, length,
  mem,
}
use citra_flows.Common.Dict.{keys}
use citra_flows.Models.{WorkflowDefinition, WorkflowExecution}
use citra_flows.Executor.Graph.{node_map}
use citra_flows.Executor.Graph.Sizes.{node_map-le}
use citra_flows.Executor.State.{Env, Run, runs}
use citra_flows.Executor.Loop.{Ending, done, out_of_fuel, rounds}
use citra_flows.Executor.Loop.Order.{Topological, Inv-start, Final, InvOf}
use citra_flows.Executor.Loop.Runs.{AfterEnding, rounds-After}
use citra_flows.Executor.Loop.Total.{missing, IsDone, rounds-RoundsDone}
use citra_flows.Executor.Start.Guarantees.{conclude-runs, sweep-runs}
use citra_flows.Executor.Resume.{
  Resumed, not_paused, resumed, exhausted, can_resume, restored, resumed_start, seed, resumed_visit,
  resumed_ending, resume, reject,
}
use citra_flows.Executor.Resume.Visits.{resumed_visit-Visits, resumed_visit-IsExecutor}

missing-le : (ids ex : List String) → missing ids ex ≤ length ids
missing-le [] ex = omega arith
missing-le (i ∷ ids) ex = ground (arith, missing-le ids ex)

-- What a resumed run satisfies, if it ran at all.
abbrev Keeps : Env → WorkflowDefinition → List String → Resumed → Type 0
Keeps env wf base not_paused = Unit
Keeps env wf base (resumed r) = Final wf.edges env.max_node_steps base (runs r.trace)
Keeps env wf base exhausted = Unit

-- The call did not run out of fuel.
abbrev Ends : Resumed → Type 0
Ends exhausted = ⊥
Ends r = Unit

record KeepsAt (env : Env) (wf : WorkflowDefinition) (base : List String) (o : Resumed)
    : Type 0 where
  at : Keeps env wf base o × Ends o

module _ (env : Env) (wf : WorkflowDefinition) (x : WorkflowExecution) where
  abbrev base : List String
  base = restored x.node_results

  ending-KeepsAt :
      (e : Ending)
      → AfterEnding wf.edges env.max_node_steps base e
      → IsDone e
      → KeepsAt env wf base (resumed_ending env e)
  ending-KeepsAt (done f) h d = record {
    at = (conclude-runs env wf.edges env.max_node_steps base f h, tt);
  }
  ending-KeepsAt out_of_fuel h d = absurd d

  start-Inv : InvOf wf.edges env.max_node_steps base (resumed_start wf x)
  unfolding resumed_start
  start-Inv = Inv-start wf.edges env.max_node_steps base (length base)

  loop-KeepsAt :
      (queue : List String)
      → KeepsAt env wf base (
          resumed_ending env (
            rounds wf.edges
              (resumed_visit env wf x.trigger_data)
              (suc (length wf.nodes))
              queue
              (resumed_start wf x)))
  loop-KeepsAt queue =
      ending-KeepsAt _
        (rounds-After wf.edges env.max_node_steps base (resumed_visit env wf x.trigger_data)
          (resumed_visit-Visits env wf x.trigger_data) (suc (length wf.nodes)) queue
          (resumed_start wf x) start-Inv)
        (rounds-RoundsDone wf.edges (keys (node_map wf)) (resumed_visit env wf x.trigger_data)
          (resumed_visit-IsExecutor env wf x.trigger_data) (suc (length wf.nodes)) queue
          (resumed_start wf x)
          (omega
            (arith, missing-le (keys (node_map wf)) (resumed_start wf x).executed, node_map-le wf)))

  reject-KeepsAt : KeepsAt env wf base (resumed (reject env wf x))
  unfolding reject
  reject-KeepsAt = record {
    at =
        (rw (sweep-runs env) (record { new = λ y h. cc; ordered = tt; bounded = omega arith }), tt);
  }

  not_paused-KeepsAt : KeepsAt env wf base not_paused
  not_paused-KeepsAt = record { at = (tt, tt) }

  resume-KeepsAt : (approved : Bool) → KeepsAt env wf base (resume env wf x approved)
  unfolding resume
  resume-KeepsAt approved =
      if_ind (KeepsAt env wf base) (not (can_resume x.status)) {x = not_paused} not_paused-KeepsAt (
        if_ind (KeepsAt env wf base) (not approved) {x = resumed (reject env wf x)} reject-KeepsAt
          (loop-KeepsAt (seed wf (resumed_start wf x).executed x.paused_at_node)))

  -- A resumed run, whatever its approval: it runs no node that was completed or skipped when the
  -- run paused, runs no node twice, none after one of its children, and at most
  -- `max_node_steps` nodes.
  pub resume-Final :
      (approved : Bool) (r : Run)
      → resume env wf x approved ≡ resumed r
      → ((n : String) → mem n (runs r.trace) ≡ true → mem n (restored x.node_results) ≡ false)
        × Topological wf.edges (runs r.trace)
        × (length (runs r.trace) ≤ env.max_node_steps)
  resume-Final approved r e =
      let f = (subst (KeepsAt env wf base) e (resume-KeepsAt approved)).at.0 in
      (f.new, f.ordered, f.bounded)

  -- `resume` never uses up its fuel, for any execution: that of one round more than the workflow has
  -- nodes, which is what its loop is given, is enough.
  pub resume-total : (approved : Bool) → resume env wf x approved ≢ exhausted
  resume-total approved e = (subst (KeepsAt env wf base) e (resume-KeepsAt approved)).at.1

-- ===== src/Executor/Start/Guarantees.antt =====
-- What every run of `_execute_inner` satisfies, whatever the nodes, the cancel flag, the clock and
-- the order of the root nodes are.
use citra_flows.Common.{
  ℕ, suc, ◌≤◌, String, ◌≡◌, refl, ap, subst, Option, some, List, [], ◌∷◌, arith, length,
}
use mathlib.Core.Option.{some-injective}
use citra_flows.Common.Dict.{keys}
use citra_flows.Value.{Fields}
use citra_flows.Models.{WorkflowDefinition, EdgeDefinition, Message}
use citra_flows.Executor.Graph.{node_map, orphaned_nodes, root_nodes}
use citra_flows.Executor.Graph.Sizes.{node_map-le}
use citra_flows.Executor.State.{Env, Run, runs, sweep_blobs_if_terminal}
use citra_flows.Executor.Visit.{Flow, go, returned, threw, visit}
use citra_flows.Executor.Visit.Settles.{visit-Visits}
use citra_flows.Executor.Visit.Known.{visit-IsExecutor}
use citra_flows.Executor.Loop.{Ending, done, out_of_fuel}
use citra_flows.Executor.Loop.Order.{Topological, Final, InvOf, Inv-Final, Inv-start}
use citra_flows.Executor.Loop.Runs.{After, AfterEnding, rounds-After}
use citra_flows.Executor.Loop.Total.{missing, IsDone-flow, rounds-RoundsDone}
use citra_flows.Executor.Start.{
  start_run, skip_orphans, new_execution, complete, crash, conclude, conclude_ending, execute_inner,
  execute_from, or_empty,
}

module _ (env : Env) where
  pub sweep-runs : (r : Run) → runs (sweep_blobs_if_terminal r).trace ≡ runs r.trace
  unfolding sweep_blobs_if_terminal
  sweep-runs r = ground arith

  pub conclude-runs :
      (edges : List EdgeDefinition) (limit : ℕ) (base : List String) (f : Flow)
      → After edges limit base f
      → Final edges limit base (runs (conclude env f).trace)
  unfolding conclude complete crash
  conclude-runs edges limit base (go r next) h = rw sweep-runs (Inv-Final edges limit base r h)
  conclude-runs edges limit base (returned r) h = rw sweep-runs h
  conclude-runs edges limit base (threw r m) h = rw sweep-runs h

pub missing-nil : (ids : List String) → missing ids [] ≡ length ids
missing-nil [] = refl
missing-nil (i ∷ ids) = omega (arith, missing-nil ids)

pub skip_orphans-keeps :
    (nids : List String) (r : Run)
    → ((skip_orphans nids r).executed ≡ r.executed)
      × ((skip_orphans nids r).trace ≡ r.trace)
      × ((skip_orphans nids r).steps_executed ≡ r.steps_executed)
unfolding skip_orphans
skip_orphans-keeps [] r = (refl, refl, refl)
skip_orphans-keeps (nid ∷ nids) r = skip_orphans-keeps nids _

module _ (env : Env) (wf : WorkflowDefinition) (trigger : Option Fields) where
  abbrev pub first_run : Run
  first_run = start_run env wf trigger (new_execution trigger)

  pub first_run-keeps :
      (first_run.executed ≡ []) × (runs first_run.trace ≡ []) × (first_run.steps_executed ≡ 0)
  unfolding start_run
  first_run-keeps =
      let keeps = skip_orphans-keeps (orphaned_nodes wf) _ in (keeps.0, ap runs keeps.1, keeps.2)

  pub first_run-Inv : InvOf wf.edges env.max_node_steps [] first_run
  first_run-Inv =
      rw (first_run-keeps.0, first_run-keeps.1, first_run-keeps.2)
        (Inv-start wf.edges env.max_node_steps [] 0)

  ending-Final :
      (e : Ending) (r : Run)
      → AfterEnding wf.edges env.max_node_steps [] e
      → conclude_ending env e ≡ some r
      → Final wf.edges env.max_node_steps [] (runs r.trace)
  ending-Final (done f) r h e =
      subst (λ q. Final wf.edges env.max_node_steps [] (runs q.trace)) (some-injective _ _ e)
        (conclude-runs env wf.edges env.max_node_steps [] f h)
  ending-Final out_of_fuel r h e = cc

  from-Final :
      (order : List String → List String) (roots : List String) (r : Run)
      → execute_from env wf order (or_empty trigger) roots first_run ≡ some r
      → Final wf.edges env.max_node_steps [] (runs r.trace)
  unfolding execute_from
  from-Final order [] r e =
      ending-Final (done (threw first_run Message.no_root)) r
        (Inv-Final wf.edges env.max_node_steps [] first_run first_run-Inv) e
  from-Final order (root ∷ roots) r e =
      ending-Final _ r
        (rounds-After wf.edges env.max_node_steps [] (visit env wf (or_empty trigger))
          (visit-Visits env wf (or_empty trigger)) (suc (length wf.nodes)) (order (root ∷ roots))
          first_run first_run-Inv)
        e

  -- However a run ends: no node was run twice, none after one of its children (so that each node
  -- runs only when its parents are behind it), and at most `max_node_steps` nodes were run.
  pub execute_inner-Final :
      (order : List String → List String) (r : Run)
      → execute_inner env wf order trigger ≡ some r
      → Topological wf.edges (runs r.trace) × (length (runs r.trace) ≤ env.max_node_steps)
  unfolding execute_inner
  execute_inner-Final order r e =
      let f = from-Final order (root_nodes wf) r e in (f.ordered, f.bounded)

  from-total :
      (order : List String → List String) (roots : List String)
      → (r : Run) × (execute_from env wf order (or_empty trigger) roots first_run ≡ some r)
  unfolding execute_from
  from-total order [] = (conclude env (threw first_run Message.no_root), refl)
  from-total order (root ∷ roots) =
      let (f, e) = IsDone-flow _ (
        rounds-RoundsDone wf.edges (keys (node_map wf)) (visit env wf (or_empty trigger))
          (visit-IsExecutor env wf (or_empty trigger)) (suc (length wf.nodes))
          (order (root ∷ roots)) first_run
          (rw first_run-keeps.0
            (omega (arith, missing-nil (keys (node_map wf)), node_map-le wf)))) in
      (conclude env f, ap (conclude_ending env) e)

  -- `_execute_inner` gives an execution for every workflow and every environment, cyclic graphs,
  -- failures and exceptions included: a fuel of one round more than the workflow has nodes, which is
  -- what its loop is given, is enough.
  pub execute_inner-total :
      (order : List String → List String)
      → (r : Run) × (execute_inner env wf order trigger ≡ some r)
  unfolding execute_inner
  execute_inner-total order = from-total order (root_nodes wf)

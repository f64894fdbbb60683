-- ===== src/Executor/Start/Outcome.antt =====
-- How a run of `_execute_inner` stands when it is over: what is stored, and which media are gone.
use mathlib.Core.Option.{some-injective}
use citra_flows.Common.{
  suc, String, ◌≡◌, refl, ap, subst, true, false, Option, some, List, [], ◌∷◌, arith, length, mem,
  if◌then◌else◌,
}
use citra_flows.Value.{Fields}
use citra_flows.Models.{ExecutionStatus, WorkflowDefinition, Message}
use citra_flows.Executor.Graph.{orphaned_nodes, root_nodes}
use citra_flows.Executor.State.{Env, Run, runs, is_terminal, sweep_blobs_if_terminal}
use citra_flows.Executor.Visit.{Flow, go, returned, threw, visit}
use citra_flows.Executor.Visit.Settles.{visit-Visits}
use citra_flows.Executor.Visit.Reports.{
  sweeps, last_saved, left_loop, accounted, Open, Left, Thrown, visit-Reports,
}
use citra_flows.Executor.Loop.{Ending, done, out_of_fuel, rounds}
use citra_flows.Executor.Loop.Rule.{Leaves, Ends, rounds-Ends}
use citra_flows.Executor.Loop.Order.{InvOf}
use citra_flows.Executor.Loop.Runs.{After, AfterEnding, rounds-After}
use citra_flows.Executor.Start.{
  start_run, complete, crash, conclude, conclude_ending, execute_from, execute_inner, or_empty,
}
use citra_flows.Executor.Start.Guarantees.{
  first_run, first_run-Inv, first_run-keeps, skip_orphans-keeps,
}

-- The execution that is returned is the one that was saved last; its blobs are swept once if it is
-- over, and not at all if it is paused; and nothing else is possible.
pub record IsClosed (r : Run) : Type 0 where
  pub stored : last_saved r.trace ≡ some r.execution
  pub swept : sweeps r.trace ≡ (if is_terminal r.status then 1 else 0)
  pub over : is_terminal r.status ≡ false → r.status ≡ ExecutionStatus.paused

-- Every node that was run has a result that lets the run go on, or its configuration says so.
abbrev pub IsAccounted : WorkflowDefinition → Run → Type 0
IsAccounted wf r = (x : String) → mem x (runs r.trace) ≡ true → accounted wf r x ≡ true

record Good (wf : WorkflowDefinition) (r : Run) : Type 0 where
  closed : IsClosed r
  accounts : r.status ≡ ExecutionStatus.completed → IsAccounted wf r

-- A run that returned from the loop, behind the `finally` block.
Left-Good :
    (wf : WorkflowDefinition) (s : ExecutionStatus) (r : Run)
    → r.status ≡ s
    → left_loop s ≡ true
    → Left r
    → Good wf (sweep_blobs_if_terminal r)
unfolding sweep_blobs_if_terminal is_terminal
Left-Good wf ExecutionStatus.failed r e h l = record {
  closed = record {
    stored = ground (arith, l.stored);
    swept = ground (arith, l.unswept);
    over = ground arith;
  };
  accounts = ground arith;
}
Left-Good wf _ r e h l = record {
  closed = record {
    stored = ground (arith, l.stored);
    swept = ground (arith, l.unswept);
    over = ground arith;
  };
  accounts = ground arith;
}

module _ (env : Env) (wf : WorkflowDefinition) (trigger : Option Fields) where
  first_run-Open : Open wf (first_run env wf trigger)
  unfolding start_run
  first_run-Open = record {
    unswept = ap sweeps (skip_orphans-keeps (orphaned_nodes wf) _).1;
    accounts = λ x m. cc (first_run-keeps env wf trigger).0;
  }

  complete_Good :
      (r : Run) (next : List String)
      → Open wf r
      → InvOf wf.edges env.max_node_steps [] r
      → Good wf (conclude env (go r next))
  unfolding conclude complete sweep_blobs_if_terminal is_terminal
  complete_Good r next o inv = record {
    closed = record { stored = refl; swept = omega (arith, o.unswept); over = λ e. cc };
    accounts = λ e x m. o.accounts x (inv.within x m);
  }

  crash_Good : (r : Run) (m : Message) → Thrown r → Good wf (conclude env (threw r m))
  unfolding conclude crash sweep_blobs_if_terminal is_terminal
  crash_Good r m t = record {
    closed = record { stored = refl; swept = omega (arith, t.unswept); over = λ e. cc };
    accounts = λ e. cc;
  }

  conclude-Good :
      (f : Flow)
      → Leaves (Open wf) Left Thrown f
      → After wf.edges env.max_node_steps [] f
      → Good wf (conclude env f)
  unfolding conclude
  conclude-Good (go r next) o inv = complete_Good r next o inv
  conclude-Good (returned r) l h = Left-Good wf r.status r refl l.leaves l
  conclude-Good (threw r m) t h = crash_Good r m t

  ending_Good :
      (e : Ending) (r : Run)
      → Ends (Open wf) Left Thrown e
      → AfterEnding wf.edges env.max_node_steps [] e
      → conclude_ending env e ≡ some r
      → Good wf r
  ending_Good (done f) r l h e = subst (Good wf) (some-injective _ _ e) (conclude-Good f l h)
  ending_Good out_of_fuel r l h e = cc

  from-Good :
      (order : List String → List String) (roots : List String) (r : Run)
      → execute_from env wf order (or_empty trigger) roots (first_run env wf trigger) ≡ some r
      → Good wf r
  unfolding execute_from
  from-Good order [] r e = subst (Good wf) (some-injective _ _ e) (
      crash_Good (first_run env wf trigger) Message.no_root
        (record { unswept = first_run-Open.unswept }))
  from-Good order (root ∷ roots) r e =
      ending_Good
        (rounds wf.edges (visit env wf (or_empty trigger)) (suc (length wf.nodes))
          (order (root ∷ roots)) (first_run env wf trigger))
        r
        (rounds-Ends (Open wf) Left Thrown wf.edges (visit env wf (or_empty trigger))
          (visit-Reports env wf (or_empty trigger)) (suc (length wf.nodes)) (order (root ∷ roots))
          (first_run env wf trigger) first_run-Open)
        (rounds-After wf.edges env.max_node_steps [] (visit env wf (or_empty trigger))
          (visit-Visits env wf (or_empty trigger)) (suc (length wf.nodes)) (order (root ∷ roots))
          (first_run env wf trigger) (first_run-Inv env wf trigger))
        e

  -- When `_execute_inner` returns, on every way out, as it does where the timeout of `execute` has
  -- not cancelled it: the execution that it returns is the one that was saved last; if its status is terminal its blobs were swept exactly once, otherwise not at
  -- all; and if its status is not terminal it is paused.
  pub execute_inner-IsClosed :
      (order : List String → List String) (r : Run)
      → execute_inner env wf order trigger ≡ some r
      → IsClosed r
  unfolding execute_inner
  execute_inner-IsClosed order r e = (from-Good order (root_nodes wf) r e).closed

  -- If `_execute_inner` returns a COMPLETED run, each node that was run has a result, and this is
  -- completed, skipped or of an unknown type, or the configuration of the node holds
  -- `continue_on_error`: any other failure stops the run short of COMPLETED.
  pub execute_inner-IsAccounted :
      (order : List String → List String) (r : Run)
      → execute_inner env wf order trigger ≡ some r
      → r.status ≡ ExecutionStatus.completed
      → IsAccounted wf r
  unfolding execute_inner
  execute_inner-IsAccounted order r e = (from-Good order (root_nodes wf) r e).accounts

-- ===== src/Executor/Visit/Settles.antt =====
-- What the visit of one node does to the set of executed nodes, to the runs of nodes and to the
-- count of steps, on every branch.
use citra_flows.Common.{
  ℕ, ltb-false→le, ◌+◌, ◌≤◌, String, ◌≡◌, refl, false, Option, some, none, List, ◌∷◌, mem, arith,
  if_ind, if_ind_eq,
}
use citra_flows.Value.{Value, Fields, get_default, obj, end}
use citra_flows.Models.{NodeDefinition, WorkflowDefinition, NodeExecutionResult}
use citra_flows.Executor.State.{
  Env, Run, Created, NodeRun, runs, mark_cancelled, finished, timed_out, raised, created, refused,
}
use citra_flows.Executor.Visit.{
  Flow, go, returned, threw, skip_node, pause_at, pause_with, checkpoint, take_meta, take_output,
  soft_fail, fail_run, fail_unknown, settle, end_run, run_node, visit_node, visit,
}

abbrev pub SettlesAt : List String → List String → ℕ → Flow → Type 0
SettlesAt ex ran k (go r next) = (r.executed ≡ ex) × (runs r.trace ≡ ran) × (r.steps_executed ≡ k)
SettlesAt ex ran k (returned r) = runs r.trace ≡ ran
SettlesAt ex ran k (threw r m) = runs r.trace ≡ ran

-- Of the run behind a visit: the executed nodes if it goes on, and the runs and steps.
pub record Settles (ex ran : List String) (k : ℕ) (f : Flow) : Type 0 where
  pub at : SettlesAt ex ran k f

module _ (env : Env) (wf : WorkflowDefinition) (trigger : Fields) where
  pub skip_node-Settles :
      (nid : String) (r : Run) (next : List String)
      → mem nid r.executed ≡ false
      → Settles
          (nid ∷ r.executed)
          (runs r.trace)
          r.steps_executed
          (skip_node env wf trigger nid r next)
  unfolding skip_node
  skip_node-Settles nid r next h = record { at = rw h (refl, refl, refl) }

  module _ (ex : List String) where
    pause_with-Settles :
        (nid : String) (c : Created) (r : Run)
        → Settles ex (runs r.trace) r.steps_executed (pause_with env wf trigger nid c r)
    unfolding pause_with
    pause_with-Settles nid (created a) r = record { at = refl }
    pause_with-Settles nid (refused m) r = record { at = refl }

    pub fail_run-Settles :
        (nid : String) (n : NodeDefinition) (x : NodeExecutionResult) (r : Run)
        → Settles ex (runs r.trace) r.steps_executed (fail_run env wf trigger nid n x r)
    unfolding fail_run
    fail_run-Settles nid n x r = record { at = refl }

  go_on-Settles :
      (r : Run) (next : List String)
      → Settles r.executed (runs r.trace) r.steps_executed (go (checkpoint env wf trigger r) next)
  unfolding checkpoint
  go_on-Settles r next = record { at = ground arith }

  take_meta-Settles :
      (nid : String) (d : Fields) (m : Value) (r : Run) (next : List String)
      → Settles r.executed (runs r.trace) r.steps_executed (take_meta env wf trigger nid d m r next)
  unfolding take_meta pause_at
  take_meta-Settles nid d (obj m) r next =
      if_ind (Settles r.executed (runs r.trace) r.steps_executed) _
        (pause_with-Settles r.executed nid _ _) (go_on-Settles _ _)
  take_meta-Settles nid d m r next = record { at = refl }

  take_output-Settles :
      (nid : String) (v : Value) (r : Run) (next : List String)
      → Settles r.executed (runs r.trace) r.steps_executed (take_output env wf trigger nid v r next)
  unfolding take_output
  take_output-Settles nid (obj d) r next =
      take_meta-Settles nid d (get_default "meta" (obj end) d) r next
  take_output-Settles nid v r next = go_on-Settles r _

  soft_fail-Settles :
      (nid : String) (r : Run) (next : List String)
      → mem nid r.executed ≡ false
      → Settles
          (nid ∷ r.executed)
          (runs r.trace)
          r.steps_executed
          (soft_fail env wf trigger nid r next)
  unfolding soft_fail
  soft_fail-Settles nid r next h = record { at = rw h (refl, refl, refl) }

  pub fail_unknown-Settles :
      (nid : String) (n : NodeDefinition) (r : Run) (next : List String)
      → mem nid r.executed ≡ false
      → Settles
          (nid ∷ r.executed)
          (runs r.trace)
          r.steps_executed
          (fail_unknown env wf trigger nid n r next)
  unfolding fail_unknown
  fail_unknown-Settles nid n r next h = record { at = rw h (refl, refl, refl) }

  -- The result of a node that was not executed.
  settle-Settles :
      (nid : String) (n : NodeDefinition) (x : NodeExecutionResult) (r : Run) (next : List String)
      → mem nid r.executed ≡ false
      → Settles
          (nid ∷ r.executed)
          (runs r.trace)
          r.steps_executed
          (settle env wf trigger nid n x r next)
  unfolding settle
  settle-Settles nid n x r next h = rw h (
      if_ind (Settles (nid ∷ r.executed) (runs r.trace) r.steps_executed) _
        (take_output-Settles nid x.output_data _ next)
        (if_ind (Settles (nid ∷ r.executed) (runs r.trace) r.steps_executed) _
          (soft_fail-Settles nid _ next h) (fail_run-Settles (nid ∷ r.executed) nid n x _)))

  end_run-Settles :
      (nid : String) (n : NodeDefinition) (e : NodeRun) (r : Run) (next : List String)
      → mem nid r.executed ≡ false
      → Settles
          (nid ∷ r.executed)
          (runs r.trace)
          r.steps_executed
          (end_run env wf trigger nid n e r next)
  unfolding end_run
  end_run-Settles nid n (raised vars m) r next h = record { at = refl }
  end_run-Settles nid n (timed_out vars) r next h = settle-Settles nid n _ _ next h
  end_run-Settles nid n (finished vars x) r next h = settle-Settles nid n x _ next h

-- A visit adds at most one run, that of its node, and one step for it; if it goes on, its node is
-- the one that is newly executed.
pub data Visits (nid : String) (limit : ℕ) (ex ran : List String) (k : ℕ) (f : Flow) : Type 0 where
  passed : Settles (nid ∷ ex) ran k f → Visits nid limit ex ran k f
  ran_node : k + 1 ≤ limit → Settles (nid ∷ ex) (nid ∷ ran) (k + 1) f → Visits nid limit ex ran k f

abbrev pub VisitsFrom : String → ℕ → Run → Flow → Type 0
VisitsFrom nid limit r = Visits nid limit r.executed (runs r.trace) r.steps_executed

module _ (env : Env) (wf : WorkflowDefinition) (trigger : Fields) where
  run_node-Visits :
      (nid : String) (n : NodeDefinition) (input : Value) (r : Run) (next : List String)
      → mem nid r.executed ≡ false
      → VisitsFrom nid env.max_node_steps r (run_node env wf trigger nid n input r next)
  unfolding run_node
  run_node-Visits nid n input r next h =
      if_ind (VisitsFrom nid env.max_node_steps r) _
        (passed (fail_unknown-Settles env wf trigger nid n r next h))
        (if_ind_eq (VisitsFrom nid env.max_node_steps r) _ (λ e. passed (record { at = refl }))
          (λ e. ran_node (ltb-false→le _ _ e) (end_run-Settles env wf trigger nid n _ _ next h)))

  visit_node-Visits :
      (nid : String) (o : Option NodeDefinition) (r : Run) (next : List String)
      → mem nid r.executed ≡ false
      → VisitsFrom nid env.max_node_steps r (visit_node env wf trigger nid o r next)
  unfolding visit_node
  visit_node-Visits nid none r next h = passed (record { at = refl })
  visit_node-Visits nid (some n) r next h =
      if_ind (VisitsFrom nid env.max_node_steps r) _
        (passed (skip_node-Settles env wf trigger nid _ next h)) (run_node-Visits nid n _ _ next h)

  pub mark_cancelled-Settles :
      (ex : List String) (r : Run)
      → Settles ex (runs r.trace) r.steps_executed (returned (mark_cancelled env r))
  unfolding mark_cancelled
  mark_cancelled-Settles ex r = record { at = ground arith }

  pub visit-Visits :
      (nid : String) (r : Run) (next : List String)
      → mem nid r.executed ≡ false
      → VisitsFrom nid env.max_node_steps r (visit env wf trigger nid r next)
  unfolding visit
  visit-Visits nid r next h =
      if_ind (VisitsFrom nid env.max_node_steps r) _ (passed (mark_cancelled-Settles _ r))
        (visit_node-Visits nid _ r next h)

-- ===== src/Executor/Resume/Visits.antt =====
-- What a resumed visit of one node does to the executed nodes, the runs and the steps.
use citra_flows.Common.{
  String, ◌≡◌, refl, ◌⊎◌, inl, inr, Bool, true, false, Option, some, none, List, ◌∷◌, mem, if_ind,
  if_ind_eq, ltb-false→le,
}
use citra_flows.Common.Dict.{lookup, keys, lookup-mem}
use citra_flows.Value.{Value, Fields, get_default, obj, end}
use citra_flows.Models.{NodeDefinition, WorkflowDefinition, NodeExecutionResult}
use citra_flows.Executor.Graph.{node_map}
use citra_flows.Executor.State.{
  Env, Run, NodeRun, runs, mark_cancelled, finished, timed_out, raised,
}
use citra_flows.Executor.Visit.{Flow, go}
use citra_flows.Executor.Visit.Settles.{
  Settles, VisitsFrom, passed, ran_node, skip_node-Settles, fail_unknown-Settles, fail_run-Settles,
  mark_cancelled-Settles,
}
use citra_flows.Executor.Visit.Known.{Goes, Goes-known, Goes-returned, Executes-of}
use citra_flows.Executor.Loop.Total.{IsExecutor}
use citra_flows.Executor.Resume.{
  resumed_pause, resumed_meta, resumed_output, resumed_settle, resumed_end, resumed_run,
  resumed_routed, resumed_node, resumed_visit,
}

module _ (env : Env) (wf : WorkflowDefinition) (trigger : Fields) where
  abbrev From : Run → Flow → Type 0
  From r = Settles r.executed (runs r.trace) r.steps_executed

  abbrev FromNew : String → Run → Flow → Type 0
  FromNew nid r = Settles (nid ∷ r.executed) (runs r.trace) r.steps_executed

  resumed_pause-Settles : (nid : String) (r : Run) → From r (resumed_pause env wf trigger nid r)
  unfolding resumed_pause
  resumed_pause-Settles nid r = record { at = refl }

  go-Settles : (r : Run) (next : List String) → From r (go r next)
  go-Settles r next = record { at = (refl, refl, refl) }

  resumed_meta-Settles :
      (nid : String) (m : Value) (r : Run) (next : List String)
      → From r (resumed_meta env wf trigger nid m r next)
  unfolding resumed_meta
  resumed_meta-Settles nid (obj m) r next =
      if_ind (From r) _ (resumed_pause-Settles nid r) (go-Settles r _)
  resumed_meta-Settles nid m r next = record { at = refl }

  resumed_output-Settles :
      (nid : String) (v : Value) (r : Run) (next : List String)
      → From r (resumed_output env wf trigger nid v r next)
  unfolding resumed_output
  resumed_output-Settles nid (obj d) r next =
      resumed_meta-Settles nid (get_default "meta" (obj end) d) r next
  resumed_output-Settles nid v r next = go-Settles r _

  resumed_settle-Settles :
      (nid : String) (n : NodeDefinition) (x : NodeExecutionResult) (r : Run) (next : List String)
      → mem nid r.executed ≡ false
      → FromNew nid r (resumed_settle env wf trigger nid n x r next)
  unfolding resumed_settle
  resumed_settle-Settles nid n x r next h = rw h (
      if_ind (FromNew nid r) _ (resumed_output-Settles nid x.output_data _ next)
        (fail_run-Settles env wf trigger (nid ∷ r.executed) nid n x _))

  resumed_end-Settles :
      (nid : String) (n : NodeDefinition) (e : NodeRun) (r : Run) (next : List String)
      → mem nid r.executed ≡ false
      → FromNew nid r (resumed_end env wf trigger nid n e r next)
  unfolding resumed_end
  resumed_end-Settles nid n (raised vars m) r next h = record { at = refl }
  resumed_end-Settles nid n (timed_out vars) r next h = resumed_settle-Settles nid n _ _ next h
  resumed_end-Settles nid n (finished vars x) r next h = resumed_settle-Settles nid n x _ next h

  resumed_run-Visits :
      (nid : String) (n : NodeDefinition) (input : Value) (r : Run) (next : List String)
      → mem nid r.executed ≡ false
      → VisitsFrom nid env.max_node_steps r (resumed_run env wf trigger nid n input r next)
  unfolding resumed_run
  resumed_run-Visits nid n input r next h =
      if_ind (VisitsFrom nid env.max_node_steps r) _
        (passed (fail_unknown-Settles env wf trigger nid n r next h))
        (if_ind_eq (VisitsFrom nid env.max_node_steps r) _ (λ e. passed (record { at = refl }))
          (λ e. ran_node (ltb-false→le _ _ e) (resumed_end-Settles nid n _ _ next h)))

  resumed_routed-Visits :
      (nid : String) (n : NodeDefinition) (o : Option (Bool × Value)) (r : Run) (next : List String)
      → mem nid r.executed ≡ false
      → VisitsFrom nid env.max_node_steps r (resumed_routed env wf trigger nid n o r next)
  unfolding resumed_routed
  resumed_routed-Visits nid n none r next h = passed (record { at = refl })
  resumed_routed-Visits nid n (some (skip, input)) r next h =
      if_ind (VisitsFrom nid env.max_node_steps r) skip
        (passed (skip_node-Settles env wf trigger nid r next h))
        (resumed_run-Visits nid n input r next h)

  resumed_node-Visits :
      (nid : String) (o : Option NodeDefinition) (r : Run) (next : List String)
      → mem nid r.executed ≡ false
      → VisitsFrom nid env.max_node_steps r (resumed_node env wf trigger nid o r next)
  unfolding resumed_node
  resumed_node-Visits nid none r next h = passed (record { at = refl })
  resumed_node-Visits nid (some n) r next h = resumed_routed-Visits nid n _ _ next h

  pub resumed_visit-Visits :
      (nid : String) (r : Run) (next : List String)
      → mem nid r.executed ≡ false
      → VisitsFrom nid env.max_node_steps r (resumed_visit env wf trigger nid r next)
  unfolding resumed_visit
  resumed_visit-Visits nid r next h =
      if_ind (VisitsFrom nid env.max_node_steps r) _
        (passed (mark_cancelled-Settles env wf trigger _ r)) (resumed_node-Visits nid _ r next h)

  resumed_node-Goes :
      (n : String) (o : Option NodeDefinition) (r : Run) (next : List String)
      → (mem n (keys (node_map wf)) ≡ true) ⊎ (o ≡ none)
      → Goes (keys (node_map wf)) n (resumed_node env wf trigger n o r next)
  unfolding resumed_node
  resumed_node-Goes n o r next (inl h) = Goes-known (keys (node_map wf)) n _ h
  resumed_node-Goes n o r next (inr e) = rw e (record { at = tt })

  resumed_visit-Goes :
      (n : String) (r : Run) (next : List String)
      → Goes (keys (node_map wf)) n (resumed_visit env wf trigger n r next)
  unfolding resumed_visit
  resumed_visit-Goes n r next =
      if_ind (Goes (keys (node_map wf)) n) _
        (Goes-returned (keys (node_map wf)) n (mark_cancelled env r))
        (resumed_node-Goes n (lookup n (node_map wf)) r next (lookup-mem n (node_map wf)))

  pub resumed_visit-IsExecutor : IsExecutor (keys (node_map wf)) (resumed_visit env wf trigger)
  resumed_visit-IsExecutor n r next h =
      Executes-of (keys (node_map wf)) n env.max_node_steps r
        (resumed_visit env wf trigger n r next) (resumed_visit-Visits n r next h)
        (resumed_visit-Goes n r next)

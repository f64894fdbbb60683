-- ===== src/Executor/Visit/Known.antt =====
-- A visit goes on only for a node of the workflow, and executes it.
use citra_flows.Common.{ℕ, String, ◌≡◌, ◌⊎◌, inl, inr, true, Option, none, List, mem, if_ind}
use citra_flows.Common.Dict.{lookup, keys, lookup-mem}
use citra_flows.Value.{Fields}
use citra_flows.Models.{NodeDefinition, WorkflowDefinition}
use citra_flows.Executor.Graph.{node_map}
use citra_flows.Executor.State.{Env, Run, mark_cancelled}
use citra_flows.Executor.Visit.{Flow, go, returned, threw, visit_node, visit}
use citra_flows.Executor.Visit.Settles.{VisitsFrom, passed, ran_node, visit-Visits}
use citra_flows.Executor.Loop.Total.{Executes, IsExecutor}

abbrev pub GoesKnown : List String → String → Flow → Type 0
GoesKnown ids n (go r next) = mem n ids ≡ true
GoesKnown ids n (returned r) = Unit {0}
GoesKnown ids n (threw r m) = Unit {0}

pub record Goes (ids : List String) (n : String) (f : Flow) : Type 0 where
  pub at : GoesKnown ids n f

pub Goes-known : (ids : List String) (n : String) (f : Flow) → mem n ids ≡ true → Goes ids n f
Goes-known ids n (go r next) h = record { at = h }
Goes-known ids n (returned r) h = record { at = tt }
Goes-known ids n (threw r m) h = record { at = tt }

pub Goes-returned : (ids : List String) (n : String) (r : Run) → Goes ids n (returned r)
Goes-returned ids n r = record { at = tt }

pub Executes-of :
    (ids : List String) (n : String) (limit : ℕ) (r : Run) (f : Flow)
    → VisitsFrom n limit r f
    → Goes ids n f
    → Executes ids n r.executed f
Executes-of ids n limit r (go r' next) (passed s) g = (g.at, s.at.0)
Executes-of ids n limit r (go r' next) (ran_node room s) g = (g.at, s.at.0)
Executes-of ids n limit r (returned r') v g = tt
Executes-of ids n limit r (threw r' m) v g = tt

module _ (env : Env) (wf : WorkflowDefinition) (trigger : Fields) where
  visit_node-Goes :
      (n : String) (o : Option NodeDefinition) (r : Run) (next : List String)
      → (mem n (keys (node_map wf)) ≡ true) ⊎ (o ≡ none)
      → Goes (keys (node_map wf)) n (visit_node env wf trigger n o r next)
  unfolding visit_node
  visit_node-Goes n o r next (inl h) = Goes-known (keys (node_map wf)) n _ h
  visit_node-Goes n o r next (inr e) = rw e (record { at = tt })

  visit-Goes :
      (n : String) (r : Run) (next : List String)
      → Goes (keys (node_map wf)) n (visit env wf trigger n r next)
  unfolding visit
  visit-Goes n r next =
      if_ind (Goes (keys (node_map wf)) n) _
        (Goes-returned (keys (node_map wf)) n (mark_cancelled env r))
        (visit_node-Goes n (lookup n (node_map wf)) r next (lookup-mem n (node_map wf)))

  pub visit-IsExecutor : IsExecutor (keys (node_map wf)) (visit env wf trigger)
  visit-IsExecutor n r next h =
      Executes-of (keys (node_map wf)) n env.max_node_steps r (visit env wf trigger n r next)
        (visit-Visits env wf trigger n r next h) (visit-Goes n r next)

-- ===== src/Executor/Resume/Reach.antt =====
-- What one visit of a resumed run adds to the nodes that are run and queued.
pub mod Approved
use citra_flows.Common.{
  All, suc, String, ◌⊎◌, ◌≡◌, refl, sym, subst, true, false, not, Bool, Option, some, none, List,
  [], ◌∷◌, mem, length, select, if_ind, if_ind_eq, ◌==◌, mem-cons_cases, mem-cons_of_mem, mem_self,
  inl, inr,
}
use citra_flows.Common.Dict.{lookup}
use citra_flows.Value.{Value, Fields, obj}
use citra_flows.Models.{
  EdgeDefinition, Message, NodeDefinition, WorkflowDefinition, WorkflowExecution,
  NodeExecutionResult,
}
use citra_flows.Executor.Graph.{children, node_map}
use citra_flows.Executor.State.{Env, Run, NodeRun, finished, timed_out, raised, runs}
use citra_flows.Executor.Visit.{
  Flow, go, returned, threw, enqueue, skip_node, fail_unknown, fail_run,
}
use citra_flows.Executor.Visit.Settles.{mark_cancelled-Settles}
use citra_flows.Executor.Loop.{Ending, done, out_of_fuel, rounds}
use citra_flows.Executor.Loop.Spread.{
  AllHave, AllHave-cons, enqueue-AllHave, Spreads, SpreadsEnding, rounds-Spreads,
}
use citra_flows.Executor.Start.{conclude, complete, crash}
use citra_flows.Executor.Start.Guarantees.{sweep-runs}
use citra_flows.Executor.Resume.{
  Resumed, resumed, not_paused, exhausted, can_resume, resumed_pause, resumed_meta, resumed_output,
  resumed_settle, resumed_end, resumed_run, resumed_routed, resumed_node, resumed_visit,
  resumed_start, resumed_ending, seed, reject, resume,
}

-- The node stands below `top`: it is a child of it, or of a node below it.
pub data Below (edges : List EdgeDefinition) (top : String) : String → Type 0 where
  child : {n : String} → mem n (children edges top) ≡ true → Below edges top n
  deeper : {m n : String} → Below edges top m → mem n (children edges m) ≡ true → Below edges top n

module _ (env : Env) (wf : WorkflowDefinition) (trigger : Fields) (top : String) where
  abbrev B : String → Type 0
  B = Below wf.edges top

  -- The nodes that a visit has run and the queue that it leaves.
  pub record Queues (f : Flow) : Type 0 where
    pub at : Spreads B f

  -- What holds before the visit.
  pub record Ready (r : Run) (next : List String) : Type 0 where
    pub ran_below : AllHave B (runs r.trace)
    pub queued_below : AllHave B next

  go-Queues : (r : Run) (next : List String) → Ready r next → Queues (go r next)
  go-Queues r next h = record { at = (h.ran_below, h.queued_below) }

  threw-Queues :
      (r q : Run) (m : Message) (next : List String)
      → Ready r next
      → runs q.trace ≡ runs r.trace
      → Queues (threw q m)
  threw-Queues r q m next h e = record { at = rw e h.ran_below }

  returned-Queues :
      (r q : Run) (next : List String)
      → Ready r next
      → runs q.trace ≡ runs r.trace
      → Queues (returned q)
  returned-Queues r q next h e = record { at = rw e h.ran_below }

  module _ (n : String) (b : B n) where
    more-Queues :
        (r q : Run) (ex next : List String)
        → Ready r next
        → runs q.trace ≡ runs r.trace
        → Queues (go q (enqueue ex next (children wf.edges n)))
    more-Queues r q ex next h e = record {
      at = (
        rw e h.ran_below,
        enqueue-AllHave B ex next (children wf.edges n) h.queued_below (λ x m. deeper b m),
      );
    }

    pause-Queues :
        (r : Run) (next : List String) → Ready r next → Queues (resumed_pause env wf trigger n r)
    unfolding resumed_pause
    pause-Queues r next h = returned-Queues r _ next h refl

    meta-Queues :
        (v : Value) (r : Run) (next : List String)
        → Ready r next
        → Queues (resumed_meta env wf trigger n v r next)
    unfolding resumed_meta
    meta-Queues (obj d) r next h =
        if_ind Queues _ (pause-Queues r next h) (more-Queues r r r.executed next h refl)
    meta-Queues v r next h = threw-Queues r r _ next h refl

    output-Queues :
        (v : Value) (r : Run) (next : List String)
        → Ready r next
        → Queues (resumed_output env wf trigger n v r next)
    unfolding resumed_output
    output-Queues (obj d) r next h = meta-Queues _ r next h
    output-Queues v r next h = more-Queues r r r.executed next h refl

    fail-Queues :
        (nd : NodeDefinition) (x : NodeExecutionResult) (r : Run) (next : List String)
        → Ready r next
        → Queues (fail_run env wf trigger n nd x r)
    unfolding fail_run
    fail-Queues nd x r next h = returned-Queues r _ next h refl

    settle-Queues :
        (nd : NodeDefinition) (x : NodeExecutionResult) (r : Run) (next : List String)
        → Ready r next
        → Queues (resumed_settle env wf trigger n nd x r next)
    unfolding resumed_settle
    settle-Queues nd x r next h =
        if_ind Queues _
          (output-Queues x.output_data _ next
            (record { ran_below = h.ran_below; queued_below = h.queued_below }))
          (fail-Queues nd x _ next
            (record { ran_below = h.ran_below; queued_below = h.queued_below }))

    end-Queues :
        (nd : NodeDefinition) (e : NodeRun) (r : Run) (next : List String)
        → Ready r next
        → Queues (resumed_end env wf trigger n nd e r next)
    unfolding resumed_end
    end-Queues nd (raised vars m) r next h = threw-Queues r _ m next h refl
    end-Queues nd (timed_out vars) r next h =
        settle-Queues nd _ _ next
          (record { ran_below = h.ran_below; queued_below = h.queued_below })
    end-Queues nd (finished vars x) r next h =
        settle-Queues nd x _ next
          (record { ran_below = h.ran_below; queued_below = h.queued_below })

    unknown-Queues :
        (nd : NodeDefinition) (r : Run) (next : List String)
        → Ready r next
        → Queues (fail_unknown env wf trigger n nd r next)
    unfolding fail_unknown
    unknown-Queues nd r next h = record { at = (h.ran_below, h.queued_below) }

    run-Queues :
        (nd : NodeDefinition) (input : Value) (r : Run) (next : List String)
        → Ready r next
        → Queues (resumed_run env wf trigger n nd input r next)
    unfolding resumed_run
    run-Queues nd input r next h = if_ind Queues _ (unknown-Queues nd r next h) (
        if_ind Queues _ (threw-Queues r _ _ next h refl) (
          end-Queues nd _ _ next (record {
            ran_below = AllHave-cons B n (runs r.trace) b h.ran_below;
            queued_below = h.queued_below;
          })))

    skip-Queues :
        (r : Run) (next : List String) → Ready r next → Queues (skip_node env wf trigger n r next)
    unfolding skip_node
    skip-Queues r next h = more-Queues r _ _ next h refl

    routed-Queues :
        (nd : NodeDefinition) (o : Option (Bool × Value)) (r : Run) (next : List String)
        → Ready r next
        → Queues (resumed_routed env wf trigger n nd o r next)
    unfolding resumed_routed
    routed-Queues nd none r next h = threw-Queues r r _ next h refl
    routed-Queues nd (some (skip, input)) r next h =
        if_ind Queues skip (skip-Queues r next h) (run-Queues nd input r next h)

    node-Queues :
        (o : Option NodeDefinition) (r : Run) (next : List String)
        → Ready r next
        → Queues (resumed_node env wf trigger n o r next)
    unfolding resumed_node
    node-Queues none r next h = threw-Queues r r _ next h refl
    node-Queues (some nd) r next h =
        routed-Queues nd _ _ next
          (record { ran_below = h.ran_below; queued_below = h.queued_below })

    pub visit-Queues :
        (r : Run) (next : List String)
        → Ready r next
        → Queues (resumed_visit env wf trigger n r next)
    unfolding resumed_visit
    visit-Queues r next h =
        if_ind Queues _ (returned-Queues r _ next h (mark_cancelled-Settles env wf trigger [] r).at)
          (node-Queues (lookup n (node_map wf)) r next h)

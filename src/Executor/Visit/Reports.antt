-- ===== src/Executor/Visit/Reports.antt =====
-- What a visit reports: no blob is swept inside the loop; a run that returns from the loop is saved
-- as it is; and each executed node has a result that lets the run go on, or is configured to
-- continue on error.
use citra_flows.Common.{
  ℕ, ◌+◌, String, ◌≡◌, refl, Bool, true, false, ◌||◌, Option, some, none, List, [], ◌∷◌, mem, arith,
  if_ind, if_ind_eq, if◌then◌else◌, ◌==◌, ==_iff, subst, sym,
}
use citra_flows.Common.Dict.{lookup, insert, lookup-insert}
use citra_flows.Value.{Value, Fields, get, get_default, obj, end}
use citra_flows.Models.{
  ExecutionStatus, NodeExecutionStatus, NodeDefinition, WorkflowDefinition, NodeExecutionResult,
  WorkflowExecution, Message,
}
use citra_flows.Executor.Graph.{node_map}
use citra_flows.Executor.State.{
  Env, Run, Effect, Created, NodeRun, published, saved, ran, asked_approval, notified,
  cleared_cancel, swept, mark_cancelled, finished, timed_out, raised, created, refused,
}
use citra_flows.Executor.Visit.{
  Flow, go, returned, threw, skip_node, pause_at, pause_with, checkpoint, take_meta, take_output,
  soft_fail, fail_run, fail_unknown, settle, end_run, run_node, visit_node, visit, holds,
  bare_result, is_completed, is_skipped_status, set_result,
}
use citra_flows.Executor.Loop.Rule.{LeavesBy}

-- How often blobs were swept.
abbrev pub sweeps : List Effect → ℕ
sweeps [] = 0
sweeps (swept ∷ t) = 1 + sweeps t
sweeps (ran nid ∷ t) = sweeps t
sweeps (published x ∷ t) = sweeps t
sweeps (saved x ∷ t) = sweeps t
sweeps (asked_approval nid ∷ t) = sweeps t
sweeps (notified nid m ∷ t) = sweeps t
sweeps (cleared_cancel ∷ t) = sweeps t

-- The execution that was saved last.
abbrev pub last_saved : List Effect → Option WorkflowExecution
last_saved [] = none
last_saved (saved x ∷ t) = some x
last_saved (swept ∷ t) = last_saved t
last_saved (ran nid ∷ t) = last_saved t
last_saved (published x ∷ t) = last_saved t
last_saved (asked_approval nid ∷ t) = last_saved t
last_saved (notified nid m ∷ t) = last_saved t
last_saved (cleared_cancel ∷ t) = last_saved t

abbrev is_unknown : Option Message → Bool
is_unknown (some (Message.unknown_type t)) = true
is_unknown m = false

-- A result after which the run goes on: completed, skipped, or of an unknown type.
abbrev goes_on : NodeExecutionResult → Bool
goes_on x = is_completed x.status || is_skipped_status x.status || is_unknown x.error

-- The configuration of the node holds `continue_on_error`.
abbrev config_continues : Option NodeDefinition → Bool
config_continues none = false
config_continues (some n) = holds (get "continue_on_error" n.config)

abbrev continues : WorkflowDefinition → String → Bool
continues wf x = config_continues (lookup x (node_map wf))

abbrev is_accounted : Bool → Option NodeExecutionResult → Bool
is_accounted b none = false
is_accounted b (some x) = b || goes_on x

-- The node has a result, and the run goes on after it or the node continues on error.
abbrev pub accounted : WorkflowDefinition → Run → String → Bool
accounted wf r x = is_accounted (continues wf x) (lookup x r.node_results)

-- While the loop goes on.
pub record Open (wf : WorkflowDefinition) (r : Run) : Type 0 where
  pub unswept : sweeps r.trace ≡ 0
  pub accounts : (x : String) → mem x r.executed ≡ true → accounted wf r x ≡ true

abbrev pub left_loop : ExecutionStatus → Bool
left_loop ExecutionStatus.failed = true
left_loop ExecutionStatus.cancelled = true
left_loop ExecutionStatus.paused = true
left_loop s = false

-- When a visit returns from the loop, and when it throws.
pub record Left (r : Run) : Type 0 where
  pub unswept : sweeps r.trace ≡ 0
  pub stored : last_saved r.trace ≡ some r.execution
  pub leaves : left_loop r.status ≡ true

pub record Thrown (r : Run) : Type 0 where
  pub unswept : sweeps r.trace ≡ 0

abbrev pub Reports : WorkflowDefinition → Flow → Type 0
Reports wf = LeavesBy (Open wf) Left Thrown

-- Adding a node and its result keeps the accounts.
account :
    (wf : WorkflowDefinition) (nid : String) (x : NodeExecutionResult) (r : Run) (y : String)
    → ((z : String) → mem z r.executed ≡ true → accounted wf r z ≡ true)
    → (continues wf nid || goes_on x) ≡ true
    → mem y (nid ∷ r.executed) ≡ true
    → is_accounted (continues wf y) (lookup y (insert nid x r.node_results)) ≡ true
account wf nid x r y old fine m = rw lookup-insert (
    if_ind_eq (λ o. is_accounted (continues wf y) o ≡ true) (y == nid)
      (λ e. subst (λ z. (continues wf z || goes_on x) ≡ true) (sym ((==_iff y nid).0 e)) fine)
      (λ e. old y (ground (arith, ==_iff y nid))))

-- The nodes that count as executed once `nid` is added.
executed_cases :
    (y nid : String) (ex : List String)
    → mem y (if mem nid ex then ex else nid ∷ ex) ≡ true
    → mem y (nid ∷ ex) ≡ true
executed_cases y nid ex m = ground (arith, ==_iff y nid)

goes_on_or :
    (wf : WorkflowDefinition) (nid : String) (x : NodeExecutionResult)
    → goes_on x ≡ true
    → (continues wf nid || goes_on x) ≡ true
goes_on_or wf nid x h = ground arith

module _ (env : Env) (wf : WorkflowDefinition) (trigger : Fields) where
  skip_node-Reports :
      (nid : String) (r : Run) (next : List String)
      → Open wf r
      → Reports wf (skip_node env wf trigger nid r next)
  unfolding skip_node
  skip_node-Reports nid r next o = record {
    at = record {
      unswept = o.unswept;
      accounts = λ y m.
          account wf nid _ r y o.accounts
            (goes_on_or wf nid (bare_result nid NodeExecutionStatus.skipped none) refl)
            (executed_cases y nid r.executed m);
    };
  }

  fail_unknown-Reports :
      (nid : String) (n : NodeDefinition) (r : Run) (next : List String)
      → Open wf r
      → Reports wf (fail_unknown env wf trigger nid n r next)
  unfolding fail_unknown
  fail_unknown-Reports nid n r next o = record {
    at = record {
      unswept = o.unswept;
      accounts = λ y m.
          account wf nid _ r y o.accounts
            (goes_on_or wf nid
              (bare_result nid NodeExecutionStatus.failed (some (Message.unknown_type n.kind)))
              refl)
            (executed_cases y nid r.executed m);
    };
  }

  pause_with-Reports :
      (nid : String) (c : Created) (r : Run)
      → sweeps r.trace ≡ 0
      → left_loop r.status ≡ true
      → Reports wf (pause_with env wf trigger nid c r)
  unfolding pause_with
  pause_with-Reports nid (created a) r u l = record {
    at = record { unswept = u; stored = refl; leaves = l };
  }
  pause_with-Reports nid (refused m) r u l = record { at = record { unswept = u } }

  go_on-Reports :
      (r : Run) (next : List String)
      → Open wf r
      → Reports wf (go (checkpoint env wf trigger r) next)
  unfolding checkpoint
  go_on-Reports r next o = record {
    at = record { unswept = ground (arith, o.unswept); accounts = ground (arith, o.accounts) };
  }

  throw-Reports : (r : Run) (m : Message) → sweeps r.trace ≡ 0 → Reports wf (threw r m)
  throw-Reports r m u = record { at = record { unswept = u } }

  take_meta-Reports :
      (nid : String) (d : Fields) (m : Value) (r : Run) (next : List String)
      → Open wf r
      → Reports wf (take_meta env wf trigger nid d m r next)
  unfolding take_meta pause_at
  take_meta-Reports nid d (obj m) r next o =
      if_ind (Reports wf) _ (pause_with-Reports nid _ _ o.unswept refl)
        (go_on-Reports _ _ (record { unswept = o.unswept; accounts = o.accounts }))
  take_meta-Reports nid d m r next o = throw-Reports r _ o.unswept

  take_output-Reports :
      (nid : String) (v : Value) (r : Run) (next : List String)
      → Open wf r
      → Reports wf (take_output env wf trigger nid v r next)
  unfolding take_output
  take_output-Reports nid (obj d) r next o =
      take_meta-Reports nid d (get_default "meta" (obj end) d) r next o
  take_output-Reports nid v r next o = go_on-Reports r _ o

  fail_run-Reports :
      (nid : String) (n : NodeDefinition) (x : NodeExecutionResult) (r : Run)
      → sweeps r.trace ≡ 0
      → Reports wf (fail_run env wf trigger nid n x r)
  unfolding fail_run
  fail_run-Reports nid n x r u = record {
    at = record { unswept = u; stored = refl; leaves = refl };
  }

  mark_cancelled-Reports :
      (r : Run) → sweeps r.trace ≡ 0 → Reports wf (returned (mark_cancelled env r))
  unfolding mark_cancelled
  mark_cancelled-Reports r u = record {
    at = record { unswept = ground arith; stored = ground arith; leaves = ground arith };
  }

  soft_fail-Reports :
      (nid : String) (x : NodeExecutionResult) (r : Run) (next : List String)
      → continues wf nid ≡ true
      → Open wf r
      → Reports wf (soft_fail env wf trigger nid (set_result nid x r) next)
  unfolding soft_fail
  soft_fail-Reports nid x r next c o = record {
    at = record {
      unswept = o.unswept;
      accounts =
          λ y m. account wf nid x r y o.accounts (rw c refl) (executed_cases y nid r.executed m);
    };
  }

  settle-Reports :
      (nid : String) (n : NodeDefinition) (x : NodeExecutionResult) (r : Run) (next : List String)
      → lookup nid (node_map wf) ≡ some n
      → Open wf r
      → Reports wf (settle env wf trigger nid n x r next)
  unfolding settle
  settle-Reports nid n x r next i o =
      if_ind_eq (Reports wf) (is_completed x.status)
        (λ done. take_output-Reports nid x.output_data _ next (record {
          unswept = o.unswept;
          accounts = λ y m.
              account wf nid x r y o.accounts (goes_on_or wf nid x (rw done refl))
                (executed_cases y nid r.executed m);
        }))
        (λ _.
          if_ind_eq (Reports wf) (holds (get "continue_on_error" n.config))
            (λ c. soft_fail-Reports nid x r next (rw i c) o)
            (λ _. fail_run-Reports nid n x _ o.unswept))

  end_run-Reports :
      (nid : String) (n : NodeDefinition) (e : NodeRun) (r : Run) (next : List String)
      → lookup nid (node_map wf) ≡ some n
      → Open wf r
      → Reports wf (end_run env wf trigger nid n e r next)
  unfolding end_run
  end_run-Reports nid n (raised vars m) r next i o = throw-Reports _ m o.unswept
  end_run-Reports nid n (timed_out vars) r next i o =
      settle-Reports nid n _ _ next i (record { unswept = o.unswept; accounts = o.accounts })
  end_run-Reports nid n (finished vars x) r next i o =
      settle-Reports nid n x _ next i (record { unswept = o.unswept; accounts = o.accounts })

  run_node-Reports :
      (nid : String) (n : NodeDefinition) (input : Value) (r : Run) (next : List String)
      → lookup nid (node_map wf) ≡ some n
      → Open wf r
      → Reports wf (run_node env wf trigger nid n input r next)
  unfolding run_node
  run_node-Reports nid n input r next i o =
      if_ind (Reports wf) _ (fail_unknown-Reports nid n r next o) (
        if_ind (Reports wf) _ (throw-Reports _ _ o.unswept) (
          end_run-Reports nid n _ _ next i (record { unswept = o.unswept; accounts = o.accounts })))

  visit_node-Reports :
      (nid : String) (n? : Option NodeDefinition) (r : Run) (next : List String)
      → lookup nid (node_map wf) ≡ n?
      → Open wf r
      → Reports wf (visit_node env wf trigger nid n? r next)
  unfolding visit_node
  visit_node-Reports nid none r next i o = throw-Reports r _ o.unswept
  visit_node-Reports nid (some n) r next i o =
      if_ind (Reports wf) _
        (skip_node-Reports nid _ next (record { unswept = o.unswept; accounts = o.accounts }))
        (run_node-Reports nid n _ _ next i (record { unswept = o.unswept; accounts = o.accounts }))

  pub visit-Reports :
      (nid : String) (r : Run) (next : List String)
      → Open wf r
      → Reports wf (visit env wf trigger nid r next)
  unfolding visit
  visit-Reports nid r next o =
      if_ind (Reports wf) _ (mark_cancelled-Reports r o.unswept)
        (visit_node-Reports nid (lookup nid (node_map wf)) r next refl o)

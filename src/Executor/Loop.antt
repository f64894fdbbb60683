-- ===== src/Executor/Loop.antt =====
-- citra_workflow/executor.py: the rounds of a run. `execute` and `resume` have the same loop, over
-- another visit of a node; the loop is written once over the visit.
pub mod Order
pub mod Runs
pub mod Rule
pub mod Total
pub mod Spread
use citra_flows.Common.{
  ℕ, zero, suc, String, Bool, List, [], ◌∷◌, ◌++◌, mem, all, ◌||◌, if◌then◌else◌,
}
use citra_flows.Models.{EdgeDefinition}
use citra_flows.Executor.Graph.{parents}
use citra_flows.Executor.State.{Run}
use citra_flows.Executor.Visit.{Flow, go, returned, threw}

-- All parents of the node are executed.
unfoldable pub is_ready : List EdgeDefinition → List String → String → Bool
is_ready edges executed nid = all (λ d. mem d executed) (parents edges nid)

-- Where one entry of the queue goes: into the batch, into the next queue, or nowhere.
unfoldable pub place :
    List EdgeDefinition
    → List String
    → String
    → List String × List String
    → List String × List String
place edges executed nid (batch, next) =
    if mem nid executed || mem nid batch
    then (batch, next)
    else if is_ready edges executed nid
    then (batch ++ nid ∷ [], next)
    else if mem nid next
    then (batch, next)
    else (batch, next ++ nid ∷ [])

-- The inner `while queue` loop: the batch of a round, and the queue that is left.
unfoldable pub collect :
    List EdgeDefinition
    → List String
    → List String
    → List String × List String
    → List String × List String
collect edges executed [] acc = acc
collect edges executed (nid ∷ queue) acc =
    collect edges executed queue (place edges executed nid acc)

abbrev pub and_then {ℓ} : {A : Type ℓ} → (Run → List String → A) → (Flow → A) → Flow → A
and_then f stop (go r next) = f r next
and_then f stop (returned r) = stop (returned r)
and_then f stop (threw r m) = stop (threw r m)

-- How the outer loop ends.
pub data Ending : Type 0 where
  done : Flow → Ending
  out_of_fuel : Ending

module _ (edges : List EdgeDefinition) (visit : String → Run → List String → Flow) where
  -- `for nid in batch`.
  unfoldable pub visit_batch : List String → Run → List String → Flow
  visit_batch [] r next = go r next
  visit_batch (nid ∷ batch) r next =
      and_then (visit_batch batch) (λ stopped. stopped) (visit nid r next)

  -- A round with its batch, and how it goes on: the loop is left where no node is ready.
  unfoldable pub round_with :
      (List String → Run → Ending) → List String → List String → Run → Ending
  round_with loop [] next r = done (go r next)
  round_with loop (nid ∷ batch) next r =
      and_then (λ r' next'. loop next' r') done (visit_batch (nid ∷ batch) r next)

  -- The outer `while queue` loop. A round executes at least one node, so a fuel above the number of
  -- the nodes is not used up.
  unfoldable pub rounds : ℕ → List String → Run → Ending
  rounds zero queue r = out_of_fuel
  rounds (suc fuel) [] r = done (go r [])
  rounds (suc fuel) (nid ∷ queue) r =
      let (batch, next) = collect edges r.executed (nid ∷ queue) ([], []) in
      round_with (rounds fuel) batch next r

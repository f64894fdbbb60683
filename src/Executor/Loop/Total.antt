-- ===== src/Executor/Loop/Total.antt =====
-- The loop ends within its fuel, whatever the nodes do.
use citra_flows.Common.{
  ℕ, zero, suc, ◌+◌, ◌≤◌, ◌<◌, String, ◌≡◌, refl, true, false, List, [], ◌∷◌, mem, arith, ==_iff,
  if◌then◌else◌,
}
use citra_flows.Models.{EdgeDefinition}
use citra_flows.Executor.State.{Run}
use citra_flows.Executor.Visit.{Flow, go, returned, threw}
use citra_flows.Executor.Loop.{Ending, done, out_of_fuel, and_then, visit_batch, round_with, rounds}
use citra_flows.Executor.Loop.Order.{Batch, collect-Batch}
use citra_flows.Executor.Loop.Runs.{Batch-tail}

-- How many of the nodes are not executed.
abbrev pub missing : List String → List String → ℕ
missing [] ex = 0
missing (i ∷ ids) ex = (if mem i ex then 0 else 1) + missing ids ex

missing-cons-le : (ids ex : List String) (n : String) → missing ids (n ∷ ex) ≤ missing ids ex
missing-cons-le [] ex n = omega arith
missing-cons-le (i ∷ ids) ex n = ground (arith, missing-cons-le ids ex n)

missing-cons-lt :
    (ids ex : List String) (n : String)
    → mem n ids ≡ true
    → mem n ex ≡ false
    → missing ids (n ∷ ex) < missing ids ex
missing-cons-lt [] ex n h fresh = cc
missing-cons-lt (i ∷ ids) ex n h fresh =
    ground (arith, ==_iff n i, ==_iff i n, missing-cons-le ids ex n, missing-cons-lt ids ex n)

-- If the visit of `n` goes on, `n` is a node of the workflow and is executed now.
abbrev pub Executes : List String → String → List String → Flow → Type 0
Executes ids n ex (go r next) = (mem n ids ≡ true) × (r.executed ≡ n ∷ ex)
Executes ids n ex (returned r) = Unit
Executes ids n ex (threw r m) = Unit

abbrev pub IsExecutor : List String → (String → Run → List String → Flow) → Type 0
IsExecutor ids visit =
    (n : String) (r : Run) (next : List String)
    → mem n r.executed ≡ false
    → Executes ids n r.executed (visit n r next)

abbrev pub IsDone : Ending → Type 0
IsDone (done f) = Unit
IsDone out_of_fuel = ⊥

module _ (edges : List EdgeDefinition) (ids : List String)
    (visit : String → Run → List String → Flow) (executor : IsExecutor ids visit) where
  -- Fewer than `k` nodes are not executed, if the loop goes on.
  abbrev Shrinks : ℕ → Flow → Type 0
  Shrinks k (go r next) = missing ids r.executed < k
  Shrinks k (returned r) = Unit
  Shrinks k (threw r m) = Unit

  weaken : {j k : ℕ} (f : Flow) → j ≤ k → Shrinks j f → Shrinks k f
  weaken (go r next) le h = omega arith
  weaken (returned r) le h = tt
  weaken (threw r m) le h = tt

  abbrev BatchShrinks : List String → Type 0
  BatchShrinks batch =
      (r : Run) (next : List String)
      → Batch edges r.executed batch
      → Shrinks (suc (missing ids r.executed)) (visit_batch edges visit batch r next)

  rest_Shrinks :
      (n : String) (ex batch : List String)
      → BatchShrinks batch
      → mem n batch ≡ false
      → mem n ex ≡ false
      → Batch edges ex batch
      → (f : Flow) → Executes ids n ex f
      → Shrinks (missing ids ex) (and_then (visit_batch edges visit batch) (λ stopped. stopped) f)
  rest_Shrinks n ex batch rest absent fresh b (go r next) (known, e) =
      weaken (visit_batch edges visit batch r next) (rw e (missing-cons-lt ids ex n known fresh))
        (rest r next (rw e (Batch-tail edges ex n batch absent b)))
  rest_Shrinks n ex batch rest absent fresh b (returned r) h = tt
  rest_Shrinks n ex batch rest absent fresh b (threw r m) h = tt

  visit_batch-BatchShrinks : (batch : List String) → BatchShrinks batch
  unfolding visit_batch
  visit_batch-BatchShrinks [] r next b = omega arith
  visit_batch-BatchShrinks (n ∷ batch) r next b =
      weaken (and_then (visit_batch edges visit batch) (λ stopped. stopped) (visit n r next))
        (omega arith)
        (rest_Shrinks n r.executed batch (visit_batch-BatchShrinks batch) b.0 b.1 b.3
          (visit n r next) (executor n r next b.1))

  -- A round with a ready node executes one.
  visit_batch-Shrinks :
      (n : String) (batch : List String) (r : Run) (next : List String)
      → Batch edges r.executed (n ∷ batch)
      → Shrinks (missing ids r.executed) (visit_batch edges visit (n ∷ batch) r next)
  unfolding visit_batch
  visit_batch-Shrinks n batch r next b =
      rest_Shrinks n r.executed batch (visit_batch-BatchShrinks batch) b.0 b.1 b.3 (visit n r next)
        (executor n r next b.1)

  abbrev pub RoundsDone : ℕ → Type 0
  RoundsDone fuel =
      (queue : List String) (r : Run)
      → missing ids r.executed < fuel
      → IsDone (rounds edges visit fuel queue r)

  next_IsDone :
      (fuel k : ℕ)
      → RoundsDone fuel
      → k ≤ fuel
      → (f : Flow) → Shrinks k f
      → IsDone (and_then (λ r' next'. rounds edges visit fuel next' r') done f)
  next_IsDone fuel k rec le (go r next) h = rec next r (omega arith)
  next_IsDone fuel k rec le (returned r) h = tt
  next_IsDone fuel k rec le (threw r m) h = tt

  round_IsDone :
      (fuel : ℕ)
      → RoundsDone fuel
      → (batch next : List String) (r : Run) → missing ids r.executed ≤ fuel
      → Batch edges r.executed batch
      → IsDone (round_with edges visit (rounds edges visit fuel) batch next r)
  unfolding round_with
  round_IsDone fuel rec [] next r h b = tt
  round_IsDone fuel rec (n ∷ batch) next r h b =
      next_IsDone fuel (missing ids r.executed) rec h (visit_batch edges visit (n ∷ batch) r next)
        (visit_batch-Shrinks n batch r next b)

  pub rounds-RoundsDone : (fuel : ℕ) → RoundsDone fuel
  unfolding rounds
  rounds-RoundsDone zero queue r h = elim h [ ]
  rounds-RoundsDone (suc fuel) [] r h = tt
  rounds-RoundsDone (suc fuel) (n ∷ queue) r h =
      round_IsDone fuel (rounds-RoundsDone fuel) _ _ r (omega arith)
        (collect-Batch edges r.executed (n ∷ queue) ([], []) tt)

-- A finished loop is a flow.
pub IsDone-flow : (e : Ending) → IsDone e → (f : Flow) × (e ≡ done f)
IsDone-flow (done f) h = (f, refl)
IsDone-flow out_of_fuel h = absurd h

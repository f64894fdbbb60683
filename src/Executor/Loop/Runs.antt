-- ===== src/Executor/Loop/Runs.antt =====
-- The loop keeps the order, and with one more fuel than there are nodes left it ends.
use citra_flows.Common.{ℕ, zero, suc, String, ◌≡◌, false, List, [], ◌∷◌, mem, arith, ==_iff}
use citra_flows.Models.{EdgeDefinition}
use citra_flows.Executor.State.{Run}
use citra_flows.Executor.Visit.{Flow, go, returned, threw}
use citra_flows.Executor.Loop.{Ending, done, out_of_fuel, and_then, visit_batch, round_with, rounds}
use citra_flows.Executor.Loop.Order.{
  InvOf, FinalOf, Batch, AfterAt, visited, collect-Batch, IsVisitor, is_ready-cons,
}

module _ (edges : List EdgeDefinition) (limit : ℕ) (base : List String) where
  abbrev pub After : Flow → Type 0
  After (go r next) = InvOf edges limit base r
  After (returned r) = FinalOf edges limit base r
  After (threw r m) = FinalOf edges limit base r

  abbrev pub AfterEnding : Ending → Type 0
  AfterEnding (done f) = After f
  AfterEnding out_of_fuel = Unit

-- The batch that is left behind the visit of its first node.
pub Batch-tail :
    (edges : List EdgeDefinition) (ex : List String) (n : String) (batch : List String)
    → mem n batch ≡ false
    → Batch edges ex batch
    → Batch edges (n ∷ ex) batch
Batch-tail edges ex n [] absent b = tt
Batch-tail edges ex n (m ∷ batch) absent b = (
  b.0,
  ground (arith, ==_iff n m, ==_iff m n),
  is_ready-cons edges 0 [] ex n m b.2,
  Batch-tail edges ex n batch (ground arith) b.3,
)

module _ (edges : List EdgeDefinition) (limit : ℕ) (base : List String)
    (visit : String → Run → List String → Flow) (visitor : IsVisitor limit visit) where
  visit_rest :
      (n : String) (ex batch : List String)
      → ((r : Run) (next : List String)
          → InvOf edges limit base r
          → Batch edges r.executed batch
          → After edges limit base (visit_batch edges visit batch r next))
      → mem n batch ≡ false
      → Batch edges ex batch
      → (f : Flow) → AfterAt edges limit base (n ∷ ex) f
      → After edges limit base (and_then (visit_batch edges visit batch) (λ stopped. stopped) f)
  visit_rest n ex batch rest absent b (go r next) (e, inv) =
      rest r next inv (rw e (Batch-tail edges ex n batch absent b))
  visit_rest n ex batch rest absent b (returned r) h = h
  visit_rest n ex batch rest absent b (threw r m) h = h

  visit_batch-After :
      (batch : List String) (r : Run) (next : List String)
      → InvOf edges limit base r
      → Batch edges r.executed batch
      → After edges limit base (visit_batch edges visit batch r next)
  unfolding visit_batch
  visit_batch-After [] r next inv b = inv
  visit_batch-After (n ∷ batch) r next inv b =
      visit_rest n r.executed batch (visit_batch-After batch) b.0 b.3 (visit n r next)
        (visited edges limit base n r (visit n r next) inv b.1 b.2 (visitor n r next b.1))

  next_round :
      (fuel : ℕ)
      → ((queue : List String) (r : Run)
          → InvOf edges limit base r
          → AfterEnding edges limit base (rounds edges visit fuel queue r))
      → (f : Flow) → After edges limit base f
      → AfterEnding edges limit base
          (and_then (λ r' next'. rounds edges visit fuel next' r') done f)
  next_round fuel rec (go r next) inv = rec next r inv
  next_round fuel rec (returned r) h = h
  next_round fuel rec (threw r m) h = h

  visit_round :
      (fuel : ℕ)
      → ((queue : List String) (r : Run)
          → InvOf edges limit base r
          → AfterEnding edges limit base (rounds edges visit fuel queue r))
      → (batch next : List String) (r : Run) → InvOf edges limit base r
      → Batch edges r.executed batch
      → AfterEnding edges limit base (round_with edges visit (rounds edges visit fuel) batch next r)
  unfolding round_with
  visit_round fuel rec [] next r inv b = inv
  visit_round fuel rec (n ∷ batch) next r inv b =
      next_round fuel rec (visit_batch edges visit (n ∷ batch) r next)
        (visit_batch-After (n ∷ batch) r next inv b)

  -- The invariant holds when the loop ends by itself, and its final part on every way out.
  pub rounds-After :
      (fuel : ℕ) (queue : List String) (r : Run)
      → InvOf edges limit base r
      → AfterEnding edges limit base (rounds edges visit fuel queue r)
  unfolding rounds
  rounds-After zero queue r inv = tt
  rounds-After (suc fuel) [] r inv = inv
  rounds-After (suc fuel) (n ∷ queue) r inv =
      visit_round fuel (rounds-After fuel) _ _ r inv
        (collect-Batch edges r.executed (n ∷ queue) ([], []) tt)

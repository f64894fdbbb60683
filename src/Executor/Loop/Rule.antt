-- ===== src/Executor/Loop/Rule.antt =====
-- A rule for what does not depend on the batches: a property that every visit keeps, and one that
-- every visit leaves behind when it leaves the loop.
use citra_flows.Common.{ℕ, zero, suc, String, List, [], ◌∷◌}
use citra_flows.Models.{EdgeDefinition}
use citra_flows.Executor.State.{Run}
use citra_flows.Executor.Visit.{Flow, go, returned, threw}
use citra_flows.Executor.Loop.{Ending, done, out_of_fuel, and_then, visit_batch, round_with, rounds}

abbrev pub Leaves : (Run → Type 0) → (Run → Type 0) → (Run → Type 0) → Flow → Type 0
Leaves P Q R (go r next) = P r
Leaves P Q R (returned r) = Q r
Leaves P Q R (threw r m) = R r

abbrev pub Ends : (Run → Type 0) → (Run → Type 0) → (Run → Type 0) → Ending → Type 0
Ends P Q R (done f) = Leaves P Q R f
Ends P Q R out_of_fuel = Unit

-- A property as a record, which keeps its arguments in a goal.
pub record LeavesBy (P Q R : Run → Type 0) (f : Flow) : Type 0 where
  pub at : Leaves P Q R f

module _ (P Q R : Run → Type 0) (edges : List EdgeDefinition)
    (visit : String → Run → List String → Flow)
    (keep : (nid : String) (r : Run) (next : List String)
      → P r
      → LeavesBy P Q R (visit nid r next)) where
  rest_Leaves :
      (batch : List String)
      → ((r : Run) (next : List String) → P r → Leaves P Q R (visit_batch edges visit batch r next))
      → (f : Flow) → Leaves P Q R f
      → Leaves P Q R (and_then (visit_batch edges visit batch) (λ stopped. stopped) f)
  rest_Leaves batch rest (go r next) h = rest r next h
  rest_Leaves batch rest (returned r) h = h
  rest_Leaves batch rest (threw r m) h = h

  visit_batch-Leaves :
      (batch : List String) (r : Run) (next : List String)
      → P r
      → Leaves P Q R (visit_batch edges visit batch r next)
  unfolding visit_batch
  visit_batch-Leaves [] r next h = h
  visit_batch-Leaves (n ∷ batch) r next h =
      rest_Leaves batch (visit_batch-Leaves batch) (visit n r next) (keep n r next h).at

  next_Ends :
      (fuel : ℕ)
      → ((queue : List String) (r : Run) → P r → Ends P Q R (rounds edges visit fuel queue r))
      → (f : Flow) → Leaves P Q R f
      → Ends P Q R (and_then (λ r' next'. rounds edges visit fuel next' r') done f)
  next_Ends fuel rec (go r next) h = rec next r h
  next_Ends fuel rec (returned r) h = h
  next_Ends fuel rec (threw r m) h = h

  round_Ends :
      (fuel : ℕ)
      → ((queue : List String) (r : Run) → P r → Ends P Q R (rounds edges visit fuel queue r))
      → (batch next : List String) (r : Run) → P r
      → Ends P Q R (round_with edges visit (rounds edges visit fuel) batch next r)
  unfolding round_with
  round_Ends fuel rec [] next r h = h
  round_Ends fuel rec (n ∷ batch) next r h =
      next_Ends fuel rec (visit_batch edges visit (n ∷ batch) r next)
        (visit_batch-Leaves (n ∷ batch) r next h)

  pub rounds-Ends :
      (fuel : ℕ) (queue : List String) (r : Run)
      → P r
      → Ends P Q R (rounds edges visit fuel queue r)
  unfolding rounds
  rounds-Ends zero queue r h = tt
  rounds-Ends (suc fuel) [] r h = h
  rounds-Ends (suc fuel) (n ∷ queue) r h = round_Ends fuel (rounds-Ends fuel) _ _ r h

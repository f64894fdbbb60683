-- ===== src/Executor/Loop/Spread.antt =====
-- A rule on which nodes the loop runs: a property that the queue has at the start, and that the
-- children of a node have if the node has it, holds of every node that is run.
use citra_flows.Common.{
  ℕ, zero, suc, String, ◌≡◌, sym, subst, ◌⊎◌, inl, inr, true, ◌||◌, List, [], ◌∷◌, ◌++◌, mem,
  mem-append, mem-cons_cases, mem-cons_of_mem, mem_self, arith, if◌then◌else◌, if_ind, ==_iff,
}
use citra_flows.Models.{EdgeDefinition}
use citra_flows.Executor.State.{Run, runs}
use citra_flows.Executor.Visit.{Flow, go, returned, threw, enqueue}
use citra_flows.Executor.Loop.{
  Ending, done, out_of_fuel, is_ready, place, collect, and_then, visit_batch, round_with, rounds,
}

snoc_cases :
    (x y : String) (xs : List String) → mem x (xs ++ y ∷ []) ≡ true → (mem x xs ≡ true) ⊎ (x ≡ y)
snoc_cases x y xs m = ground (arith, mem-append x xs (y ∷ []), ==_iff x y)

module _ (P : String → Type 0) where
  abbrev pub AllHave : List String → Type 0
  AllHave xs = (x : String) → mem x xs ≡ true → P x

  AllHave-snoc : (xs : List String) (y : String) → AllHave xs → P y → AllHave (xs ++ y ∷ [])
  AllHave-snoc xs y h p x m = elim (snoc_cases x y xs m) [
    | inl i ↦ h x i
    | inr e ↦ subst P (sym e) p
  ]

  pub AllHave-cons : (y : String) (xs : List String) → P y → AllHave xs → AllHave (y ∷ xs)
  AllHave-cons y xs p h x m = elim (mem-cons_cases x y xs m) [
    | inl e ↦ subst P (sym e) p
    | inr i ↦ h x i
  ]

  record Have (xs : List String) : Type 0 where
    at : AllHave xs

  enqueue-Have : (ex next cs : List String) → Have next → AllHave cs → Have (enqueue ex next cs)
  unfolding enqueue
  enqueue-Have ex next [] h g = h
  enqueue-Have ex next (c ∷ cs) h g =
      enqueue-Have ex (if mem c ex || mem c next then next else next ++ c ∷ []) cs
        (if_ind Have (mem c ex || mem c next) h
          (record { at = AllHave-snoc next c h.at (g c (mem_self c cs)) }))
        (λ x m. g x (mem-cons_of_mem x c cs m))

  pub enqueue-AllHave :
      (ex next cs : List String) → AllHave next → AllHave cs → AllHave (enqueue ex next cs)
  enqueue-AllHave ex next cs h g = (enqueue-Have ex next cs (record { at = h }) g).at

  record HaveBoth (a : List String × List String) : Type 0 where
    batch : AllHave a.0
    next : AllHave a.1

  place-HaveBoth :
      (edges : List EdgeDefinition) (ex : List String) (n : String) (batch next : List String)
      → P n
      → HaveBoth (batch, next)
      → HaveBoth (place edges ex n (batch, next))
  unfolding place
  place-HaveBoth edges ex n batch next p h = if_ind HaveBoth (mem n ex || mem n batch) h (
      if_ind HaveBoth (is_ready edges ex n)
        (record { batch = AllHave-snoc batch n h.batch p; next = h.next })
        (if_ind HaveBoth (mem n next) h
          (record { batch = h.batch; next = AllHave-snoc next n h.next p })))

  collect-HaveBoth :
      (edges : List EdgeDefinition) (ex queue : List String) (a : List String × List String)
      → AllHave queue
      → HaveBoth a
      → HaveBoth (collect edges ex queue a)
  unfolding collect
  collect-HaveBoth edges ex [] a q h = h
  collect-HaveBoth edges ex (n ∷ queue) (batch, next) q h =
      collect-HaveBoth edges ex queue _ (λ x m. q x (mem-cons_of_mem x n queue m))
        (place-HaveBoth edges ex n batch next (q n (mem_self n queue)) h)

  -- After a visit: the nodes run and the queue.
  abbrev pub Spreads : Flow → Type 0
  Spreads (go r next) = AllHave (runs r.trace) × AllHave next
  Spreads (returned r) = AllHave (runs r.trace)
  Spreads (threw r m) = AllHave (runs r.trace)

  abbrev pub SpreadsEnding : Ending → Type 0
  SpreadsEnding (done f) = Spreads f
  SpreadsEnding out_of_fuel = Unit

  module _ (edges : List EdgeDefinition) (visit : String → Run → List String → Flow)
      (spread : (n : String) (r : Run) (next : List String)
        → P n
        → AllHave (runs r.trace)
        → AllHave next
        → Spreads (visit n r next)) where
    rest_Spreads :
        (batch : List String)
        → ((r : Run) (next : List String)
            → AllHave (runs r.trace)
            → AllHave next
            → Spreads (visit_batch edges visit batch r next))
        → (f : Flow) → Spreads f
        → Spreads (and_then (visit_batch edges visit batch) (λ stopped. stopped) f)
    rest_Spreads batch rest (go r next) h = rest r next h.0 h.1
    rest_Spreads batch rest (returned r) h = h
    rest_Spreads batch rest (threw r m) h = h

    visit_batch-Spreads :
        (batch : List String) (r : Run) (next : List String)
        → AllHave batch
        → AllHave (runs r.trace)
        → AllHave next
        → Spreads (visit_batch edges visit batch r next)
    unfolding visit_batch
    visit_batch-Spreads [] r next b h g = (h, g)
    visit_batch-Spreads (n ∷ batch) r next b h g =
        rest_Spreads batch
          (λ r' next' h' g'.
            visit_batch-Spreads batch r' next' (λ x m. b x (mem-cons_of_mem x n batch m)) h' g')
          (visit n r next) (spread n r next (b n (mem_self n batch)) h g)

    abbrev LoopSpreads : ℕ → Type 0
    LoopSpreads fuel =
        (queue : List String) (r : Run)
        → AllHave queue
        → AllHave (runs r.trace)
        → SpreadsEnding (rounds edges visit fuel queue r)

    next_Spreads :
        (fuel : ℕ)
        → LoopSpreads fuel
        → (f : Flow) → Spreads f
        → SpreadsEnding (and_then (λ r' next'. rounds edges visit fuel next' r') done f)
    next_Spreads fuel rec (go r next) h = rec next r h.1 h.0
    next_Spreads fuel rec (returned r) h = h
    next_Spreads fuel rec (threw r m) h = h

    round_Spreads :
        (fuel : ℕ)
        → LoopSpreads fuel
        → (batch next : List String) (r : Run) → AllHave batch
        → AllHave next
        → AllHave (runs r.trace)
        → SpreadsEnding (round_with edges visit (rounds edges visit fuel) batch next r)
    unfolding round_with
    round_Spreads fuel rec [] next r b g h = (h, g)
    round_Spreads fuel rec (n ∷ batch) next r b g h =
        next_Spreads fuel rec (visit_batch edges visit (n ∷ batch) r next)
          (visit_batch-Spreads (n ∷ batch) r next b h g)

    pub rounds-Spreads : (fuel : ℕ) → LoopSpreads fuel
    unfolding rounds
    rounds-Spreads zero queue r q h = tt
    rounds-Spreads (suc fuel) [] r q h = (h, q)
    rounds-Spreads (suc fuel) (n ∷ queue) r q h =
        let both =
          collect-HaveBoth edges r.executed (n ∷ queue) ([], []) q
            (record { batch = λ x m. cc; next = λ x m. cc }) in
        round_Spreads fuel (rounds-Spreads fuel) _ _ r both.batch both.next h

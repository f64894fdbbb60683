-- ===== src/Executor/Loop/Order.antt =====
-- The order in which the loop runs nodes, for any visit of a node that obeys `Visits`.
use citra_flows.Common.{
  ℕ, ◌+◌, ◌≤◌, String, ◌≡◌, refl, sym, subst, inl, inr, true, false, ◌||◌, List, [], ◌∷◌, ◌++◌, mem,
  arith, length, mem-append, mem_self, mem-cons_of_mem, mem-cons_cases, ==_iff, all-mem, all_mono,
  Bool-cases,
}
use citra_flows.Models.{EdgeDefinition}
use citra_flows.Executor.Graph.{parents}
use citra_flows.Executor.State.{Run, runs}
use citra_flows.Executor.Visit.{Flow, go, returned, threw}
use citra_flows.Executor.Visit.Settles.{Settles, VisitsFrom, passed, ran_node}
use citra_flows.Executor.Loop.{is_ready, place, collect}

-- The nodes run, newest first: none twice, and none after one of its children.
abbrev pub Topological : List EdgeDefinition → List String → Type 0
Topological edges [] = Unit
Topological edges (n ∷ older) =
    (mem n older ≡ false)
    × ((m : String) → mem m older ≡ true → mem n (parents edges m) ≡ false)
    × Topological edges older

-- The executed nodes, the nodes run and the steps, while the loop goes on from the executed nodes
-- `base`.
pub record Inv (edges : List EdgeDefinition) (limit : ℕ) (base ex ran : List String) (k : ℕ)
    : Type 0 where
  pub kept : (x : String) → mem x base ≡ true → mem x ex ≡ true
  pub within : (x : String) → mem x ran ≡ true → mem x ex ≡ true
  pub closed : (x : String) → mem x ran ≡ true → is_ready edges ex x ≡ true
  pub new : (x : String) → mem x ran ≡ true → mem x base ≡ false
  pub ordered : Topological edges ran
  pub counted : length ran ≤ k
  pub bounded : length ran ≤ limit

-- What is left of it when the loop is left.
pub record Final (edges : List EdgeDefinition) (limit : ℕ) (base ran : List String) : Type 0 where
  pub new : (x : String) → mem x ran ≡ true → mem x base ≡ false
  pub ordered : Topological edges ran
  pub bounded : length ran ≤ limit

pub Inv-start :
    (edges : List EdgeDefinition) (limit : ℕ) (base : List String) (k : ℕ)
    → Inv edges limit base base [] k
Inv-start edges limit base k = record {
  kept = λ x h. h;
  within = λ x h. cc;
  closed = λ x h. cc;
  new = λ x h. cc;
  ordered = tt;
  counted = omega arith;
  bounded = omega arith;
}

module _ (edges : List EdgeDefinition) (limit : ℕ) (base : List String) where
  pub is_ready-cons :
      (ex : List String) (n x : String)
      → is_ready edges ex x ≡ true
      → is_ready edges (n ∷ ex) x ≡ true
  unfolding is_ready
  is_ready-cons ex n x =
      all_mono (λ d. mem d ex) (λ d. mem d (n ∷ ex)) (λ d. mem-cons_of_mem d n ex) (parents edges x)

  -- A parent of a node that is ready is executed.
  not_parent :
      (ex : List String) (n m : String)
      → mem n ex ≡ false
      → is_ready edges ex m ≡ true
      → mem n (parents edges m) ≡ false
  unfolding is_ready
  not_parent ex n m h ready = elim (Bool-cases (mem n (parents edges m))) [
    | inl e ↦ cc (all-mem (λ d. mem d ex) n (parents edges m) ready e)
    | inr e ↦ e
  ]

  grow_executed :
      (n : String) (ex ran : List String) (k : ℕ)
      → Inv edges limit base ex ran k
      → Inv edges limit base (n ∷ ex) ran k
  grow_executed n ex ran k inv = record {
    kept = λ x m. mem-cons_of_mem x n ex (inv.kept x m);
    within = λ x m. mem-cons_of_mem x n ex (inv.within x m);
    closed = λ x m. is_ready-cons ex n x (inv.closed x m);
    new = inv.new;
    ordered = inv.ordered;
    counted = inv.counted;
    bounded = inv.bounded;
  }

  not_base :
      (n : String) (ex ran : List String) (k : ℕ)
      → Inv edges limit base ex ran k
      → mem n ex ≡ false
      → mem n base ≡ false
  not_base n ex ran k inv fresh = elim (Bool-cases (mem n base)) [
    | inl e ↦ cc (inv.kept n e)
    | inr e ↦ e
  ]

  Topological-cons :
      (n : String) (ex ran : List String) (k : ℕ)
      → Inv edges limit base ex ran k
      → mem n ex ≡ false
      → Topological edges (n ∷ ran)
  Topological-cons n ex ran k inv fresh = (
    elim (Bool-cases (mem n ran)) [ inl e ↦ cc (inv.within n e) | inr e ↦ e ],
    λ m ran_m. not_parent ex n m fresh (inv.closed m ran_m),
    inv.ordered,
  )

  grow_run :
      (n : String) (ex ran : List String) (k : ℕ)
      → Inv edges limit base ex ran k
      → mem n ex ≡ false
      → is_ready edges ex n ≡ true
      → k + 1 ≤ limit
      → Inv edges limit base (n ∷ ex) (n ∷ ran) (k + 1)
  grow_run n ex ran k inv fresh ready room = record {
    kept = λ x m. mem-cons_of_mem x n ex (inv.kept x m);
    within = λ x m. elim (mem-cons_cases x n ran m) [
      | inl e ↦ subst (λ y. mem y (n ∷ ex) ≡ true) (sym e) (mem_self n ex)
      | inr m' ↦ mem-cons_of_mem x n ex (inv.within x m')
    ];
    closed = λ x m. elim (mem-cons_cases x n ran m) [
      | inl e ↦ rw e (is_ready-cons ex n n ready)
      | inr m' ↦ is_ready-cons ex n x (inv.closed x m')
    ];
    new = λ x m. elim (mem-cons_cases x n ran m) [
      | inl e ↦ rw e (not_base n ex ran k inv fresh)
      | inr m' ↦ inv.new x m'
    ];
    ordered = Topological-cons n ex ran k inv fresh;
    counted = omega (arith, inv.counted);
    bounded = omega (arith, inv.counted);
  }

  abbrev pub InvOf : Run → Type 0
  InvOf r = Inv edges limit base r.executed (runs r.trace) r.steps_executed

  abbrev pub FinalOf : Run → Type 0
  FinalOf r = Final edges limit base (runs r.trace)

  pub Inv-Final : (r : Run) → InvOf r → FinalOf r
  Inv-Final r inv = record { new = inv.new; ordered = inv.ordered; bounded = inv.bounded }

  -- After a visit of `n` from `r`: the invariant and the executed nodes, or the final facts.
  abbrev pub AfterAt : List String → Flow → Type 0
  AfterAt ex (go r next) = (r.executed ≡ ex) × InvOf r
  AfterAt ex (returned r) = FinalOf r
  AfterAt ex (threw r m) = FinalOf r

  settled :
      (ex ran : List String) (k : ℕ) (f : Flow)
      → Inv edges limit base ex ran k
      → Settles ex ran k f
      → AfterAt ex f
  settled ex ran k (go r next) inv s = (s.at.0, rw (s.at.0, s.at.1, s.at.2) inv)
  settled ex ran k (returned r) inv s =
      rw s.at (record { new = inv.new; ordered = inv.ordered; bounded = inv.bounded })
  settled ex ran k (threw r m) inv s =
      rw s.at (record { new = inv.new; ordered = inv.ordered; bounded = inv.bounded })

  pub visited :
      (n : String) (r : Run) (f : Flow)
      → InvOf r
      → mem n r.executed ≡ false
      → is_ready edges r.executed n ≡ true
      → VisitsFrom n limit r f
      → AfterAt (n ∷ r.executed) f
  visited n r f inv fresh ready (passed s) =
      settled _ _ _ f (grow_executed n r.executed (runs r.trace) r.steps_executed inv) s
  visited n r f inv fresh ready (ran_node room s) =
      settled _ _ _ f (grow_run n r.executed (runs r.trace) r.steps_executed inv fresh ready room) s

-- What the loop needs of a visit.
abbrev pub IsVisitor : ℕ → (String → Run → List String → Flow) → Type 0
IsVisitor limit visit =
    (nid : String) (r : Run) (next : List String)
    → mem nid r.executed ≡ false
    → VisitsFrom nid limit r (visit nid r next)

-- A batch: its nodes are not executed and ready, and none stands twice.
abbrev pub Batch : List EdgeDefinition → List String → List String → Type 0
Batch edges ex [] = Unit
Batch edges ex (n ∷ batch) =
    (mem n batch ≡ false) × (mem n ex ≡ false) × (is_ready edges ex n ≡ true) × Batch edges ex batch

module _ (edges : List EdgeDefinition) (ex : List String) where
  Batch-snoc :
      (n : String) (batch : List String)
      → mem n batch ≡ false
      → mem n ex ≡ false
      → is_ready edges ex n ≡ true
      → Batch edges ex batch
      → Batch edges ex (batch ++ n ∷ [])
  Batch-snoc n [] absent fresh ready b = (refl, fresh, ready, tt)
  Batch-snoc n (m ∷ batch) absent fresh ready b = (
    ground (arith, mem-append m batch (n ∷ []), ==_iff n m, ==_iff m n),
    b.1,
    b.2,
    Batch-snoc n batch (ground arith) fresh ready b.3,
  )

  place-Batch :
      (n : String) (batch next : List String)
      → Batch edges ex batch
      → Batch edges ex (place edges ex n (batch, next)).0
  unfolding place
  place-Batch n batch next b = elim (Bool-cases (mem n ex || mem n batch)) [
    | inl e ↦ rw e b
    | inr e ↦ elim (Bool-cases (is_ready edges ex n)) [
      | inl ready ↦ rw (e, ready) (Batch-snoc n batch (ground arith) (ground arith) ready b)
      | inr waits ↦ rw (e, waits) (ground arith)
    ]
  ]

  pub collect-Batch :
      (queue : List String) (acc : List String × List String)
      → Batch edges ex acc.0
      → Batch edges ex (collect edges ex queue acc).0
  unfolding collect
  collect-Batch [] acc b = b
  collect-Batch (n ∷ queue) (batch, next) b =
      collect-Batch queue (place edges ex n (batch, next)) (place-Batch n batch next b)

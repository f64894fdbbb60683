-- ===== src/SandboxPool/Reaping.antt =====
-- What the periodic reaper protects, and what it destroys.
use citra_flows.Common.{
  ℕ, ◌≤◌, ◌≡◌, ap, subst, ◌∙◌, String, Bool, true, false, some, List, [], ◌∷◌, ◌++◌, mem, select,
  occurrences, occurrences-append, mem-occurrences, arith, if_ind_eq, ◌==◌, ==_iff, ◌&&◌, mem_self,
  Bool-cases, inl, inr,
}
use citra_flows.SandboxPool.{
  System, new_system, insert_id, take_idle, take_from, found_alive, begin_reap, end_reap, Event,
  took_idle, noted, reaped, was_alive, step, run,
}
use citra_flows.SandboxPool.Invariant.{places, new-Inv}
use citra_flows.SandboxPool.Steps.{run-Inv}

mem-select :
    (y : String) (p : String → Bool) (ids : List String) → mem y (select p ids) ≡ (p y && mem y ids)
mem-select y p [] = ground arith
mem-select y p (x ∷ ids) = elim (Bool-cases (y == x)) [
  | inl e ↦ rw ((==_iff y x).0 e) (ground (arith, ==_iff x x, mem-select x p ids))
  | inr e ↦ ground (arith, mem-select y p ids)
]

-- The reaper, over the containers it noted.
reaped_running :
    (y : String) (s : System)
    → mem y (run (noted ∷ reaped ∷ []) s).running ≡ (mem y (s.in_use ++ s.idle) && mem y s.running)
unfolding run step begin_reap end_reap
reaped_running y s = mem-select y _ s.running

absent_mem : (y : String) (xs : List String) → occurrences y xs ≡ 0 → mem y xs ≡ false
absent_mem y xs h = elim (Bool-cases (mem y xs)) [
  | inl m ↦ ground (arith, mem-occurrences y xs m)
  | inr m ↦ m
]

mem-insert_id : (x : String) (s : List String) → mem x (insert_id x s) ≡ true
mem-insert_id x s = if_ind_eq (λ t. mem x t ≡ true) (mem x s) (λ e. e) (λ e. mem_self x s)

-- A container that was reaped while it was validated is handed out.
race_end :
    (id : String) (rest : List String) (s : System)
    → places id (record s { pool = record (s.pool) { idle = id ∷ rest } }) ≤ 1
    → let t = found_alive id (end_reap (some (s.in_use ++ rest)) (take_from (id ∷ rest) s)) in
      (mem id t.in_use ≡ true) × (mem id t.running ≡ false)
unfolding found_alive take_from end_reap
race_end id rest s h =
    let unknown : mem id (s.in_use ++ rest) ≡ false =
      absent_mem id _ (ground (arith, ==_iff id id, h, occurrences-append id s.in_use rest)) in
    rw (mem_self id s.validating) (
      mem-insert_id id s.in_use,
      mem-select id _ s.running ∙ ap (λ b. b && mem id s.running) unknown,
    )

race_from :
    (id : String) (rest : List String) (s : System)
    → id ∷ rest ≡ s.idle
    → places id s ≤ 1
    → let t = run (took_idle ∷ noted ∷ reaped ∷ was_alive id ∷ []) s in
      (mem id t.in_use ≡ true) × (mem id t.running ≡ false)
unfolding run step take_idle begin_reap end_reap found_alive take_from
race_from id rest s e h =
    subst
      (λ ids.
        let t = take_from ids s in
        let u = found_alive id (end_reap (some (t.in_use ++ t.idle)) t) in
        (mem id u.in_use ≡ true) × (mem id u.running ≡ false))
      e (race_end id rest s (omega (arith, h, ap (occurrences id) e)))

-- In every state that the pool reaches, the reaper spares the running containers that were idle or
-- handed out when it noted them, and only these. An idle container which an `acquire` takes and
-- validates is neither: when the reaper notes the known containers and reaps before the check
-- returns, that container is handed out although it was destroyed.
pub reaping_race :
    (min_size max_size : ℕ) (events : List Event) (id : String) (rest : List String)
    → let s = run events (new_system min_size max_size) in
      id ∷ rest ≡ s.idle
      → ((y : String)
          → mem y (run (noted ∷ reaped ∷ []) s).running
            ≡ (mem y (s.in_use ++ s.idle) && mem y s.running))
        × let t = run (took_idle ∷ noted ∷ reaped ∷ was_alive id ∷ []) s in
          ((mem id t.in_use ≡ true) × (mem id t.running ≡ false))
unfolding run step take_idle begin_reap end_reap found_alive take_from
reaping_race min_size max_size events id rest e =
    let s = run events (new_system min_size max_size) in
    let h = run-Inv events (new_system min_size max_size) (new-Inv min_size max_size) in
    (λ y. mem-select y _ s.running, race_from id rest s e (h.unique id))

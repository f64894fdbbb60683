-- ===== src/SandboxPool/Steps.antt =====
-- Every step keeps the pool's invariant, and so every run does.
use citra_flows.Common.{
  ℕ, max, ◌+◌, ◌≤◌, ◌≡◌, refl, String, not, ◌&&◌, Option, none, some, List, [], ◌∷◌, ◌++◌, mem,
  length, length-append, is_empty, occurrences-append, arith, ltb, if_ind, if_ind_eq,
}
use citra_flows.SandboxPool.{
  System, new_system, take_idle, begin_release, reset_done, reset_failed, begin_reap, begin_prune,
  pruning, end_reap, lose, Event, took_idle, locked, left, grew_on, grew, failed_creating,
  warmed_on, warmed, noted, reaped, was_alive, was_dead, started, released, reset_worked,
  reset_broke, died, step, run,
}
use citra_flows.SandboxPool.Counts.{occurrences-without, length-without}
use citra_flows.SandboxPool.Invariant.{
  places, Inv, new-Inv, take_from-Inv, found_alive-Inv, found_dead-Inv,
}
use citra_flows.SandboxPool.Growth.{
  lock_grow-Inv, unlock_grow-Inv, begin_grow-Inv, begin_warmup-Inv, docker_starts-Inv,
  fail_creating-Inv, end_grow-Inv, end_warm-Inv,
}

begin_release-Inv : {top : ℕ} (id : String) (s : System) → Inv top s → Inv top (begin_release id s)
unfolding begin_release
begin_release-Inv id s h =
    if_ind_eq (Inv _) (mem id s.in_use)
      (λ m. record {
        counted = omega (arith, h.counted, length-without id s.in_use m);
        room = h.room;
        fixed = h.fixed;
        capped = h.capped;
        unique = λ y. omega (arith, h.unique y, occurrences-without y id s.in_use m);
        known = λ y n. omega (arith, h.known y n, occurrences-without y id s.in_use m);
      })
      (λ m. h)

reset_done-Inv : {top : ℕ} (id : String) (s : System) → Inv top s → Inv top (reset_done id s)
unfolding reset_done
reset_done-Inv id s h =
    if_ind_eq (Inv _) (mem id s.resetting)
      (λ m. record {
        counted =
            omega
              (arith, h.counted, length-without id s.resetting m, length-append s.idle (id ∷ []));
        room = h.room;
        fixed = h.fixed;
        capped = h.capped;
        unique = λ y. omega (
          arith,
          h.unique y,
          occurrences-without y id s.resetting m,
          occurrences-append y s.idle (id ∷ []),
        );
        known = λ y n. omega (
          arith,
          h.known y n,
          occurrences-without y id s.resetting m,
          occurrences-append y s.idle (id ∷ []),
        );
      })
      (λ m. h)

reset_failed-Inv : {top : ℕ} (id : String) (s : System) → Inv top s → Inv top (reset_failed id s)
unfolding reset_failed
reset_failed-Inv id s h =
    if_ind_eq (Inv _) (mem id s.resetting)
      (λ m. record {
        counted = omega (arith, h.counted, length-without id s.resetting m);
        room = λ e. omega (arith, h.room e);
        fixed = h.fixed;
        capped = omega (arith, h.capped);
        unique = λ y. omega (arith, h.unique y, occurrences-without y id s.resetting m);
        known = λ y n. omega (arith, h.known y n, occurrences-without y id s.resetting m);
      })
      (λ m. h)

-- Docker's own state plays no part in the invariant.
same-Inv :
    {top : ℕ} (s : System) (r : List String) (n : Option (List String))
    → Inv top s
    → Inv top (record s { running = r; snapshot = n })
same-Inv s r n h = record {
  counted = h.counted;
  room = h.room;
  fixed = h.fixed;
  capped = h.capped;
  unique = h.unique;
  known = h.known;
}

end_reap-Inv :
    {top : ℕ} (k : Option (List String)) (s : System) → Inv top s → Inv top (end_reap k s)
unfolding end_reap
end_reap-Inv none s h = h
end_reap-Inv (some known) s h = same-Inv s _ none h

begin_prune-Inv : {top : ℕ} (s : System) → Inv top s → Inv top (begin_prune s)
unfolding begin_prune
begin_prune-Inv s h =
    if_ind (Inv _) (not (ltb 0 s.created) && is_empty s.idle) (same-Inv s s.running (some []) h) h

step-Inv : {top : ℕ} (e : Event) (s : System) → Inv top s → Inv top (step e s)
unfolding step take_idle begin_reap lose
step-Inv took_idle s h = take_from-Inv s.idle s refl h
step-Inv locked s h = lock_grow-Inv s.lock s h
step-Inv left s h = unlock_grow-Inv s.lock s h
step-Inv grew_on s h = begin_grow-Inv s.lock s h
step-Inv grew s h = end_grow-Inv s.lock s.fresh s refl refl h
step-Inv failed_creating s h = fail_creating-Inv s.fresh s h
step-Inv warmed_on s h = begin_warmup-Inv s.lock s h
step-Inv warmed s h = end_warm-Inv s.lock s.fresh s refl refl h
step-Inv noted s h = same-Inv s s.running (some (s.in_use ++ s.idle)) h
step-Inv pruning s h = begin_prune-Inv s h
step-Inv reaped s h = end_reap-Inv s.snapshot s h
step-Inv (was_alive id) s h = found_alive-Inv id s h
step-Inv (was_dead id) s h = found_dead-Inv id s h
step-Inv (started id) s h = docker_starts-Inv id s h
step-Inv (released id) s h = begin_release-Inv id s h
step-Inv (reset_worked id) s h = reset_done-Inv id s h
step-Inv (reset_broke id) s h = reset_failed-Inv id s h
step-Inv (died id) s h = same-Inv s _ s.snapshot h

pub run-Inv : {top : ℕ} (events : List Event) (s : System) → Inv top s → Inv top (run events s)
unfolding run
run-Inv [] s h = h
run-Inv (e ∷ events) s h = run-Inv events (step e s) (step-Inv e s h)

-- However acquirers, releases, the warm-up, the reaper and Docker interleave: `_created` is the
-- number of containers that are idle, being validated, handed out or being reset, it never exceeds
-- the larger of the two sizes, and no container is in two of these places or in one of them twice, so that none is
-- handed out to two callers at once.
pub run-exclusive :
    (min_size max_size : ℕ) (events : List Event)
    → let s = run events (new_system min_size max_size) in
      (s.created ≡ length s.idle + length s.validating + length s.in_use + length s.resetting)
      × (s.created ≤ max min_size max_size)
      × ((y : String) → places y s ≤ 1)
run-exclusive min_size max_size events =
    let h = run-Inv events (new_system min_size max_size) (new-Inv min_size max_size) in
    (h.counted, omega (arith, h.capped, h.fixed), h.unique)

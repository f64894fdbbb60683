-- ===== src/SandboxPool/Invariant.antt =====
-- The pool's invariant: it counts its containers, holds at most `max_size`, and no container is in
-- two places.
use citra_flows.Common.{
  ℕ, max, ◌+◌, ◌≤◌, ◌<◌, ◌≡◌, ap, String, true, false, Option, none, some, List, [], ◌∷◌, mem,
  length, occurrences, mem-occurrences, arith, if◌then◌else◌, if_ind_eq, ◌==◌,
}
use citra_flows.SandboxPool.{
  System, new_pool, new_system, take_from, found_alive, found_dead, is_creating,
}
use citra_flows.SandboxPool.Counts.{
  occurrences-without, length-without, occurrences-insert_id, without-absent,
}

abbrev pub in_option : String → Option String → ℕ
in_option y none = 0
in_option y (some x) = if y == x then 1 else 0

-- How many places hold the container.
abbrev pub places : String → System → ℕ
places y s =
    occurrences y s.idle
    + occurrences y s.validating
    + occurrences y s.in_use
    + occurrences y s.resetting
    + in_option y s.fresh

pub record Inv (top : ℕ) (s : System) : Type 0 where
  pub fixed : s.max_size ≡ top
  pub counted :
      s.created ≡ length s.idle + length s.validating + length s.in_use + length s.resetting
  pub room : is_creating s.lock ≡ true → s.created < s.max_size
  pub capped : s.created ≤ s.max_size
  pub unique : (y : String) → places y s ≤ 1
  pub known : (y : String) → mem y s.seen ≡ false → places y s ≡ 0

pub new-Inv : (min_size max_size : ℕ) → Inv (max min_size max_size) (new_system min_size max_size)
unfolding new_system new_pool
new-Inv min_size max_size = record {
  fixed = ground arith;
  counted = omega arith;
  room = λ e. cc;
  capped = omega arith;
  unique = λ y. omega arith;
  known = λ y h. omega arith;
}

pub take_from-Inv :
    {top : ℕ} (ids : List String) (s : System)
    → ids ≡ s.idle
    → Inv top s
    → Inv top (take_from ids s)
unfolding take_from
take_from-Inv [] s e h = h
take_from-Inv (id ∷ rest) s e h = record {
  counted = omega (arith, h.counted, ap length e);
  room = h.room;
  fixed = h.fixed;
  capped = h.capped;
  unique = λ y. omega (arith, h.unique y, ap (occurrences y) e);
  known = λ y n. omega (arith, h.known y n, ap (occurrences y) e);
}

pub found_alive-Inv : {top : ℕ} (id : String) (s : System) → Inv top s → Inv top (found_alive id s)
unfolding found_alive
found_alive-Inv id s h =
    if_ind_eq (Inv _) (mem id s.validating)
      (λ m.
        let free : occurrences id s.in_use ≡ 0 =
          omega (arith, h.unique id, mem-occurrences id s.validating m) in
        let into = λ (y : String). occurrences-insert_id y id s.in_use free in
        record {
          counted = omega (arith, h.counted, length-without id s.validating m, (into id).1);
          room = h.room;
          fixed = h.fixed;
          capped = h.capped;
          unique =
              λ y. omega (arith, h.unique y, occurrences-without y id s.validating m, (into y).0);
          known = λ y n.
              omega (arith, h.known y n, occurrences-without y id s.validating m, (into y).0);
        })
      (λ m. h)

pub found_dead-Inv : {top : ℕ} (id : String) (s : System) → Inv top s → Inv top (found_dead id s)
unfolding found_dead
found_dead-Inv id s h =
    if_ind_eq (Inv _) (mem id s.validating)
      (λ m.
        let free : occurrences id s.in_use ≡ 0 =
          omega (arith, h.unique id, mem-occurrences id s.validating m) in
        let same = without-absent id s.in_use free in
        record {
          counted = omega (arith, h.counted, length-without id s.validating m, ap length same);
          room = λ e. omega (arith, h.room e);
          fixed = h.fixed;
          capped = omega (arith, h.capped);
          unique = λ y.
              omega (
                arith,
                h.unique y,
                occurrences-without y id s.validating m,
                ap (occurrences y) same,
              );
          known = λ y n. omega (
            arith,
            h.known y n,
            occurrences-without y id s.validating m,
            ap (occurrences y) same,
          );
        })
      (λ m. h)

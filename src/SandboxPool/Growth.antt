-- ===== src/SandboxPool/Growth.antt =====
-- The steps of the grow lock and of Docker keep the pool's invariant.
use citra_flows.Common.{
  ℕ, suc, ◌+◌, ◌≤◌, ◌<◌, ◌≡◌, refl, ap, sym, String, Bool-cases, inl, inr, true, false, not, ◌&&◌,
  Option, none, some, [], ◌∷◌, mem, length, length-append, is_empty, occurrences,
  occurrences-append, arith, ltb, if◌then◌else◌, if_ind, if_ind_eq, ◌==◌, ==_iff,
}
use citra_flows.SandboxPool.{
  Pool, System, Lock, unlocked, acquiring, growing, warming, lock_grow, unlock_grow, begin_grow,
  is_creating, is_none, docker_starts, end_grow, warm_next, begin_warmup, add_warm, end_warm,
  fail_creating,
}
use citra_flows.SandboxPool.Counts.{occurrences-insert_id}
use citra_flows.SandboxPool.Invariant.{in_option, places, Inv}

-- A step that changes the lock alone.
relock-Inv :
    {top : ℕ} (l : Lock) (s : System)
    → (is_creating l ≡ true → s.created < s.max_size)
    → Inv top s
    → Inv top (record s { lock = l })
relock-Inv l s room h = record {
  counted = h.counted;
  room = room;
  fixed = h.fixed;
  capped = h.capped;
  unique = h.unique;
  known = h.known;
}

pub lock_grow-Inv : {top : ℕ} (l : Lock) (s : System) → Inv top s → Inv top (lock_grow l s)
unfolding lock_grow
lock_grow-Inv unlocked s h = relock-Inv acquiring s (λ e. cc) h
lock_grow-Inv acquiring s h = h
lock_grow-Inv growing s h = h
lock_grow-Inv (warming n) s h = h

pub unlock_grow-Inv : {top : ℕ} (l : Lock) (s : System) → Inv top s → Inv top (unlock_grow l s)
unfolding unlock_grow
unlock_grow-Inv unlocked s h = h
unlock_grow-Inv acquiring s h = relock-Inv unlocked s (λ e. cc) h
unlock_grow-Inv growing s h = h
unlock_grow-Inv (warming n) s h = h

pub begin_grow-Inv : {top : ℕ} (l : Lock) (s : System) → Inv top s → Inv top (begin_grow l s)
unfolding begin_grow
begin_grow-Inv unlocked s h = h
begin_grow-Inv acquiring s h =
    if_ind_eq (Inv _) (is_empty s.idle && ltb s.created s.max_size)
      (λ e. relock-Inv growing s (λ c. ground arith) h) (λ e. h)
begin_grow-Inv growing s h = h
begin_grow-Inv (warming n) s h = h

record Room (p : Pool) (l : Lock) : Type 0 where
  at : is_creating l ≡ true → p.created < p.max_size

warm_next-Room : (p : Pool) (n : ℕ) → Room p (warm_next p n)
unfolding warm_next
warm_next-Room p n =
    if_ind_eq (Room p) (ltb (length p.idle + n) p.min_size && ltb p.created p.max_size)
      (λ e. record { at = λ c. ground arith }) (λ e. record { at = λ c. cc })

pub begin_warmup-Inv : {top : ℕ} (l : Lock) (s : System) → Inv top s → Inv top (begin_warmup l s)
unfolding begin_warmup
begin_warmup-Inv unlocked s h = relock-Inv (warm_next s.pool 0) s (warm_next-Room s.pool 0).at h
begin_warmup-Inv acquiring s h = h
begin_warmup-Inv growing s h = h
begin_warmup-Inv (warming n) s h = h

fresh_none : (y : String) (f : Option String) → is_none f ≡ true → in_option y f ≡ 0
fresh_none y none e = refl
fresh_none y (some x) e = cc

started_places :
    {top : ℕ} (id y : String) (s : System)
    → mem id s.seen ≡ false
    → Inv top s
    → places y s + (if y == id then 1 else 0) ≤ 1
started_places id y s h inv = elim (Bool-cases (y == id)) [
  | inl e ↦ rw ((==_iff y id).0 e) (ground (arith, ==_iff id id, inv.known id h))
  | inr e ↦ rw e (omega (arith, inv.unique y))
]

started_known :
    {top : ℕ} (id y : String) (s : System)
    → mem y (id ∷ s.seen) ≡ false
    → Inv top s
    → places y s + (if y == id then 1 else 0) ≡ 0
started_known id y s h inv = ground (arith, inv.known y)

pub docker_starts-Inv :
    {top : ℕ} (id : String) (s : System) → Inv top s → Inv top (docker_starts id s)
unfolding docker_starts
docker_starts-Inv id s h =
    if_ind_eq (Inv _) (is_creating s.lock && is_none s.fresh && not (mem id s.seen))
      (λ e.
        let nowhere : mem id s.seen ≡ false = ground arith in
        let empty : is_none s.fresh ≡ true = ground arith in
        record {
          counted = h.counted;
          room = h.room;
          fixed = h.fixed;
          capped = h.capped;
          unique = λ y. omega (arith, started_places id y s nowhere h, fresh_none y s.fresh empty);
          known = λ y n. omega (arith, started_known id y s n h, fresh_none y s.fresh empty);
        })
      (λ e. h)

pub fail_creating-Inv :
    {top : ℕ} (f : Option String) (s : System) → Inv top s → Inv top (fail_creating f s)
unfolding fail_creating
fail_creating-Inv none s h =
    if_ind (Inv _) (is_creating s.lock) (relock-Inv unlocked s (λ e. cc) h) h
fail_creating-Inv (some id) s h = h

pub end_grow-Inv :
    {top : ℕ} (l : Lock) (f : Option String) (s : System)
    → l ≡ s.lock
    → f ≡ s.fresh
    → Inv top s
    → Inv top (end_grow l f s)
unfolding end_grow
end_grow-Inv growing (some id) s l f h =
    let free : occurrences id s.in_use ≡ 0 =
      ground (arith, ==_iff id id, h.unique id, ap (in_option id) f) in
    let into = λ (y : String). occurrences-insert_id y id s.in_use free in
    record {
      counted = omega (arith, h.counted, (into id).1);
      room = λ e. cc;
      fixed = h.fixed;
      capped = omega (arith, h.room (ap is_creating (sym l)));
      unique = λ y. omega (arith, h.unique y, (into y).0, ap (in_option y) f);
      known = λ y n. omega (arith, h.known y n, (into y).0, ap (in_option y) f);
    }
end_grow-Inv growing none s l f h = h
end_grow-Inv unlocked f' s l f h = h
end_grow-Inv acquiring f' s l f h = h
end_grow-Inv (warming n) f' s l f h = h

pub end_warm-Inv :
    {top : ℕ} (l : Lock) (f : Option String) (s : System)
    → l ≡ s.lock
    → f ≡ s.fresh
    → Inv top s
    → Inv top (end_warm l f s)
unfolding end_warm add_warm
end_warm-Inv (warming n) (some id) s l f h = record {
  counted = omega (arith, h.counted, length-append s.idle (id ∷ []));
  room = (warm_next-Room _ (suc n)).at;
  fixed = h.fixed;
  capped = omega (arith, h.room (ap is_creating (sym l)));
  unique =
      λ y. omega (arith, h.unique y, occurrences-append y s.idle (id ∷ []), ap (in_option y) f);
  known =
      λ y n. omega (arith, h.known y n, occurrences-append y s.idle (id ∷ []), ap (in_option y) f);
}
end_warm-Inv (warming n) none s l f h = h
end_warm-Inv unlocked f' s l f h = h
end_warm-Inv acquiring f' s l f h = h
end_warm-Inv growing f' s l f h = h

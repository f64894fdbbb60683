-- ===== src/SandboxPool/Warmup.antt =====
-- How many containers `warmup` creates.
use citra_flows.Common.{
  ℕ, suc, ◌+◌, ◌*◌, ◌≤◌, ◌<◌, ◌≡◌, refl, String, Bool, true, false, ◌&&◌, List, [], ◌∷◌, length,
  length-append, arith, ltb, if◌then◌else◌, if_ind_eq,
}
use citra_flows.SandboxPool.{Pool, warming, unlocked, is_warming, warm_next, add_warm, warm_loop}

-- The loop stops when idle containers and created ones make up `min_size`.
record Stopped (p : Pool) (n : ℕ) (r : ℕ × Pool) : Type 0 where
  enough : p.min_size ≤ length r.1.idle + r.0
  no_more : length r.1.idle + r.0 ≤ suc p.min_size
  added : length r.1.idle + n ≡ length p.idle + r.0

warming_test : (c : Bool) (n : ℕ) → is_warming (if c then warming n else unlocked) ≡ c
warming_test true n = refl
warming_test false n = refl

warm_next_test :
    (p : Pool) (n : ℕ)
    → is_warming (warm_next p n) ≡ (ltb (length p.idle + n) p.min_size && ltb p.created p.max_size)
unfolding warm_next
warm_next_test p n = warming_test _ n

after_turn :
    (p : Pool) (n : ℕ) (id : String) (r : ℕ × Pool)
    → Stopped (add_warm id p) (suc n) r
    → Stopped p n r
unfolding add_warm
after_turn p n id r h = record {
  enough = h.enough;
  no_more = h.no_more;
  added = omega (arith, h.added, length-append p.idle (id ∷ []));
}

warm_loop-Stopped :
    (ids : List String) (n : ℕ) (p : Pool)
    → p.min_size ≤ length p.idle + n + 2 * length ids
    → length p.idle + n ≤ suc p.min_size
    → p.created + p.min_size ≤ p.max_size + length p.idle + n
    → Stopped p n (warm_loop ids n p)
unfolding warm_loop add_warm
warm_loop-Stopped [] n p supply low room = record {
  enough = omega arith;
  no_more = omega arith;
  added = refl;
}
warm_loop-Stopped (id ∷ ids) n p supply low room =
    if_ind_eq (Stopped p n) (is_warming (warm_next p n))
      (λ e.
        let test : length p.idle + n < p.min_size = ground (arith, warm_next_test p n) in
        let longer = length-append p.idle (id ∷ []) in
        after_turn p n id _
          (warm_loop-Stopped ids (suc n) (add_warm id p) (omega arith) (omega arith) (omega arith)))
      (λ e. record {
        enough = ground (arith, warm_next_test p n);
        no_more = omega arith;
        added = refl;
      })

-- When Docker starts every container asked for and `max_size` leaves room, an undisturbed warm-up
-- stops as soon as twice what it created, with what was idle before, reaches `min_size`: it creates
-- only half, rounded up, of the containers that are missing.
pub warm_loop_halves :
    (ids : List String) (p : Pool)
    → length p.idle ≤ p.min_size
    → p.min_size ≤ length ids
    → p.created + p.min_size ≤ p.max_size + length p.idle
    → let r = warm_loop ids 0 p in
      (length r.1.idle ≡ length p.idle + r.0)
      × (p.min_size ≤ length p.idle + 2 * r.0)
      × (length p.idle + 2 * r.0 ≤ suc p.min_size)
warm_loop_halves ids p below supply room =
    let h = warm_loop-Stopped ids 0 p (omega arith) (omega arith) (omega arith) in
    (omega (arith, h.added), omega (arith, h.added, h.enough), omega (arith, h.added, h.no_more))

-- ===== src/Breaker/Opens.antt =====
-- When the breaker is open, and what it lets through then.
use citra_flows.Common.{ℕ, zero, suc, ◌+◌, ◌≤◌, ◌<◌, ◌≡◌, refl, true, false, arith, leb}
use citra_flows.Breaker.{
  State, Settings, CircuitBreaker, maybe_close_or_half_open, enter, record_failure,
}

-- `n` failures in a row, at the times that `times` gives.
abbrev pub fail_times : Settings → (ℕ → ℕ) → ℕ → CircuitBreaker → CircuitBreaker
fail_times cfg times zero b = b
fail_times cfg times (suc n) b = record_failure cfg (times n) (fail_times cfg times n b)

module _ (cfg : Settings) where
  enter-waits :
      (t1 t2 : ℕ) (b : CircuitBreaker)
      → b.state ≡ State.opened
      → t1 < b.opened_at + cfg.recovery_timeout
      → enter cfg t1 t2 b ≡ (b, false)
  unfolding enter maybe_close_or_half_open
  enter-waits t1 t2 b o early = rw (o, not_yet) refl
    where
      not_yet : leb (b.opened_at + cfg.recovery_timeout) t1 ≡ false
      not_yet = ground arith

  failed-below :
      (b : CircuitBreaker) (k : ℕ)
      → b.consecutive_failures ≡ k
      → suc k < cfg.failure_threshold
      → leb cfg.failure_threshold (b.consecutive_failures + 1) ≡ false
  failed-below b k n lt = ground arith

  -- After `k` failures in a row from a breaker that is closed and has counted none.
  failing :
      (times : ℕ → ℕ) (k : ℕ) (b : CircuitBreaker)
      → b.state ≡ State.closed
      → b.consecutive_failures ≡ 0
      → k < cfg.failure_threshold
      → ((fail_times cfg times k b).state ≡ State.closed)
        × ((fail_times cfg times k b).consecutive_failures ≡ k)
  unfolding record_failure
  failing times zero b c z lt = (c, z)
  failing times (suc k) b c z lt =
      let (s, n) = failing times k b c z (omega arith) in
      let below = failed-below (fail_times cfg times k b) k n lt in
      (rw (s, below) refl, rw (s, below) (omega (arith, n)))

  trips :
      (t : ℕ) (b : CircuitBreaker)
      → b.state ≡ State.closed
      → cfg.failure_threshold ≤ b.consecutive_failures + 1
      → ((record_failure cfg t b).state ≡ State.opened) × ((record_failure cfg t b).opened_at ≡ t)
  unfolding record_failure
  trips t b c le = (rw (c, reached) refl, rw (c, reached) refl)
    where
      reached : leb cfg.failure_threshold (b.consecutive_failures + 1) ≡ true
      reached = ground arith

  -- A breaker with a positive threshold that is closed and has counted no failure opens at
  -- exactly as many failures in a row as its threshold, and then refuses, unchanged, every call
  -- that comes before the recovery time after the last failure is over.
  pub fail_times-opens :
      (times : ℕ → ℕ) (k t1 t2 : ℕ) (b : CircuitBreaker)
      → b.state ≡ State.closed
      → b.consecutive_failures ≡ 0
      → cfg.failure_threshold ≡ suc k
      → t1 < times k + cfg.recovery_timeout
      → ((j : ℕ) → j ≤ k → (fail_times cfg times j b).state ≡ State.closed)
        × ((fail_times cfg times (suc k) b).state ≡ State.opened)
        × (enter cfg t1 t2 (fail_times cfg times (suc k) b)
            ≡ (fail_times cfg times (suc k) b, false))
  fail_times-opens times k t1 t2 b c z th early =
      let (s, n) = failing times k b c z (omega arith) in
      let (o, at) = trips (times k) (fail_times cfg times k b) s (omega (arith, n)) in
      (
        λ j le. (failing times j b c z (omega arith)).0,
        o,
        enter-waits t1 t2 _ o (omega (arith, at)),
      )

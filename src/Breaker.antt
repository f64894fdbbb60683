-- ===== src/Breaker.antt =====
-- citra_service_utils/circuit_breaker.py: the circuit breaker. Under asyncio a call is two atomic
-- steps, entering and recording, with the awaited function between them, so that the steps of
-- several calls interleave; the lock is never held over an await. Times are numbers of ticks.
pub mod Counts
pub mod Opens
use citra_flows.Common.{ℕ, zero, suc, ◌+◌, Bool, true, false, List, [], ◌∷◌, leb, if◌then◌else◌}

pub data State : Type 0 where
  closed opened half_open : State

pub record Settings : Type 0 where
  pub failure_threshold : ℕ
  pub recovery_timeout : ℕ

pub record CircuitBreaker : Type 0 where
  pub state : State
  pub consecutive_failures : ℕ
  pub opened_at : ℕ

abbrev pub new_breaker : CircuitBreaker
new_breaker = record { state = State.closed; consecutive_failures = 0; opened_at = 0 }

abbrev pub is_open : State → Bool
is_open State.opened = true
is_open s = false

abbrev pub is_half_open : State → Bool
is_half_open State.half_open = true
is_half_open s = false

-- How the called function ends: it returns, it raises an expected exception, or another one,
-- which leaves the breaker as it is.
pub data Outcome : Type 0 where
  succeeded failed escaped : Outcome

-- One step of the calls that share the breaker.
pub data Event : Type 0 where
  entered : ℕ → ℕ → Event
  finished : ℕ → Outcome → Event

module _ (cfg : Settings) where
  -- `_maybe_close_or_half_open`, with the two readings of the clock.
  unfoldable pub maybe_close_or_half_open : ℕ → ℕ → CircuitBreaker → CircuitBreaker
  maybe_close_or_half_open t1 t2 b =
      if is_open b.state
      then if leb (b.opened_at + cfg.recovery_timeout) t1
        then if leb (b.opened_at + cfg.recovery_timeout) t2
          then record b { state = State.half_open }
          else b
        else b
      else b

  -- The first part of `call`: the breaker, and whether the function is called (`false` is the
  -- raised CircuitBreakerOpen).
  unfoldable pub enter : ℕ → ℕ → CircuitBreaker → CircuitBreaker × Bool
  enter t1 t2 b =
      let b1 = maybe_close_or_half_open t1 t2 b in (b1, if is_open b1.state then false else true)

  -- `_record_success`.
  unfoldable pub record_success : CircuitBreaker → CircuitBreaker
  record_success b = record b { state = State.closed; consecutive_failures = 0 }

  -- `_record_failure`, at the time `t`.
  unfoldable pub record_failure : ℕ → CircuitBreaker → CircuitBreaker
  record_failure t b =
      let b1 = record b { consecutive_failures = b.consecutive_failures + 1 } in
      if is_half_open b1.state
      then record b1 { state = State.opened; opened_at = t }
      else if leb cfg.failure_threshold b1.consecutive_failures
      then record b1 { state = State.opened; opened_at = t }
      else b1

  -- The second part of `call`.
  unfoldable pub finish : ℕ → Outcome → CircuitBreaker → CircuitBreaker
  finish t succeeded b = record_success b
  finish t failed b = record_failure t b
  finish t escaped b = b

  unfoldable pub on_event : Event → CircuitBreaker → CircuitBreaker
  on_event (entered t1 t2) b = (enter t1 t2 b).0
  on_event (finished t o) b = finish t o b

  -- The breaker after its events, the newest first.
  unfoldable pub after_events : List Event → CircuitBreaker
  after_events [] = new_breaker
  after_events (e ∷ events) = on_event e (after_events events)

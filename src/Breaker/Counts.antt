-- ===== src/Breaker/Counts.antt =====
-- The count of failures, and what a closed breaker has seen.
use citra_flows.Common.{
  ℕ, ◌+◌, ◌<◌, ◌≡◌, refl, ◌∙◌, if_ind, if_ind_eq, false, List, [], ◌∷◌, max, arith, leb,
}
use citra_flows.Breaker.{
  State, Settings, CircuitBreaker, is_open, maybe_close_or_half_open, enter, record_success,
  record_failure, succeeded, failed, escaped, finish, Event, entered, finished, on_event,
  after_events,
}

-- A closed breaker has counted fewer failures than the threshold.
record Below (cfg : Settings) (b : CircuitBreaker) : Type 0 where
  at : b.state ≡ State.closed → b.consecutive_failures < max 1 cfg.failure_threshold

module _ (cfg : Settings) where
  -- The failures recorded since the last success.
  abbrev pub recent_failures : List Event → ℕ
  recent_failures [] = 0
  recent_failures (entered t1 t2 ∷ events) = recent_failures events
  recent_failures (finished t succeeded ∷ events) = 0
  recent_failures (finished t failed ∷ events) = recent_failures events + 1
  recent_failures (finished t escaped ∷ events) = recent_failures events

  maybe-count :
      (t1 t2 : ℕ) (b : CircuitBreaker)
      → (maybe_close_or_half_open cfg t1 t2 b).consecutive_failures ≡ b.consecutive_failures
  unfolding maybe_close_or_half_open
  maybe-count t1 t2 b = ground arith

  failure-count :
      (t : ℕ) (b : CircuitBreaker)
      → (record_failure cfg t b).consecutive_failures ≡ b.consecutive_failures + 1
  unfolding record_failure
  failure-count t b = ground arith

  count :
      (events : List Event)
      → (after_events cfg events).consecutive_failures ≡ recent_failures events
  unfolding after_events on_event enter finish record_success
  count [] = refl
  count (entered t1 t2 ∷ events) = maybe-count t1 t2 _ ∙ count events
  count (finished t succeeded ∷ events) = refl
  count (finished t failed ∷ events) =
      omega (arith, failure-count t (after_events cfg events), count events)
  count (finished t escaped ∷ events) = count events

  half_open-Below : (b : CircuitBreaker) → Below cfg (record b { state = State.half_open })
  half_open-Below b = record { at = λ e. cc }

  opened-Below :
      (b : CircuitBreaker) (n t : ℕ)
      → Below cfg (record { state = State.opened; consecutive_failures = n; opened_at = t })
  opened-Below b n t = record { at = λ e. cc }

  counted-Below :
      (b : CircuitBreaker)
      → leb cfg.failure_threshold (b.consecutive_failures + 1) ≡ false
      → Below cfg (record b { consecutive_failures = b.consecutive_failures + 1 })
  counted-Below b l = record { at = λ e. ground arith }

  maybe-Below :
      (t1 t2 : ℕ) (b : CircuitBreaker)
      → Below cfg b
      → Below cfg (maybe_close_or_half_open cfg t1 t2 b)
  unfolding maybe_close_or_half_open
  maybe-Below t1 t2 b h =
      if_ind (Below cfg) (is_open b.state)
        (if_ind (Below cfg) (leb (b.opened_at + cfg.recovery_timeout) t1)
          (if_ind (Below cfg) (leb (b.opened_at + cfg.recovery_timeout) t2) (half_open-Below b) h)
          h)
        h

  failure-Below : (t : ℕ) (b : CircuitBreaker) → Below cfg (record_failure cfg t b)
  unfolding record_failure
  failure-Below t b =
      if_ind (Below cfg) _ (opened-Below b _ t)
        (if_ind_eq (Below cfg) _ (λ l. opened-Below b _ t) (counted-Below b))

  Below-all : (events : List Event) → Below cfg (after_events cfg events)
  unfolding after_events on_event enter finish record_success
  Below-all [] = record { at = λ e. omega arith }
  Below-all (entered t1 t2 ∷ events) = maybe-Below t1 t2 _ (Below-all events)
  Below-all (finished t succeeded ∷ events) = record { at = λ e. omega arith }
  Below-all (finished t failed ∷ events) = failure-Below t _
  Below-all (finished t escaped ∷ events) = Below-all events

  -- However the steps of the calls interleave: the breaker's count is the number of failures
  -- recorded since the last recorded success, and while the breaker is closed that is below the
  -- threshold, or 0 where the threshold is 0.
  pub after_events-counts :
      (events : List Event)
      → ((after_events cfg events).consecutive_failures ≡ recent_failures events)
        × ((after_events cfg events).state ≡ State.closed
            → recent_failures events < max 1 cfg.failure_threshold)
  after_events-counts events =
      (count events, λ e. omega (arith, count events, (Below-all events).at e))

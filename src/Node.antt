-- ===== src/Node.antt =====
-- citra_workflow/nodes/__init__.py: `BaseNode.run`, which runs a node with retries, and
-- `_compute_backoff_delay`. Delays are numbers of ticks.
pub mod Attempts
use citra_flows.Common.{
  ℕ, zero, suc, ◌+◌, ◌-◌, ◌*◌, ◌^◌, min, max, String, Bool, true, false, not, ◌&&◌, ◌||◌, Option,
  none, some, List, [], ◌∷◌, ◌++◌, ltb, if◌then◌else◌, ◌==◌,
}
use citra_flows.Value.{codes, ℤ, pos, negsuc, Value, Fields, null, bool, int, str, get_default}
use citra_flows.Models.{NodeExecutionStatus, NodeExecutionResult, Message}
use citra_flows.Executor.Branch.{parse_int}

-- How one call of `execute` ends: with the output, or with an exception, its text and its
-- `non_retryable` attribute.
pub data Attempt : Type 0 where
  output : Value → Attempt
  failure : Message → Bool → Attempt

pub record BaseNode : Type 0 where
  -- `category == NodeCategory.OUTPUT`
  pub is_output : Bool
  pub side_effecting : Bool
  pub retryable : Bool
  -- `execute`, by the number of the call
  pub execute : ℕ → Attempt

-- What `run` takes from its surroundings.
pub record Surroundings : Type 0 where
  -- `int(v)` of an object that is no bool, int or text, `none` where it raises
  pub int_of : Value → Option ℤ
  -- `max(0, _number_or_default(v, 5.0, float))`
  pub delay_of : Value → ℕ
  -- the spread `RETRY_JITTER_FRACTION` of a delay, and the random shift within it: down or up
  pub spread_of : ℕ → ℕ
  pub uniform : ℕ → Bool × ℕ
  pub max_delay : ℕ

-- What a call of `run` does, the newest first.
pub data Call : Type 0 where
  executed : ℕ → Call
  slept : ℕ → Call

abbrev pub or_zero : Option ℤ → ℤ
or_zero none = pos 0
or_zero (some n) = n

abbrev bool_int : Bool → ℤ
bool_int true = pos 1
bool_int false = pos 0

-- `_number_or_default(v, 0, int)`.
unfoldable pub number_or_zero : Surroundings → Value → ℤ
number_or_zero s null = pos 0
number_or_zero s (bool b) = bool_int b
number_or_zero s (int n) = n
number_or_zero s (str t) = or_zero (parse_int (codes t))
number_or_zero s v = or_zero (s.int_of v)

-- `value > 0`.
abbrev pub is_positive : ℤ → Bool
is_positive (pos (suc n)) = true
is_positive n = false

-- A node with effects is not retried, unless it says that it can be.
unfoldable pub pinned : BaseNode → ℤ → ℤ
pinned node retries =
    if (node.is_output || node.side_effecting) && not node.retryable && is_positive retries
    then pos 0
    else retries

-- The length of `range(1 + max_retries)`.
abbrev pub tries : ℤ → ℕ
tries (pos n) = n + 1
tries (negsuc n) = 0

-- `attempt < max_retries`.
abbrev pub before : ℕ → ℤ → Bool
before k (pos n) = ltb k n
before k (negsuc n) = false

abbrev shifted : ℕ → Bool × ℕ → ℕ
shifted raw (down, by) = if down then raw - by else raw + by

-- `_compute_backoff_delay`.
unfoldable pub compute_backoff_delay : Surroundings → ℕ → ℕ → Bool → ℕ
compute_backoff_delay s attempt base exponential =
    let raw = min (if exponential then base * 2 ^ attempt else base) s.max_delay in
    if ltb 0 (s.spread_of raw) && ltb 0 raw then shifted raw (s.uniform (s.spread_of raw)) else raw

abbrev last_error : List Message → Option Message
last_error [] = none
last_error (m ∷ []) = some m
last_error (m ∷ ms) = last_error ms

-- The result of a node that failed.
abbrev pub failed_result : String → ℤ → List Message → NodeExecutionResult
failed_result nid retries errors = record {
  node_id = nid;
  status = NodeExecutionStatus.failed;
  output_data = null;
  error = last_error errors;
  retry_count = retries;
  retry_errors = errors;
}

-- The result of a node that succeeded at the attempt `k`.
abbrev pub completed_result : String → ℕ → Value → List Message → NodeExecutionResult
completed_result nid k v errors = record {
  node_id = nid;
  status = NodeExecutionStatus.completed;
  output_data = v;
  error = none;
  retry_count = pos k;
  retry_errors = errors;
}

module _ (s : Surroundings) (node : BaseNode) (nid : String) (retries : ℤ) (delay : ℕ → ℕ) where
  -- One turn of the loop, which goes on by `rest`.
  unfoldable pub tried :
      ℕ
      → List Message
      → List Call
      → (List Message → List Call → NodeExecutionResult × List Call)
      → Attempt
      → NodeExecutionResult × List Call
  tried k errors calls rest (output v) = (completed_result nid k v errors, executed k ∷ calls)
  tried k errors calls rest (failure m true) =
      (failed_result nid retries (errors ++ m ∷ []), executed k ∷ calls)
  tried k errors calls rest (failure m false) =
      rest (errors ++ m ∷ [])
        (if before k retries then slept (delay k) ∷ executed k ∷ calls else executed k ∷ calls)

  -- The loop from the attempt `k`, with `left` attempts to go.
  unfoldable pub attempts : ℕ → ℕ → List Message → List Call → NodeExecutionResult × List Call
  attempts zero k errors calls = (failed_result nid retries errors, calls)
  attempts (suc left) k errors calls = tried k errors calls (attempts left (suc k)) (node.execute k)

-- `ctx.config.get("retry_backoff") or "fixed"`, compared with "exponential".
abbrev is_exponential : Value → Bool
is_exponential (str t) = t == "exponential"
is_exponential v = false

-- `BaseNode.run`.
unfoldable pub run : Surroundings → BaseNode → String → Fields → NodeExecutionResult × List Call
run s node nid config =
    let retries = pinned node (number_or_zero s (get_default "max_retries" null config)) in
    let base = s.delay_of (get_default "retry_delay_seconds" null config) in
    let exponential = is_exponential (get_default "retry_backoff" null config) in
    attempts s node nid retries (λ k. compute_backoff_delay s k base exponential) (tries retries) 0
      [] []

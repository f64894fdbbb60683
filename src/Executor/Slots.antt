-- ===== src/Executor/Slots.antt =====
-- citra_workflow/executor.py: the cap on concurrent runs (`_acquire_slot`, `_release_slot`,
-- `get_capacity`) and `execute`. The counter is a key of Redis with its time to unexpired, which the
-- source's two scripts change atomically; `up` says whether Redis answers the script.
pub mod Bounds
pub mod Expired
use citra_flows.Common.{
  ℕ, zero, suc, ◌+◌, ◌-◌, String, Bool, true, false, Option, none, some, List, [], ◌∷◌, ltb, leb,
  if◌then◌else◌,
}
use citra_flows.Value.{ℤ, pos, negsuc, Fields}
use citra_flows.Models.{WorkflowDefinition}
use citra_flows.Executor.State.{Env, Run}
use citra_flows.Executor.Start.{execute_inner, time_out}

-- `INCR` and `DECR`.
abbrev pub incr : ℤ → ℤ
incr (pos n) = pos (suc n)
incr (negsuc zero) = pos 0
incr (negsuc (suc n)) = negsuc n

abbrev pub decr : ℤ → ℤ
decr (pos zero) = negsuc 0
decr (pos (suc n)) = pos n
decr (negsuc n) = negsuc (suc n)

-- `count > tonumber(ARGV[1])`.
abbrev pub exceeds : ℤ → ℕ → Bool
exceeds (pos n) limit = ltb limit n
exceeds (negsuc n) limit = false

-- The key of the counter: its value, and when it expires (`none` without a time to unexpired).
pub record Counter : Type 0 where
  pub count : ℤ
  pub expires : Option ℕ

abbrev pub is_over : ℕ → Option ℕ → Bool
is_over now none = false
is_over now (some t) = leb t now

-- The key as Redis sees it at `now`.
abbrev pub unexpired : ℕ → Option Counter → Option Counter
unexpired now none = none
unexpired now (some c) = if is_over now c.expires then none else some c

-- `INCR` and `DECR` of a key: a missing one counts as 0, and they keep the time to unexpired.
abbrev pub incr_key : Option Counter → Counter
incr_key none = record { count = pos 1; expires = none }
incr_key (some c) = record c { count = incr c.count }

abbrev pub decr_key : Option Counter → Counter
decr_key none = record { count = negsuc 0; expires = none }
decr_key (some c) = record c { count = decr c.count }

abbrev pub is_one : ℤ → Bool
is_one (pos (suc zero)) = true
is_one n = false

-- `if count == 1 then EXPIRE`.
abbrev pub set_expiry : ℕ → Counter → Counter
set_expiry until c = if is_one c.count then record c { expires = some until } else c

abbrev pub admit : ℕ → Counter → Option Counter × Bool
admit limit c =
    if exceeds c.count limit
    then (some (record c { count = decr c.count }), false)
    else (some c, true)

-- The script of `_acquire_slot`, with `_CONCURRENCY_TTL`.
unfoldable pub acquire_script : (limit ttl now : ℕ) → Option Counter → Option Counter × Bool
acquire_script limit ttl now key =
    admit limit (set_expiry (now + ttl) (incr_key (unexpired now key)))

-- `_acquire_slot`: without Redis the run is let through.
unfoldable pub acquire_slot : Bool → (limit ttl now : ℕ) → Option Counter → Option Counter × Bool
acquire_slot true limit ttl now key = acquire_script limit ttl now key
acquire_slot false limit ttl now key = (key, true)

-- A counter below 0 is set to 0, which drops its time to unexpired, and gets a new one.
abbrev pub at_least_zero : ℕ → Counter → Counter
at_least_zero until c = elim c.count [
  | pos n ↦ c
  | negsuc n ↦ record { count = pos 0; expires = some until }
]

-- `_release_slot`: the counter does not stay below 0.
unfoldable pub release_slot : Bool → (ttl now : ℕ) → Option Counter → Option Counter
release_slot true ttl now key = some (at_least_zero (now + ttl) (decr_key (unexpired now key)))
release_slot false ttl now key = key

abbrev pub to_nat : ℤ → ℕ
to_nat (pos n) = n
to_nat (negsuc n) = 0

pub record Capacity : Type 0 where
  pub max_concurrent : ℕ
  pub running : ℕ
  pub available : ℕ

-- `get_capacity`, of the counter that is read, `none` where it is missing or Redis raises.
unfoldable pub get_capacity : ℕ → Option ℤ → Capacity
get_capacity limit none = record { max_concurrent = limit; running = 0; available = limit }
get_capacity limit (some count) = record {
  max_concurrent = limit;
  running = to_nat count;
  available = limit - to_nat count;
}

-- How a call of `execute` ends.
pub data Executed : Type 0 where
  -- ConcurrencyLimitError
  at_capacity : Executed
  executed : Run → Executed
  exhausted : Executed

abbrev pub of_run : Option Run → Executed
of_run none = exhausted
of_run (some r) = executed r

-- `_execute_inner` under its timeout: `cut` is the run at which the timeout strikes, if it does.
unfoldable pub within_time :
    Env → WorkflowDefinition → (List String → List String) → Option Fields → Option Run → Executed
within_time env wf order trigger none = of_run (execute_inner env wf order trigger)
within_time env wf order trigger (some r) = executed (time_out env r)

-- The run, and the release in the `finally` block, when it is over.
unfoldable pub run_with_slot :
    Bool → Bool → (ttl over : ℕ) → Executed → Option Counter × Bool → Option Counter × Executed
run_with_slot enforce up ttl over result (key, true) =
    (if enforce then release_slot up ttl over key else key, result)
run_with_slot enforce up ttl over result (key, false) = (key, at_capacity)

-- `execute` from `now` until it is over, with the counter around it. Between the two halves other
-- runs may change the counter by `meanwhile`.
unfoldable pub execute :
    Env
    → WorkflowDefinition
    → (List String → List String)
    → Option Fields
    → Option Run
    → (enforce up : Bool) → (limit ttl now over : ℕ) → (Option Counter → Option Counter)
    → Option Counter
    → Option Counter × Executed
execute env wf order trigger cut enforce up limit ttl now over meanwhile key =
    let (taken, admitted) = if enforce then acquire_slot up limit ttl now key else (key, true) in
    run_with_slot enforce up ttl over (within_time env wf order trigger cut)
      (if admitted then meanwhile taken else taken, admitted)

-- What changes the counter while runs go on: a run asks for a slot, or one of the running ends.
pub data SlotEvent : Type 0 where
  asks ends : ℕ → SlotEvent

-- The key of the counter and the number of runs that hold a slot.
unfoldable pub on_slot_event : (limit ttl : ℕ) → SlotEvent → Option Counter × ℕ → Option Counter × ℕ
on_slot_event limit ttl (asks now) (key, holders) =
    let (key', admitted) = acquire_slot true limit ttl now key in
    (key', if admitted then holders + 1 else holders)
on_slot_event limit ttl (ends now) (key, zero) = (key, zero)
on_slot_event limit ttl (ends now) (key, suc holders) = (release_slot true ttl now key, holders)

-- From an empty server, the newest event first.
unfoldable pub after_slot_events : (limit ttl : ℕ) → List SlotEvent → Option Counter × ℕ
after_slot_events limit ttl [] = (none, 0)
after_slot_events limit ttl (e ∷ events) =
    on_slot_event limit ttl e (after_slot_events limit ttl events)

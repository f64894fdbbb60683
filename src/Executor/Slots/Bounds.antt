-- ===== src/Executor/Slots/Bounds.antt =====
-- The cap on concurrent runs holds as long as the counter does not expire.
use citra_flows.Common.{
  ℕ, zero, suc, ◌+◌, ◌≤◌, ◌≡◌, refl, ap, sym, ◌∙◌, subst, Option, none, some, List, [], ◌∷◌, arith,
  ltb, if◌then◌else◌, inl, inr, Bool-cases, if_ind,
}
use citra_flows.Value.{ℤ, pos}
use citra_flows.Executor.Slots.{
  Counter, is_over, incr, decr, unexpired, incr_key, decr_key, set_expiry, at_least_zero, admit,
  acquire_script, acquire_slot, release_slot, get_capacity, SlotEvent, asks, ends, on_slot_event,
  after_slot_events,
}

abbrev time_of : SlotEvent → ℕ
time_of (asks now) = now
time_of (ends now) = now

abbrev Holds : ℕ → Option Counter → ℕ → Type 0
Holds now key zero = Unit
Holds now key (suc holders) = unexpired now key ≡ key

-- Whenever something changes the counter while runs hold slots, its key has not expired.
abbrev pub IsSteady : (limit ttl : ℕ) → List SlotEvent → Type 0
IsSteady limit ttl [] = Unit
IsSteady limit ttl (e ∷ events) =
    Holds (time_of e) (after_slot_events limit ttl events).0 (after_slot_events limit ttl events).1
    × IsSteady limit ttl events

abbrev pub count_of : Option Counter → ℤ
count_of none = pos 0
count_of (some c) = c.count

-- The counter counts the runs that hold a slot, at most `limit`.
record Counts (limit : ℕ) (s : Option Counter × ℕ) : Type 0 where
  count : count_of s.0 ≡ pos s.1
  room : s.1 ≤ limit

-- A key with the count `n` as the scripts find it.
unexpired-count_of :
    (now : ℕ) (key : Option Counter) (n : ℕ)
    → count_of key ≡ pos n
    → Holds now key n
    → count_of (unexpired now key) ≡ pos n
unexpired-count_of now none n e h = e
unexpired-count_of now (some c) zero e h =
    if_ind (λ (k : Option Counter). count_of k ≡ pos 0) (is_over now c.expires) {x = none}
      {y = some c} refl e
unexpired-count_of now (some c) (suc n) e h = ap count_of h ∙ e

incr_key-count :
    (key : Option Counter) (n : ℕ) → count_of key ≡ pos n → (incr_key key).count ≡ pos (suc n)
incr_key-count none n e = ap incr e
incr_key-count (some c) n e = ap incr e

decr_key-count :
    (key : Option Counter) (n : ℕ) → count_of key ≡ pos (suc n) → (decr_key key).count ≡ pos n
decr_key-count none n e = ap decr e
decr_key-count (some c) n e = ap decr e

set_expiry-count : (until : ℕ) (c : Counter) → (set_expiry until c).count ≡ c.count
set_expiry-count until c = if_ind (λ (d : Counter). d.count ≡ c.count) _ refl refl

at_least_zero-count :
    (until n : ℕ) (c : Counter) → c.count ≡ pos n → (at_least_zero until c).count ≡ pos n
at_least_zero-count until n c e = rw e refl

admit-Counts :
    (limit n : ℕ) (c : Counter)
    → n ≤ limit
    → c.count ≡ pos (suc n)
    → Counts limit ((admit limit c).0, if (admit limit c).1 then n + 1 else n)
admit-Counts limit n c le e = elim (Bool-cases (ltb limit (suc n))) [
  | inl t ↦ rw (e, t) (record { count = refl; room = le })
  | inr t ↦ rw (e, t) (record { count = ap pos (omega arith); room = ground arith })
]

asks-Counts :
    (limit ttl now n : ℕ) (key : Option Counter)
    → n ≤ limit
    → count_of (unexpired now key) ≡ pos n
    → Counts limit (on_slot_event limit ttl (asks now) (key, n))
unfolding on_slot_event acquire_slot acquire_script
asks-Counts limit ttl now n key le e = admit-Counts limit n _ le (
    set_expiry-count (now + ttl) (incr_key (unexpired now key))
    ∙ incr_key-count (unexpired now key) n e)

ends-Counts :
    (limit ttl now n : ℕ) (key : Option Counter)
    → suc n ≤ limit
    → count_of (unexpired now key) ≡ pos (suc n)
    → Counts limit (on_slot_event limit ttl (ends now) (key, suc n))
unfolding on_slot_event release_slot
ends-Counts limit ttl now n key le e = record {
  count =
      at_least_zero-count (now + ttl) n (decr_key (unexpired now key))
        (decr_key-count (unexpired now key) n e);
  room = omega arith;
}

step-Counts :
    (limit ttl : ℕ) (e : SlotEvent) (key : Option Counter) (n : ℕ)
    → Counts limit (key, n)
    → Holds (time_of e) key n
    → Counts limit (on_slot_event limit ttl e (key, n))
step-Counts limit ttl (asks now) key n h l =
    asks-Counts limit ttl now n key h.room (unexpired-count_of now key n h.count l)
step-Counts limit ttl (ends now) key zero h l = unfold on_slot_event in h
step-Counts limit ttl (ends now) key (suc n) h l =
    ends-Counts limit ttl now n key h.room (unexpired-count_of now key (suc n) h.count l)

all-Counts :
    (limit ttl : ℕ) (events : List SlotEvent)
    → IsSteady limit ttl events
    → Counts limit (after_slot_events limit ttl events)
unfolding after_slot_events
all-Counts limit ttl [] steady = record { count = refl; room = omega arith }
all-Counts limit ttl (e ∷ events) (h, steady) =
    step-Counts limit ttl e _ _ (all-Counts limit ttl events steady) h

abbrev AddsUp : ℕ → ℤ → Type 0
AddsUp limit c =
    (get_capacity limit (some c)).running + (get_capacity limit (some c)).available ≡ limit

capacity-AddsUp : (limit n : ℕ) → n ≤ limit → AddsUp limit (pos n)
unfolding get_capacity
capacity-AddsUp limit n le = omega arith

-- While Redis answers, no run dies without its release, and the key of the counter has not expired
-- when a run asks or ends while slots are held: the counter is the number of runs that hold a slot,
-- which never exceeds the limit, and the capacity that is reported adds up to the limit.
pub after_slot_events-bounded :
    (limit ttl : ℕ) (events : List SlotEvent)
    → IsSteady limit ttl events
    → let (key, holders) = after_slot_events limit ttl events in
      (count_of key ≡ pos holders)
      × (holders ≤ limit)
      × ((get_capacity limit (some (count_of key))).running
            + (get_capacity limit (some (count_of key))).available
          ≡ limit)
after_slot_events-bounded limit ttl events steady =
    let h = all-Counts limit ttl events steady in
    (h.count, h.room, subst (AddsUp limit) (sym h.count) (capacity-AddsUp limit _ h.room))

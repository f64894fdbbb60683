-- ===== src/Scheduler/Cron.antt =====
-- `normalize_timezone` and `validate_cron_schedule` of citra_workflow/scheduler.py. A text is the
-- list of its characters. Times are microseconds.
pub mod Accepted
use citra_flows.Common.{
  ℕ, zero, suc, ◌+◌, ◌-◌, ◌*◌, ◌/◌, ◌≤◌, min, String, Bool, true, false, not, ◌&&◌, Option, none,
  some, List, [], ◌∷◌, ◌++◌, map, length, ltb, leb, nat_eq, is_empty, if◌then◌else◌,
}
use citra_flows.Value.{codes, codes_eq, is_space, strip}

-- zoneinfo and APScheduler. `parse` makes the trigger of five fields in a zone, or raises;
-- `next_fire` takes the previous time and the time from which to look; `raises` is whether looking
-- fails.
pub record Calendar (T : Type 0) : Type 0 where
  pub known_zone : List ℕ → Bool
  pub parse : List (List ℕ) → List ℕ → Option T
  pub next_fire : T → Option ℕ → ℕ → Option ℕ
  pub raises : T → Bool
  pub min_interval : ℕ

pub data CronError : Type 0 where
  cron_required wrong_fields invalid_cron : CronError
  unknown_timezone : List ℕ → CronError
  too_frequent : ℕ → CronError

abbrev upper_code : ℕ → ℕ
upper_code c = if leb b'a' c && leb c b'z' then c - 32 else c

-- `s.upper()`.
unfoldable pub upper : List ℕ → List ℕ
upper s = map upper_code s

-- A timezone that is missing is an empty text.
unfoldable pub normalize_timezone : List ℕ → List ℕ
normalize_timezone name =
    let tz = strip name in
    if is_empty tz
    then codes "UTC"
    else if codes_eq (upper tz) (codes "IST")
    then codes "Asia/Kolkata"
    else tz

-- A character in front of the parts of what follows it; `inside` is whether it belongs to the first.
abbrev pub add_char : ℕ → Bool → List (List ℕ) → List (List ℕ)
add_char c true (part ∷ parts) = (c ∷ part) ∷ parts
add_char c inside parts = (c ∷ []) ∷ parts

abbrev pub starts_inside : List ℕ → Bool
starts_inside [] = false
starts_inside (c ∷ s) = not (is_space c)

-- `s.split()`.
unfoldable pub split : List ℕ → List (List ℕ)
split [] = []
split (c ∷ s) =
    let parts = split s in if is_space c then parts else add_char c (starts_inside s) parts

unfoldable pub gaps : List ℕ → List ℕ
gaps [] = []
gaps (t ∷ []) = []
gaps (t ∷ u ∷ ts) = (u - t) ∷ gaps (u ∷ ts)

-- `min(gaps)` of a list that starts with `g`.
unfoldable pub least : ℕ → List ℕ → ℕ
least g [] = g
least g (h ∷ gs) = least (min g h) gs

-- A time that was found, in front of what the next rounds find.
unfoldable pub add_fire : Option ℕ → (ℕ → List ℕ) → List ℕ
add_fire none rest = []
add_fire (some t) rest = t ∷ rest t

module _ {T : Type 0} (cal : Calendar T) where
  -- The loop that collects the next times, at most `n`.
  unfoldable pub fires_from : ℕ → T → Option ℕ → ℕ → List ℕ
  fires_from zero trigger prev ref = []
  fires_from (suc n) trigger prev ref =
      add_fire (cal.next_fire trigger prev ref) (λ t. fires_from n trigger (some t) (t + 1))

  unfoldable pub gap_errors : List ℕ → List CronError
  gap_errors [] = []
  gap_errors (g ∷ gs) =
      let min_gap = least g gs in
      if ltb min_gap (1000000 * cal.min_interval) then too_frequent (min_gap / 1000000) ∷ [] else []

  -- The frequency cap; a failure of the check lets the schedule pass.
  unfoldable pub frequency_errors : ℕ → T → List CronError
  frequency_errors now trigger =
      if cal.raises trigger then [] else gap_errors (gaps (fires_from 12 trigger none now))

  unfoldable pub trigger_errors : ℕ → Option T → List CronError
  trigger_errors now none = invalid_cron ∷ []
  trigger_errors now (some trigger) = frequency_errors now trigger

  unfoldable pub zone_errors : List ℕ → List CronError
  zone_errors tz = if cal.known_zone tz then [] else unknown_timezone tz ∷ []

  -- The zone that the trigger is made in; that of UTC is always known.
  unfoldable pub zone_used : List ℕ → List ℕ
  zone_used tz = if cal.known_zone tz then tz else codes "UTC"

  unfoldable pub validate_parts : ℕ → List (List ℕ) → List ℕ → List CronError
  validate_parts now parts tz =
      if not (nat_eq (length parts) 5)
      then wrong_fields ∷ []
      else zone_errors tz ++ trigger_errors now (cal.parse parts (zone_used tz))

  unfoldable pub validate_cron_schedule : ℕ → List ℕ → List ℕ → List CronError
  validate_cron_schedule now cron_expr timezone =
      let expr = strip cron_expr in
      if is_empty expr
      then cron_required ∷ []
      else validate_parts now (split expr) (normalize_timezone timezone)

-- ===== src/Scheduler/Cron/Accepted.antt =====
-- What a schedule without errors satisfies.
use citra_flows.Common.{
  then_of, else_of, ℕ, ◌*◌, ◌≤◌, min, true, false, not, Option, none, some, List, [], ◌∷◌, ◌++◌,
  ◌≡◌, inl, inr, ltb-false→le, refl, sym, ap, ◌∙◌, All, length, ltb, nat_eq, is_empty, arith,
  Bool-cases, if◌then◌else◌,
}
use citra_flows.Value.{codes, strip}
use citra_flows.Scheduler.Cron.{
  Calendar, normalize_timezone, split, gaps, least, fires_from, gap_errors, frequency_errors,
  trigger_errors, zone_errors, zone_used, validate_parts, validate_cron_schedule, wrong_fields,
}

append-nil : {A : Type 0} (xs ys : List A) → xs ++ ys ≡ [] → (xs ≡ []) × (ys ≡ [])
append-nil [] ys e = (refl, e)
append-nil (x ∷ xs) ys e = absurd (cc)

least-le : (g : ℕ) (gs : List ℕ) → (least g gs ≤ g) × All (λ h. least g gs ≤ h) gs
unfolding least
least-le g [] = (omega arith, tt)
least-le g (h ∷ gs) =
    let r = least-le (min g h) gs in (omega (arith, r.0), (omega (arith, r.0), r.1))

All-le : (a b : ℕ) (gs : List ℕ) → a ≤ b → All (λ h. b ≤ h) gs → All (λ h. a ≤ h) gs
All-le a b [] h t = tt
All-le a b (g ∷ gs) h t = (omega (arith, h, t.0), All-le a b gs h t.1)

module _ {T : Type 0} (cal : Calendar T) where
  gap_errors-spaced :
      (gs : List ℕ) → gap_errors cal gs ≡ [] → All (λ g. 1000000 * cal.min_interval ≤ g) gs
  unfolding gap_errors
  gap_errors-spaced [] e = tt
  gap_errors-spaced (g ∷ gs) e = elim (Bool-cases (ltb (least g gs) (1000000 * cal.min_interval))) [
    | inl t ↦ let q = then_of _ t e in absurd (cc)
    | inr f ↦
        let r = least-le g gs in
        let le = ltb-false→le (least g gs) (1000000 * cal.min_interval) f in
        (omega (arith, le, r.0), All-le (1000000 * cal.min_interval) (least g gs) gs le r.1)
  ]

  -- What the trigger of an accepted schedule is.
  abbrev pub IsAccepted : ℕ → List (List ℕ) → List ℕ → T → Type 0
  IsAccepted now parts tz trigger =
      (length parts ≡ 5)
      × (cal.known_zone tz ≡ true)
      × (cal.parse parts tz ≡ some trigger)
      × (cal.raises trigger ≡ false
          → All (λ g. 1000000 * cal.min_interval ≤ g) (gaps (fires_from cal 12 trigger none now)))

  frequency_errors-spaced :
      (now : ℕ) (trigger : T)
      → frequency_errors cal now trigger ≡ []
      → cal.raises trigger ≡ false
      → All (λ g. 1000000 * cal.min_interval ≤ g) (gaps (fires_from cal 12 trigger none now))
  unfolding frequency_errors
  frequency_errors-spaced now trigger e f =
      let fires = gaps (fires_from cal 12 trigger none now) in
      gap_errors-spaced fires (else_of _ f e)

  zone_errors-known : (tz : List ℕ) → zone_errors cal tz ≡ [] → cal.known_zone tz ≡ true
  unfolding zone_errors
  zone_errors-known tz e = elim (Bool-cases (cal.known_zone tz)) [
    | inl t ↦ t
    | inr f ↦ let q = else_of _ f e in absurd (cc)
  ]

  trigger_errors-some :
      (now : ℕ) (o : Option T)
      → trigger_errors cal now o ≡ []
      → (trigger : T) × (o ≡ some trigger) × (frequency_errors cal now trigger ≡ [])
  unfolding trigger_errors
  trigger_errors-some now none e = absurd (cc)
  trigger_errors-some now (some trigger) e = (trigger, refl, e)

  validate_parts-IsAccepted :
      (now : ℕ) (parts : List (List ℕ)) (tz : List ℕ)
      → validate_parts cal now parts tz ≡ []
      → (trigger : T) × IsAccepted now parts tz trigger
  unfolding validate_parts zone_used
  validate_parts-IsAccepted now parts tz e = elim (Bool-cases (nat_eq (length parts) 5)) [
    | inr f ↦
        let q =
          sym (
            ap
              (λ b.
                if not b
                then wrong_fields ∷ []
                else (zone_errors cal tz
                    ++ trigger_errors cal now (cal.parse parts (zone_used cal tz))))
              f)
          ∙ e in
        absurd (cc)
    | inl t ↦
        let q =
          sym (
            ap
              (λ b.
                if not b
                then wrong_fields ∷ []
                else (zone_errors cal tz
                    ++ trigger_errors cal now (cal.parse parts (zone_used cal tz))))
              t)
          ∙ e in
        let both = append-nil (zone_errors cal tz) _ q in
        let known = zone_errors-known tz both.0 in
        let found = trigger_errors-some now (cal.parse parts (zone_used cal tz)) both.1 in
        (
          found.0,
          (
            ground (arith, t),
            known,
            ap (λ b. cal.parse parts (if b then tz else codes "UTC")) (sym known) ∙ found.1,
            frequency_errors-spaced now found.0 found.2,
          ),
        )
  ]

  -- A schedule that is deployed without an error has five fields, names a zone that is known once it
  -- is normalised, and makes a trigger in that zone; unless looking for its times fails, any two
  -- neighbours among the next twelve are at least the minimal interval apart.
  pub validate_cron_schedule-IsAccepted :
      (now : ℕ) (cron_expr timezone : List ℕ)
      → validate_cron_schedule cal now cron_expr timezone ≡ []
      → (trigger : T) × IsAccepted now
          (split (strip cron_expr))
          (normalize_timezone timezone)
          trigger
  unfolding validate_cron_schedule
  validate_cron_schedule-IsAccepted now cron_expr timezone e =
      let parts = split (strip cron_expr) in
      let tz = normalize_timezone timezone in
      elim (Bool-cases (is_empty (strip cron_expr))) [
        | inl t ↦ let q = then_of _ t e in absurd (cc)
        | inr f ↦ validate_parts-IsAccepted now parts tz (else_of _ f e)
      ]

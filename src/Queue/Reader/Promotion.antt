-- ===== src/Queue/Reader/Promotion.antt =====
-- That promoting due retries loses no job.
use citra_flows.Common.{
  ℕ, zero, suc, ◌+◌, ◌≤◌, ◌≡◌, refl, String, false, List, [], ◌∷◌, ◌++◌, leb, length, if◌then◌else◌,
  ◌==◌, arith, All, if_ind_eq, occurrences, occurrences-append,
}
use citra_flows.Queue.Reader.{Retry, promote}

-- How often a blob stands in a retry set.
abbrev pub occurrences_in_retry : String → Retry → ℕ
occurrences_in_retry b [] = 0
occurrences_in_retry b ((c, at) ∷ r) = (if b == c then 1 else 0) + occurrences_in_retry b r

-- Rising times.
abbrev pub Rising : ℕ → Retry → Type 0
Rising low [] = Unit
Rising low ((b, at) ∷ r) = (low ≤ at) × Rising at r

-- No entry is due.
abbrev pub NoneDue : ℕ → Retry → Type 0
NoneDue now r = All (λ e. leb e.1 now ≡ false) r

not_due : (now low at : ℕ) → leb low now ≡ false → low ≤ at → leb at now ≡ false
not_due now low at h le = ground arith

no_room : (n : ℕ) → suc n ≤ 0 → ⊥
no_room n le = omega arith

Rising-NoneDue : (now low : ℕ) (r : Retry) → leb low now ≡ false → Rising low r → NoneDue now r
Rising-NoneDue now low [] h s = tt
Rising-NoneDue now low ((b, at) ∷ r) h s =
    let later = not_due now low at h s.0 in (later, Rising-NoneDue now at r later s.1)

record Promoted (now : ℕ) (b : String) (retry : Retry) (stream : List String) (limit : ℕ)
    (o : Retry × List String) : Type 0 where
  kept :
      occurrences_in_retry b o.0 + occurrences b o.1
      ≡ occurrences_in_retry b retry + occurrences b stream
  due : length retry ≤ limit → NoneDue now o.0

moved-Promoted :
    (now limit at : ℕ) (b c : String) (retry : Retry) (stream : List String)
    (o : Retry × List String)
    → Promoted now b retry (stream ++ c ∷ []) limit o
    → Promoted now b ((c, at) ∷ retry) stream (suc limit) o
moved-Promoted now limit at b c retry stream o h = record {
  kept = omega (arith, h.kept, occurrences-append b stream (c ∷ []));
  due = λ le. h.due (omega (arith, le));
}

promote-Promoted :
    (now limit low : ℕ) (b : String) (retry : Retry) (stream : List String)
    → Rising low retry
    → Promoted now b retry stream limit (promote now limit retry stream)
unfolding promote
promote-Promoted now zero low b [] stream h = record { kept = refl; due = λ le. tt }
promote-Promoted now zero low b (e ∷ retry) stream h = record {
  kept = refl;
  due = λ le. absurd (no_room (length retry) le);
}
promote-Promoted now (suc limit) low b [] stream h = record { kept = refl; due = λ le. tt }
promote-Promoted now (suc limit) low b ((c, at) ∷ retry) stream h =
    if_ind_eq (Promoted now b ((c, at) ∷ retry) stream (suc limit)) (leb at now)
      (λ e.
        moved-Promoted now limit at b c retry stream _
          (promote-Promoted now limit at b retry (stream ++ c ∷ []) h.1))
      (λ e. record { kept = refl; due = λ le. (e, Rising-NoneDue now at retry e h.1) })

-- Putting the due retries back loses and doubles nothing: each blob stands in the retry set and
-- the stream together as often as before. If the retry set, in order of time, has at most as many
-- entries as one call moves, no entry that is due is left in it.
pub promote-keeps :
    (now limit : ℕ) (retry : Retry) (stream : List String)
    → Rising 0 retry
    → ((b : String)
        → occurrences_in_retry b (promote now limit retry stream).0
            + occurrences b (promote now limit retry stream).1
          ≡ occurrences_in_retry b retry + occurrences b stream)
      × (length retry ≤ limit → NoneDue now (promote now limit retry stream).0)
promote-keeps now limit retry stream h = (
  λ b. (promote-Promoted now limit 0 b retry stream h).kept,
  (promote-Promoted now limit 0 "" retry stream h).due,
)

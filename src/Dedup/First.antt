-- ===== src/Dedup/First.antt =====
-- The records that are kept.

use citra_flows.Common.{
  ℕ, String, Bool, true, false, Option, none, some, List, [], ◌∷◌, ◌++◌, any, map, ◌≡◌, refl, sym,
  ap, ◌∙◌, arith, Option-cases, append_nil, if◌then◌else◌, inl, inr,
}
use citra_flows.Value.{Value}
use citra_flows.Dedup.{
  Dumps, key_for, texts_eq, index_at, Scan, place_record, scan_record, scan, deduplicated,
}

-- A signature stands among those seen.
abbrev pub seen : List String → List (List String) → Bool
seen sig sigs = any (texts_eq sig) sigs

-- What a record adds to the result, and to the signatures seen.
unfoldable pub kept : Value → Option (List String) → List (List String) → List Value
kept r none sigs = r ∷ []
kept r (some sig) sigs = if seen sig sigs then [] else r ∷ []

unfoldable pub noted : Option (List String) → List (List String) → List (List String)
noted none sigs = sigs
noted (some sig) sigs = if seen sig sigs then sigs else sig ∷ sigs

-- The records whose signature did not come before, with those that have none.
unfoldable pub firsts : Dumps → List String → List (List String) → List Value → List Value
firsts ds ks sigs [] = []
firsts ds ks sigs (r ∷ rs) =
    kept r (key_for ds ks r) sigs ++ firsts ds ks (noted (key_for ds ks r) sigs) rs

abbrev sigs_of : Scan → List (List String)
sigs_of s = map (λ e. e.0) s.index_by_key

index_at-none :
    (sig : List String) (es : List (List String × ℕ))
    → index_at sig es ≡ none
    → seen sig (map (λ e. e.0) es) ≡ false
unfolding index_at
index_at-none sig [] h = refl
index_at-none sig (e ∷ es) h = ground (arith, index_at-none sig es)

index_at-some :
    (sig : List String) (es : List (List String × ℕ)) (i : ℕ)
    → index_at sig es ≡ some i
    → seen sig (map (λ e. e.0) es) ≡ true
unfolding index_at
index_at-some sig [] i h = absurd (cc)
index_at-some sig (e ∷ es) i h = ground (arith, index_at-some sig es i)

-- A step, where the first record of a signature stays.
scan_record-kept :
    (r : Value) (o : Option (List String)) (s : Scan)
    → ((scan_record false r o s).order ≡ s.order ++ kept r o (sigs_of s))
      × (sigs_of (scan_record false r o s) ≡ noted o (sigs_of s))
unfolding scan_record place_record kept noted
scan_record-kept r none s = (refl, refl)
scan_record-kept r (some sig) s = elim (Option-cases (index_at sig s.index_by_key)) [
  | inl e ↦ (
    ap (λ o. (place_record false r sig o s).order) e
        ∙ ap (λ b. s.order ++ (if b then [] else r ∷ []))
            (sym (index_at-none sig s.index_by_key e)),
    ap (λ o. sigs_of (place_record false r sig o s)) e
        ∙ ap (λ b. if b then sigs_of s else sig ∷ sigs_of s)
            (sym (index_at-none sig s.index_by_key e)),
  )
  | inr i ↦ (
    ap (λ o. (place_record false r sig o s).order) i.1
        ∙ sym (append_nil s.order)
        ∙ ap (λ b. s.order ++ (if b then [] else r ∷ []))
            (sym (index_at-some sig s.index_by_key i.0 i.1)),
    ap (λ o. sigs_of (place_record false r sig o s)) i.1
        ∙ ap (λ b. if b then sigs_of s else sig ∷ sigs_of s)
            (sym (index_at-some sig s.index_by_key i.0 i.1)),
  )
]

append_assoc : (xs ys zs : List Value) → (xs ++ ys) ++ zs ≡ xs ++ (ys ++ zs)
append_assoc [] ys zs = refl
append_assoc (x ∷ xs) ys zs = ap (λ vs. x ∷ vs) (append_assoc xs ys zs)

scan-firsts :
    (ds : Dumps) (ks : List String) (rs : List Value) (s : Scan)
    → (scan ds ks false rs s).order ≡ s.order ++ firsts ds ks (sigs_of s) rs
unfolding scan firsts
scan-firsts ds ks [] s = sym (append_nil s.order)
scan-firsts ds ks (r ∷ rs) s =
    let o = key_for ds ks r in
    let step = scan_record-kept r o s in
    scan-firsts ds ks rs (scan_record false r o s)
    ∙ ap (λ xs. xs ++ firsts ds ks (sigs_of (scan_record false r o s)) rs) step.0
    ∙ ap (λ sigs. (s.order ++ kept r o (sigs_of s)) ++ firsts ds ks sigs rs) step.1
    ∙ append_assoc s.order (kept r o (sigs_of s)) (firsts ds ks (noted o (sigs_of s)) rs)

-- Keeping the first, the node keeps in order exactly the records whose signature no earlier record
-- has, and those without one.
pub deduplicated-firsts :
    (ds : Dumps) (ks : List String) (records : List Value)
    → deduplicated ds ks false records ≡ firsts ds ks [] records
deduplicated-firsts ds ks records =
    scan-firsts ds ks records (record { order = []; index_by_key = [] })

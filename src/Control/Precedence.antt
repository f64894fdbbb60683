-- ===== src/Control/Precedence.antt =====
-- What `get_halt` answers, against a description of which records cover a workflow.
use mathlib.Core.Option.{none-ne-some}
use mathlib.Core.Bool.{true≢false}
use citra_flows.Common.{
  ℕ, zero, suc, ◌-◌, ◌≤◌, String, Bool, true, false, ◌&&◌, ◌||◌, Option, none, some, List, [], ◌∷◌,
  ◌≡◌, ◌⊎◌, inl, inr, refl, sym, ap, subst, ◌∙◌, take, select, first, mem, is_empty, ltb, length,
  In, arith, first-passes, first-from, first-none, In-select, select-In, if◌then◌else◌, ◌==◌,
  ==_iff, Bool-cases,
}
use citra_flows.Control.{
  Halt, Cache, ttl, limit, is_enabled, has_type, is_text, or_else, halt_among, read_controls,
  active_controls, get_halt,
}

-- The record covers a workflow of the organisation and the departments.
abbrev pub covers : String → List String → Halt → Bool
covers org_id tokens c =
    has_type "global" c
    || (has_type "org" c && is_text org_id && c.scope_id == org_id)
    || (has_type "dept" c && is_text c.scope_id && mem c.scope_id tokens)

abbrev pub rank : Halt → ℕ
rank c = if has_type "global" c then 0 else if has_type "org" c then 1 else 2

-- The answer is a record that covers the workflow, of the widest scope among these, or none does.
abbrev pub IsWidest : String → List String → List Halt → Option Halt → Type 0
IsWidest org_id tokens cs none = (d : Halt) → In d cs → covers org_id tokens d ≡ false
IsWidest org_id tokens cs (some c) =
    In c cs
    × (covers org_id tokens c ≡ true)
    × ((d : Halt) → In d cs → covers org_id tokens d ≡ true → rank c ≤ rank d)

mem-depset :
    (x : String) (tokens : List String)
    → mem x (select is_text tokens) ≡ (is_text x && mem x tokens)
mem-depset x [] = ground arith
mem-depset x (t ∷ ts) = ground (arith, mem-depset x ts, ==_iff x t, ==_iff x "", ==_iff t "")

one_type : (d : Halt) → has_type "org" d ≡ true → has_type "dept" d ≡ false
one_type d e = subst (λ s. (s == "dept") ≡ false) (sym ((==_iff d.scope_type "org").0 e)) refl

or_true : (a b : Bool) → (a || b || true) ≡ true
or_true true b = refl
or_true false true = refl
or_true false false = refl

or_else-cases : (a b o : Option Halt) → or_else a b ≡ o → (a ≡ o) ⊎ ((a ≡ none) × (b ≡ o))
unfolding or_else
or_else-cases none b o e = inr (refl, e)
or_else-cases (some c) b o e = inl e

or_else-none : (a b : Option Halt) → or_else a b ≡ none → (a ≡ none) × (b ≡ none)
unfolding or_else
or_else-none none b e = (refl, e)
or_else-none (some c) b e = absurd (none-ne-some _ (sym e))

module _ (org_id : String) (tokens : List String) (cs : List Halt) where
  abbrev of_global : Option Halt
  of_global = first (λ c. true) (select (has_type "global") cs)

  abbrev in_org : Halt → Bool
  in_org c = is_text org_id && c.scope_id == org_id

  abbrev of_org : Option Halt
  of_org = first in_org (select (has_type "org") cs)

  abbrev in_dept : Halt → Bool
  in_dept c = mem c.scope_id (select is_text tokens)

  abbrev of_dept : Option Halt
  of_dept = first in_dept (select (has_type "dept") cs)

  -- What a scope without an answer rules out.
  no_global : of_global ≡ none → (d : Halt) → In d cs → has_type "global" d ≡ false
  no_global e d i = elim (Bool-cases (has_type "global" d)) [
    | inl t ↦ absurd (
        true≢false (
          first-none (λ c. true) (select (has_type "global") cs) d e
            (In-select (has_type "global") cs d i t)))
    | inr f ↦ f
  ]

  no_org : of_org ≡ none → (d : Halt) → In d cs → (has_type "org" d && in_org d) ≡ false
  no_org e d i = elim (Bool-cases (has_type "org" d)) [
    | inl t ↦
        rw t
          (first-none in_org (select (has_type "org") cs) d e (In-select (has_type "org") cs d i t))
    | inr f ↦ rw f refl
  ]

  no_dept : of_dept ≡ none → (d : Halt) → In d cs → (has_type "dept" d && in_dept d) ≡ false
  no_dept e d i = elim (Bool-cases (has_type "dept" d)) [
    | inl t ↦ rw t (
        first-none in_dept (select (has_type "dept") cs) d e (In-select (has_type "dept") cs d i t))
    | inr f ↦ rw f refl
  ]

  found_global : (c : Halt) → of_global ≡ some c → IsWidest org_id tokens cs (some c)
  found_global c e =
      let i =
        select-In (has_type "global") cs c
          (first-from (λ d. true) (select (has_type "global") cs) c e) in
      (i.0, ground (arith, i.1), λ d j t. ground (arith, i.1))

  found_org : (c : Halt) → of_global ≡ none → of_org ≡ some c → IsWidest org_id tokens cs (some c)
  found_org c g e =
      let i =
        select-In (has_type "org") cs c (first-from in_org (select (has_type "org") cs) c e) in
      let p = first-passes in_org (select (has_type "org") cs) c e in
      (i.0, ground (arith, i.1, p), λ d j t. ground (arith, i.1, no_global g d j))

  dept_covers :
      (c : Halt) → has_type "dept" c ≡ true → in_dept c ≡ true → covers org_id tokens c ≡ true
  dept_covers c t p =
      let e = sym (mem-depset c.scope_id tokens) ∙ p in rw (t, e) (or_true (has_type "global" c) _)

  found_dept :
      (c : Halt)
      → of_global ≡ none
      → of_org ≡ none
      → of_dept ≡ some c
      → IsWidest org_id tokens cs (some c)
  found_dept c g o e =
      let i =
        select-In (has_type "dept") cs c (first-from in_dept (select (has_type "dept") cs) c e) in
      let p = first-passes in_dept (select (has_type "dept") cs) c e in
      (
        i.0,
        dept_covers c i.1 p,
        λ d j t. ground (arith, i.1, no_global g d j, no_org o d j, one_type d),
      )

  found_none : of_global ≡ none → of_org ≡ none → of_dept ≡ none → IsWidest org_id tokens cs none
  found_none g o e d i =
      ground (arith, no_global g d i, no_org o d i, no_dept e d i, mem-depset d.scope_id tokens)

  pub halt_among-IsWidest :
      (o : Option Halt) → halt_among org_id tokens cs ≡ o → IsWidest org_id tokens cs o
  unfolding halt_among
  halt_among-IsWidest none e =
      let g = or_else-none of_global (or_else of_org of_dept) e in
      let r = or_else-none of_org of_dept g.1 in found_none g.0 r.0 r.1
  halt_among-IsWidest (some c) e =
      elim (or_else-cases of_global (or_else of_org of_dept) (some c) e) [
        | inl g ↦ found_global c g
        | inr r ↦ elim (or_else-cases of_org of_dept (some c) r.1) [
          | inl o ↦ found_org c r.0 o
          | inr q ↦ found_dept c r.0 q.0 q.1
        ]
      ]

  guarded :
      (if is_empty cs then none else halt_among org_id tokens cs) ≡ halt_among org_id tokens cs
  unfolding halt_among first or_else
  guarded =
      elim cs
        as (λ ds.
          (if is_empty ds then none else halt_among org_id tokens ds)
          ≡ halt_among org_id tokens ds) [ [] ↦ refl | d ∷ ds ↦ refl ]

pub take_all {ℓ} : {A : Type ℓ} (n : ℕ) (xs : List A) → length xs ≤ n → take n xs ≡ xs
take_all n [] h = refl
take_all zero (x ∷ xs) h = absurd (omega (arith, h))
take_all (suc n) (x ∷ xs) h = ap (λ ys. x ∷ ys) (take_all n xs (omega (arith, h)))

pub active_controls-stale :
    (now : ℕ) (col : List Halt) (cache : Cache)
    → ltb (now - cache.at) ttl ≡ false
    → length (select is_enabled col) ≤ limit
    → (active_controls true now col cache).0 ≡ select is_enabled col
unfolding active_controls read_controls
active_controls-stale now col cache stale few =
    rw stale (take_all limit (select is_enabled col) few)

-- When Mongo answers, the process has not read the records for 5 seconds and at most 2000 are
-- enabled, `get_halt` answers with an enabled record of the collection that covers the workflow, of
-- the widest scope among those, and with None only where no enabled record covers it.
pub get_halt-IsWidest :
    (now : ℕ) (org_id : String) (tokens : List String) (col : List Halt) (cache : Cache)
    → ltb (now - cache.at) ttl ≡ false
    → length (select is_enabled col) ≤ limit
    → IsWidest org_id tokens (select is_enabled col) (get_halt true now org_id tokens col cache).0
unfolding get_halt
get_halt-IsWidest now org_id tokens col cache stale few =
    let answer = λ (cs : List Halt). if is_empty cs then none else halt_among org_id tokens cs in
    halt_among-IsWidest org_id tokens (select is_enabled col)
      (answer (active_controls true now col cache).0)
      (sym (guarded org_id tokens (select is_enabled col))
        ∙ ap answer (sym (active_controls-stale now col cache stale few)))

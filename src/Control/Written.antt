-- ===== src/Control/Written.antt =====
-- `set_control` and what `get_halt` answers after it.
use mathlib.Core.Bool.{true≢false}
use citra_flows.Common.{
  All-In, ℕ, ◌-◌, ◌≤◌, String, Bool, true, false, not, ◌&&◌, Option, some, List, [], ◌∷◌, ◌≡◌, ◌⊎◌,
  ◌↔◌, inl, inr, refl, sym, ap, subst, ◌∙◌, select, ltb, length, In, All, arith, Bool-cases,
  select-In, if◌then◌else◌, ◌==◌, ==_iff, if_ind, if_ind_eq,
}
use citra_flows.Control.{
  Halt, Cache, ttl, limit, is_enabled, is_text, is_at, is_scope_type, scope_of, Reply,
  invalid_scope_type, scope_id_required, written, upsert, invalidate_cache, get_halt, set_control,
}
use citra_flows.Control.Precedence.{IsWidest, get_halt-IsWidest}

-- No two documents are of one scope.
abbrev pub IsKeyed : List Halt → Type 0
IsKeyed [] = Unit
IsKeyed (c ∷ cs) = All (λ d. is_at c d ≡ false) cs × IsKeyed cs

-- A scope is its two texts.
is_at_iff :
    (a b : Halt) → (is_at a b ≡ true) ↔ ((b.scope_type ≡ a.scope_type) × (b.scope_id ≡ a.scope_id))
is_at_iff a b = (
  λ h. (
    (==_iff b.scope_type a.scope_type).0 (ground arith),
    (==_iff b.scope_id a.scope_id).0 (ground arith),
  ),
  λ e. rw ((==_iff b.scope_type a.scope_type).1 e.0, (==_iff b.scope_id a.scope_id).1 e.1) refl,
)

other_scope : (doc c d : Halt) → is_at doc c ≡ true → is_at c d ≡ false → is_at doc d ≡ false
other_scope doc c d t f = elim (Bool-cases (is_at doc d)) [
  | inl u ↦
      let e = (is_at_iff doc c).0 t in
      let g = (is_at_iff doc d).0 u in
      absurd (true≢false (sym ((is_at_iff c d).1 (g.0 ∙ sym e.0, g.1 ∙ sym e.1)) ∙ f))
  | inr n ↦ n
]

is_at-sym : (a b : Halt) → is_at a b ≡ false → is_at b a ≡ false
is_at-sym a b f = elim (Bool-cases (is_at b a)) [
  | inl u ↦
      let e = (is_at_iff b a).0 u in
      absurd (true≢false (sym ((is_at_iff a b).1 (sym e.0, sym e.1)) ∙ f))
  | inr n ↦ n
]

All-at :
    (doc c : Halt) (cs : List Halt)
    → is_at doc c ≡ true
    → All (λ d. is_at c d ≡ false) cs
    → All (λ d. is_at doc d ≡ false) cs
All-at doc c [] t a = tt
All-at doc c (d ∷ ds) t a = (other_scope doc c d t a.0, All-at doc c ds t a.1)

-- A document of the collection is the one written, or is of another scope.
upsert-In :
    (doc : Halt) (col : List Halt) (d : Halt)
    → IsKeyed col
    → In d (upsert doc col)
    → (d ≡ doc) ⊎ (In d col × (is_at doc d ≡ false))
unfolding upsert
upsert-In doc [] d k (In.here e) = inl e
upsert-In doc [] d k (In.there i) = elim i [ ]
upsert-In doc (c ∷ cs) d k i = elim (Bool-cases (is_at doc c)) [
  | inl t ↦ replaced t (subst (In d) (ap (λ b. if b then doc ∷ cs else c ∷ upsert doc cs) t) i)
  | inr f ↦
      kept f (subst (In d) (ap (λ b. if b then doc ∷ cs else c ∷ upsert doc cs) f) i)
        (upsert-In doc cs d k.1)
]
  where
    replaced :
        is_at doc c ≡ true → In d (doc ∷ cs) → (d ≡ doc) ⊎ (In d (c ∷ cs) × (is_at doc d ≡ false))
    replaced t (In.here e) = inl e
    replaced t (In.there j) = inr (In.there j, other_scope doc c d t (All-In _ cs d k.0 j))

    kept :
        is_at doc c ≡ false
        → In d (c ∷ upsert doc cs)
        → (In d (upsert doc cs) → (d ≡ doc) ⊎ (In d cs × (is_at doc d ≡ false)))
        → (d ≡ doc) ⊎ (In d (c ∷ cs) × (is_at doc d ≡ false))
    kept f (In.here e) rec = inr (In.here e, ap (is_at doc) e ∙ f)
    kept f (In.there j) rec = elim (rec j) [ inl e ↦ inl e | inr r ↦ inr (In.there r.0, r.1) ]

upsert-All :
    (c doc : Halt) (cs : List Halt)
    → is_at c doc ≡ false
    → All (λ d. is_at c d ≡ false) cs
    → All (λ d. is_at c d ≡ false) (upsert doc cs)
unfolding upsert
upsert-All c doc [] n a = (n, tt)
upsert-All c doc (d ∷ ds) n a =
    if_ind (All (λ x. is_at c x ≡ false)) (is_at doc d) (n, a.1) (a.0, upsert-All c doc ds n a.1)

upsert-IsKeyed : (doc : Halt) (cs : List Halt) → IsKeyed cs → IsKeyed (upsert doc cs)
unfolding upsert
upsert-IsKeyed doc [] k = (tt, tt)
upsert-IsKeyed doc (c ∷ cs) k =
    if_ind_eq IsKeyed (is_at doc c) (λ t. (All-at doc c cs t k.0, k.1))
      (λ f. (upsert-All c doc cs (is_at-sym doc c f) k.0, upsert-IsKeyed doc cs k.1))

-- `set_control` leaves one document for each scope.
pub set_control-IsKeyed :
    (t scope_id : String) (enabled : Bool) (col : List Halt) (cache : Cache)
    → IsKeyed col
    → IsKeyed (set_control t scope_id enabled col cache).1
unfolding set_control
set_control-IsKeyed t scope_id enabled col cache k =
    let sid = scope_of t scope_id in
    let doc : Halt = record { scope_type = t; scope_id = sid; enabled = enabled } in
    let Keyed = λ (r : Reply × List Halt × Cache). IsKeyed r.1 in
    if_ind Keyed (not (is_scope_type t)) k
      (if_ind Keyed (not (t == "global") && not (is_text sid)) k (upsert-IsKeyed doc col k))

-- A reply that names a document: it was written, and the cache dropped.
set_control-written :
    (t scope_id : String) (enabled : Bool) (col : List Halt) (cache : Cache) (doc : Halt)
    → (set_control t scope_id enabled col cache).0 ≡ written doc
    → ((set_control t scope_id enabled col cache).1 ≡ upsert doc col)
      × ((set_control t scope_id enabled col cache).2.at ≡ 0)
unfolding set_control invalidate_cache
set_control-written t scope_id enabled col cache doc =
    let sid = scope_of t scope_id in
    let new : Halt = record { scope_type = t; scope_id = sid; enabled = enabled } in
    let Written = λ (r : Reply × List Halt × Cache).
      r.0 ≡ written doc → (r.1 ≡ upsert doc col) × (r.2.at ≡ 0) in
    if_ind Written (not (is_scope_type t)) (λ e. absurd (cc))
      (if_ind Written (not (t == "global") && not (is_text sid)) (λ e. absurd (cc))
        (λ e. (ap (λ d. upsert d col) (written_doc new doc e), refl)))
  where
    written_doc : (a b : Halt) → written a ≡ written b → a ≡ b
    written_doc a b e = ap (doc_of a) e
      where
        doc_of : Halt → Reply → Halt
        doc_of c invalid_scope_type = c
        doc_of c scope_id_required = c
        doc_of c (written d) = d

released :
    (org_id : String) (tokens : List String) (doc : Halt) (col : List Halt) (c : Halt)
    → IsKeyed col
    → doc.enabled ≡ false
    → IsWidest org_id tokens (select is_enabled (upsert doc col)) (some c)
    → is_at doc c ≡ false
released org_id tokens doc col c k off w =
    let i = select-In is_enabled (upsert doc col) c w.0 in
    elim (upsert-In doc col c k i.0) [
      | inl e ↦ absurd (true≢false (sym i.1 ∙ ap is_enabled e ∙ off))
      | inr r ↦ r.1
    ]

-- What the process answers after its `set_control`.
abbrev pub answer_after :
    String → String → Bool → List Halt → Cache → ℕ → String → List String → Option Halt
answer_after t scope_id enabled col cache now org_id tokens =
    let r = set_control t scope_id enabled col cache in (get_halt true now org_id tokens r.1 r.2).0

module _ (t scope_id : String) (enabled : Bool) (col : List Halt) (cache : Cache) (doc : Halt)
    (now : ℕ) (org_id : String) (tokens : List String)
    (e : (set_control t scope_id enabled col cache).0 ≡ written doc) (late : ttl ≤ now)
    (few : length (select is_enabled (set_control t scope_id enabled col cache).1) ≤ limit) where
  answer-IsWidest :
      IsWidest org_id tokens
        (select is_enabled (upsert doc col))
        (answer_after t scope_id enabled col cache now org_id tokens)
  answer-IsWidest =
      let r = set_control t scope_id enabled col cache in
      let w = set_control-written t scope_id enabled col cache doc e in
      let answer = answer_after t scope_id enabled col cache now org_id tokens in
      let stale : ltb (now - r.2.at) ttl ≡ false = ap (λ a. ltb (now - a) ttl) w.1 ∙ ground arith in
      subst (λ cs. IsWidest org_id tokens (select is_enabled cs) answer) w.0
        (get_halt-IsWidest now org_id tokens r.1 r.2 stale few)

  -- When `set_control` has written a disabled document to a collection with one document for each
  -- scope, no record of its scope halts a workflow in the process, while Mongo answers, at most 2000
  -- records are enabled and the clock is past 5 seconds.
  pub set_control-releases :
      (c : Halt)
      → IsKeyed col
      → doc.enabled ≡ false
      → answer_after t scope_id enabled col cache now org_id tokens ≡ some c
      → is_at doc c ≡ false
  set_control-releases c k off h =
      released org_id tokens doc col c k off
        (subst (IsWidest org_id tokens (select is_enabled (upsert doc col))) h answer-IsWidest)

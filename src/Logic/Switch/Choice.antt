-- ===== src/Logic/Switch/Choice.antt =====
-- Which route the loop of a switch chooses.
use citra_flows.Common.{
  ℕ, suc, ◌+◌, ◌≡◌, refl, ap, ◌∙◌, String, Bool, true, false, Option, none, some, List, [], ◌∷◌,
  map, arith, if◌then◌else◌,
}
use citra_flows.Value.{Fields, obj}
use citra_flows.Logic.{Python}
use citra_flows.Logic.Switch.{
  RouteKind, default, matching, unrelated, kind_of, Search, found, search,
}

abbrev is_matching : RouteKind → Bool
is_matching matching = true
is_matching k = false

abbrev is_default : RouteKind → Bool
is_default default = true
is_default k = false

abbrev or_else : Option ℕ → Option ℕ → Option ℕ
or_else none j = j
or_else (some i) j = some i

abbrev shift : ℕ → Option ℕ → Option ℕ
shift k none = none
shift k (some i) = some (k + i)

-- Where a test first and last holds.
abbrev first_at {ℓ} : {A : Type ℓ} → (A → Bool) → List A → Option ℕ
first_at p [] = none
first_at p (x ∷ xs) = let rest = shift 1 (first_at p xs) in if p x then some 0 else rest

abbrev last_at {ℓ} : {A : Type ℓ} → (A → Bool) → List A → Option ℕ
last_at p [] = none
last_at p (x ∷ xs) = or_else (shift 1 (last_at p xs)) (if p x then some 0 else none)

-- What a switch should choose: the first matching route, else the last default one.
abbrev pub choose : List RouteKind → Option ℕ
choose kinds = or_else (first_at is_matching kinds) (last_at is_default kinds)

shift-shift : (k : ℕ) (o : Option ℕ) → shift k (shift 1 o) ≡ shift (suc k) o
shift-shift k none = refl
shift-shift k (some i) = ap some (omega arith)

shift_zero : (o : Option ℕ) → shift 0 o ≡ o
shift_zero none = refl
shift_zero (some i) = ap some (omega arith)

or_else-none : (o : Option ℕ) → or_else o none ≡ o
or_else-none none = refl
or_else-none (some i) = refl

-- The same from the state of the loop, `k` routes on.
abbrev chosen : ℕ → Option ℕ → List RouteKind → Option ℕ
chosen k default_index kinds =
    or_else (shift k (first_at is_matching kinds))
      (or_else (shift k (last_at is_default kinds)) default_index)

later_default :
    (k : ℕ) (o d : Option ℕ)
    → or_else (shift k (or_else (shift 1 o) (some 0))) d ≡ or_else (shift (suc k) o) (some k)
later_default k none d = ap some (omega arith)
later_default k (some i) d = ap some (omega arith)

search_step :
    (kd : RouteKind) (on_default on_unrelated : Search) (k : ℕ) (d : Option ℕ)
    (kinds : List RouteKind)
    → on_default ≡ found (chosen (suc k) (some k) kinds)
    → on_unrelated ≡ found (chosen (suc k) d kinds)
    → (elim kd [ default ↦ on_default | matching ↦ found (some k) | unrelated ↦ on_unrelated ])
      ≡ found (chosen k d (kd ∷ kinds))
search_step default a b k d kinds p q =
    rw (p, shift-shift k (first_at is_matching kinds), later_default k (last_at is_default kinds) d)
      refl
search_step matching a b k d kinds p q = ap (λ i. found (some i)) (omega arith)
search_step unrelated a b k d kinds p q =
    rw
      (
        q,
        or_else-none (shift 1 (last_at is_default kinds)),
        shift-shift k (first_at is_matching kinds),
        shift-shift k (last_at is_default kinds),
      )
      refl

search_lem :
    (py : Python) (text : String) (fs : List Fields) (k : ℕ) (d : Option ℕ)
    → search py text (map obj fs) k d ≡ found (chosen k d (map (kind_of py text) fs))
unfolding search
search_lem py text [] k d = refl
search_lem py text (f ∷ fs) k d =
    search_step (kind_of py text f) _ _ k d (map (kind_of py text) fs)
      (search_lem py text fs (suc k) (some k)) (search_lem py text fs (suc k) d)

pub search-choose :
    (py : Python) (text : String) (fs : List Fields)
    → search py text (map obj fs) 0 none ≡ found (choose (map (kind_of py text) fs))
search-choose py text fs =
    let kinds = map (kind_of py text) fs in
    search_lem py text fs 0 none
    ∙ rw
        (
          shift_zero (first_at is_matching kinds),
          shift_zero (last_at is_default kinds),
          or_else-none (last_at is_default kinds),
        )
        refl

-- ===== src/Common/Lists.antt =====
-- Lists measured by native numbers, membership of texts as a Boolean test and as a family.
use Prim.Native.Nat.{ℕ, zero, suc, ◌+◌, ◌-◌, ◌≤◌, min}
use Prim.Native.String.{String}
use mathlib.Core.Path.{◌≡◌, refl, ap, ◌∙◌}
use mathlib.Core.Logic.{◌⊎◌, inl, inr}
use mathlib.Core.Bool.{Bool, true, false, ◌||◌, ◌&&◌}
use mathlib.Core.List.{List, [], ◌∷◌, ◌++◌, map}
use native.Mathlib.Omega.{arith}
use citra_flows.Common.Tests.{◌==◌, ==_iff, if◌then◌else◌}

-- Membership as a family that proofs match on.
pub data In {ℓ} {A : Type ℓ} (x : A) : List A → Type ℓ where
  here : {y : A} {ys : List A} → x ≡ y → In x (y ∷ ys)
  there : {y : A} {ys : List A} → In x ys → In x (y ∷ ys)

module _ {ℓ} {A : Type ℓ} where
  abbrev pub length : List A → ℕ
  length [] = 0
  length (x ∷ xs) = suc (length xs)

  pub length-append : (xs ys : List A) → length (xs ++ ys) ≡ length xs + length ys
  length-append [] ys = omega arith
  length-append (x ∷ xs) ys = omega (arith, length-append xs ys)

  pub append_nil : (xs : List A) → xs ++ [] ≡ xs
  append_nil [] = refl
  append_nil (x ∷ xs) = ap (λ ys. x ∷ ys) (append_nil xs)

  pub append_snoc : (xs : List A) (y : A) (ys : List A) → (xs ++ y ∷ []) ++ ys ≡ xs ++ y ∷ ys
  append_snoc [] y ys = refl
  append_snoc (x ∷ xs) y ys = ap (λ zs. x ∷ zs) (append_snoc xs y ys)

  abbrev pub is_empty : List A → Bool
  is_empty [] = true
  is_empty (x ∷ xs) = false

  -- The library's `all` and `any` do not run.
  abbrev pub all : (A → Bool) → List A → Bool
  all p [] = true
  all p (x ∷ xs) = p x && all p xs

  abbrev pub any : (A → Bool) → List A → Bool
  any p [] = false
  any p (x ∷ xs) = p x || any p xs

  abbrev pub select : (A → Bool) → List A → List A
  select p [] = []
  select p (x ∷ xs) = let rest = select p xs in elim (p x) [ true ↦ x ∷ rest | false ↦ rest ]

  abbrev pub take : ℕ → List A → List A
  take n [] = []
  take zero (x ∷ xs) = []
  take (suc n) (x ∷ xs) = x ∷ take n xs

  abbrev pub drop : ℕ → List A → List A
  drop n [] = []
  drop zero (x ∷ xs) = x ∷ xs
  drop (suc n) (x ∷ xs) = drop n xs

  abbrev pub concat : List (List A) → List A
  concat [] = []
  concat (xs ∷ xss) = xs ++ concat xss

  pub take-drop : (n : ℕ) (xs : List A) → take n xs ++ drop n xs ≡ xs
  take-drop n [] = refl
  take-drop zero (x ∷ xs) = refl
  take-drop (suc n) (x ∷ xs) = ap (λ ys. x ∷ ys) (take-drop n xs)

  pub drop-drop : (i n : ℕ) (xs : List A) → drop n (drop i xs) ≡ drop (i + n) xs
  drop-drop i n [] = refl
  drop-drop zero n (x ∷ xs) = ap (λ k. drop k (x ∷ xs)) {x = n} (omega arith)
  drop-drop (suc i) n (x ∷ xs) =
      drop-drop i n xs ∙ ap (λ k. drop k (x ∷ xs)) {x = suc (i + n)} (omega arith)

  pub length-drop : (n : ℕ) (xs : List A) → length (drop n xs) ≡ length xs - n
  length-drop n [] = omega arith
  length-drop zero (x ∷ xs) = omega arith
  length-drop (suc n) (x ∷ xs) = omega (arith, length-drop n xs)

  pub length-take : (n : ℕ) (xs : List A) → length (take n xs) ≡ min n (length xs)
  length-take n [] = omega arith
  length-take zero (x ∷ xs) = omega arith
  length-take (suc n) (x ∷ xs) = omega (arith, length-take n xs)

  pub drop_all : (n : ℕ) (xs : List A) → length xs ≤ n → drop n xs ≡ []
  drop_all n [] h = refl
  drop_all zero (x ∷ xs) h = ground arith
  drop_all (suc n) (x ∷ xs) h = drop_all n xs (omega arith)

  abbrev pub All {κ} : (A → Type κ) → List A → Type κ
  All P [] = Unit
  All P (x ∷ xs) = P x × All P xs

pub length-map {ℓ κ} :
    {A : Type ℓ} {B : Type κ} (f : A → B) (xs : List A) → length (map f xs) ≡ length xs
length-map f [] = refl
length-map f (x ∷ xs) = ap suc (length-map f xs)

-- `x in xs` on texts.
abbrev pub mem : String → List String → Bool
mem x [] = false
mem x (y ∷ ys) = x == y || mem x ys

-- No text stands twice.
abbrev pub Distinct : List String → Type 0
Distinct [] = Unit
Distinct (x ∷ xs) = (mem x xs ≡ false) × Distinct xs

pub mem-append : (x : String) (xs ys : List String) → mem x (xs ++ ys) ≡ (mem x xs || mem x ys)
mem-append x [] ys = refl
mem-append x (y ∷ xs) ys = ground (arith, mem-append x xs ys)

pub mem_self : (x : String) (xs : List String) → mem x (x ∷ xs) ≡ true
mem_self x xs = ground (arith, ==_iff x x)

pub mem-cons_of_mem : (x y : String) (xs : List String) → mem x xs ≡ true → mem x (y ∷ xs) ≡ true
mem-cons_of_mem x y xs h = ground arith

pub mem-cons_cases :
    (x y : String) (xs : List String) → mem x (y ∷ xs) ≡ true → (x ≡ y) ⊎ (mem x xs ≡ true)
mem-cons_cases x y xs h = ground (arith, ==_iff x y)

pub Distinct-snoc :
    (x : String) (xs : List String) → mem x xs ≡ false → Distinct xs → Distinct (xs ++ x ∷ [])
Distinct-snoc x [] h d = (refl, tt)
Distinct-snoc x (y ∷ xs) h d = (
  ground (arith, mem-append y xs (x ∷ []), ==_iff x y, ==_iff y x),
  Distinct-snoc x xs (ground arith) d.1,
)

-- The Boolean `all` as a statement about members.
pub all-mem :
    (p : String → Bool) (x : String) (xs : List String)
    → all p xs ≡ true
    → mem x xs ≡ true
    → p x ≡ true
all-mem p x [] h m = cc
all-mem p x (y ∷ xs) h m = elim (mem-cons_cases x y xs m) [
  | inl e ↦ rw e (ground arith)
  | inr m' ↦ all-mem p x xs (ground arith) m'
]

pub all_mono :
    (p q : String → Bool)
    → ((x : String) → p x ≡ true → q x ≡ true)
    → (xs : List String) → all p xs ≡ true
    → all q xs ≡ true
all_mono p q h [] a = refl
all_mono p q h (x ∷ xs) a = ground (arith, h x, all_mono p q h xs)

-- How often a text stands in a list.
abbrev pub occurrences : String → List String → ℕ
occurrences b [] = 0
occurrences b (c ∷ cs) = (if b == c then 1 else 0) + occurrences b cs

pub occurrences-append :
    (b : String) (xs ys : List String)
    → occurrences b (xs ++ ys) ≡ occurrences b xs + occurrences b ys
occurrences-append b [] ys = omega arith
occurrences-append b (x ∷ xs) ys = omega (arith, occurrences-append b xs ys)

pub mem-occurrences : (b : String) (xs : List String) → mem b xs ≡ true → 1 ≤ occurrences b xs
mem-occurrences b [] h = cc
mem-occurrences b (x ∷ xs) h = ground (arith, ==_iff b x, mem-occurrences b xs)

pub not_mem-occurrences : (b : String) (xs : List String) → mem b xs ≡ false → occurrences b xs ≡ 0
not_mem-occurrences b [] h = refl
not_mem-occurrences b (x ∷ xs) h = ground (arith, ==_iff b x, not_mem-occurrences b xs)

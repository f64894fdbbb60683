-- ===== src/Common/Find.antt =====
-- The first element of a list that passes a test.
use mathlib.Core.Path.{◌≡◌, refl, ap, sym, subst, ◌∙◌}
use mathlib.Core.Logic.{◌⊎◌, inl, inr}
use mathlib.Core.Bool.{Bool, true, false}
use mathlib.Core.Option.{Option, none, some, some-injective, none-ne-some}
use mathlib.Core.List.{List, [], ◌∷◌, map}
use citra_flows.Common.Lists.{In, All, select}
use citra_flows.Common.Tests.{then_of, else_of, if◌then◌else◌, Bool-cases}

module _ {ℓ} {A : Type ℓ} where
  unfoldable pub first : (A → Bool) → List A → Option A
  first p [] = none
  first p (x ∷ xs) = if p x then some x else first p xs

  pub first-passes : (p : A → Bool) (xs : List A) (x : A) → first p xs ≡ some x → p x ≡ true
  unfolding first
  first-passes p [] x h = cc
  first-passes p (y ∷ xs) x h = elim (Bool-cases (p y)) [
    | inl e ↦ subst (λ z. p z ≡ true) (some-injective _ _ (then_of _ e h)) e
    | inr e ↦ first-passes p xs x (else_of _ e h)
  ]

  pub first-from : (p : A → Bool) (xs : List A) (x : A) → first p xs ≡ some x → In x xs
  unfolding first
  first-from p [] x h = absurd (cc)
  first-from p (y ∷ xs) x h = elim (Bool-cases (p y)) [
    | inl e ↦ In.here (some-injective _ _ (sym h ∙ ap (λ b. if b then some y else first p xs) e))
    | inr e ↦ In.there (first-from p xs x (else_of _ e h))
  ]

  pub first-none : (p : A → Bool) (xs : List A) (x : A) → first p xs ≡ none → In x xs → p x ≡ false
  unfolding first
  first-none p [] x h i = elim i [ ]
  first-none p (y ∷ xs) x h (In.here e) = elim (Bool-cases (p y)) [
    | inl t ↦ absurd (none-ne-some _ (sym h ∙ ap (λ b. if b then some y else first p xs) t))
    | inr f ↦ rw e f
  ]
  first-none p (y ∷ xs) x h (In.there i) = elim (Bool-cases (p y)) [
    | inl t ↦ absurd (none-ne-some _ (sym h ∙ ap (λ b. if b then some y else first p xs) t))
    | inr f ↦ first-none p xs x (else_of _ f h) i
  ]

  pub In-select : (p : A → Bool) (xs : List A) (x : A) → In x xs → p x ≡ true → In x (select p xs)
  In-select p [] x i t = i
  In-select p (y ∷ xs) x (In.here e) t =
      subst (λ b. In x (elim b [ true ↦ y ∷ select p xs | false ↦ select p xs ])) (sym t ∙ ap p e)
        (In.here e)
  In-select p (y ∷ xs) x (In.there j) t =
      let rest = In-select p xs x j t in
      elim (p y) as (λ b. In x (elim b [ true ↦ y ∷ select p xs | false ↦ select p xs ])) [
        | true ↦ In.there rest
        | false ↦ rest
      ]

  split :
      (b : Bool) (x y : A) (s : List A)
      → In x (elim b [ true ↦ y ∷ s | false ↦ s ])
      → ((x ≡ y) × (b ≡ true)) ⊎ In x s
  split true x y s (In.here e) = inl (e, refl)
  split true x y s (In.there j) = inr j
  split false x y s i = inr i

  pub select-In : (p : A → Bool) (xs : List A) (x : A) → In x (select p xs) → In x xs × (p x ≡ true)
  select-In p [] x i = elim i [ ]
  select-In p (y ∷ xs) x i = elim (split (p y) x y (select p xs) i) [
    | inl e ↦ (In.here e.0, ap p e.0 ∙ e.1)
    | inr j ↦ let r = select-In p xs x j in (In.there r.0, r.1)
  ]

  pub All-In {κ} : (P : A → Type κ) (xs : List A) (x : A) → All P xs → In x xs → P x
  All-In P [] x a i = elim i [ ]
  All-In P (y ∷ xs) x a (In.here e) = subst P (sym e) a.0
  All-In P (y ∷ xs) x a (In.there j) = All-In P xs x a.1 j

  pub All-map {κ} :
      (P Q : A → Type κ) (f : A → A) (xs : List A)
      → ((x : A) → P x → Q (f x))
      → All P xs
      → All Q (map f xs)
  All-map P Q f [] h a = tt
  All-map P Q f (x ∷ xs) h a = (h x a.0, All-map P Q f xs h a.1)

  pub All-both {κ} :
      (P Q R : A → Type κ) (xs : List A)
      → ((x : A) → P x → Q x → R x)
      → All P xs
      → All Q xs
      → All R xs
  All-both P Q R [] h a b = tt
  All-both P Q R (x ∷ xs) h a b = (h x a.0 b.0, All-both P Q R xs h a.1 b.1)

-- ===== src/Logic/Loop/Batches.antt =====
-- The batches of a loop are its items, cut.
use citra_flows.Common.{
  ℕ, zero, suc, ◌+◌, ◌*◌, ◌≤◌, ◌<◌, ◌≡◌, refl, ap, sym, ◌∙◌, List, [], ◌∷◌, ◌++◌, All, concat, take,
  drop, take-drop, drop-drop, length-drop, length-take, drop_all, length, ltb, ltb→lt, ltb-false→le,
  arith, if_ind_eq,
}
use citra_flows.Logic.Loop.{batches_from, make_batches}

module _ {ℓ} {A : Type ℓ} where
  drop_zero : (xs : List A) → drop 0 xs ≡ xs
  drop_zero [] = refl
  drop_zero (x ∷ xs) = refl

  -- The items from `i` on, in batches that are full but for the last.
  record Cut (size i : ℕ) (items : List A) (out : List (List A)) : Type ℓ where
    joined : concat out ≡ drop i items
    sized : All (λ b. (1 ≤ length b) × (length b ≤ size)) out
    enough : length items ≤ i + length out * size
    tight : length out * size + i < length items + size

  nil-Cut :
      (size i : ℕ) (items : List A)
      → length items ≤ i
      → i < length items + size
      → Cut size i items []
  nil-Cut size i items h low = record {
    joined = sym (drop_all i items h);
    sized = tt;
    enough = omega arith;
    tight = omega arith;
  }

  cons-Cut :
      (size i : ℕ) (items : List A) (rest : List (List A))
      → 1 ≤ size
      → i < length items
      → Cut size (i + size) items rest
      → Cut size i items (take size (drop i items) ∷ rest)
  cons-Cut size i items rest s h cut = record {
    joined =
        ap (λ ys. take size (drop i items) ++ ys) (cut.joined ∙ sym (drop-drop i size items))
        ∙ take-drop size (drop i items);
    sized = (
      (
        omega (arith, length-take size (drop i items), length-drop i items),
        omega (arith, length-take size (drop i items)),
      ),
      cut.sized,
    );
    enough = omega (arith, cut.enough);
    tight = omega (arith, cut.tight);
  }

  batches_from-Cut :
      (fuel size i : ℕ) (items : List A)
      → 1 ≤ size
      → i < length items + size
      → length items ≤ i + fuel
      → Cut size i items (batches_from fuel size i items)
  unfolding batches_from
  batches_from-Cut zero size i items s low h = nil-Cut size i items (omega arith) low
  batches_from-Cut (suc fuel) size i items s low h =
      if_ind_eq (Cut size i items) (ltb i (length items))
        (λ e.
          let inside = ltb→lt i (length items) e in
          cons-Cut size i items _ s inside
            (batches_from-Cut fuel size (i + size) items s (omega arith) (omega arith)))
        (λ e. nil-Cut size i items (ltb-false→le i (length items) e) low)

  -- The batches of a batch size of at least 1, put together, are the items in their order. Each
  -- has at least one item and at most the batch size of them, and there are as many batches as the
  -- number of items divided by the batch size, rounded up.
  pub make_batches-cuts :
      (size : ℕ) (items : List A)
      → 1 ≤ size
      → let out = make_batches size items in
        (concat out ≡ items)
        × All (λ b. (1 ≤ length b) × (length b ≤ size)) out
        × (length items ≤ length out * size)
        × (length out * size < length items + size)
  unfolding make_batches
  make_batches-cuts size items s =
      let cut = batches_from-Cut (length items) size 0 items s (omega arith) (omega arith) in
      (cut.joined ∙ drop_zero items, cut.sized, omega (arith, cut.enough), omega (arith, cut.tight))

-- ===== src/SandboxPool/Counts.antt =====
-- How often a container stands in the lists of the pool.
use citra_flows.Common.{
  ◌+◌, ◌≡◌, refl, String, true, List, [], ◌∷◌, mem, length, occurrences, mem-occurrences, arith,
  if◌then◌else◌, ◌==◌, ==_iff,
}
use citra_flows.SandboxPool.{without, insert_id}

pub occurrences-without :
    (y x : String) (xs : List String)
    → mem x xs ≡ true
    → occurrences y (without x xs) + (if y == x then 1 else 0) ≡ occurrences y xs
unfolding without
occurrences-without y x [] h = cc
occurrences-without y x (z ∷ zs) h =
    ground (arith, ==_iff y x, ==_iff x z, ==_iff y z, occurrences-without y x zs)

pub length-without :
    (x : String) (xs : List String) → mem x xs ≡ true → length (without x xs) + 1 ≡ length xs
unfolding without
length-without x [] h = cc
length-without x (z ∷ zs) h = ground (arith, ==_iff x z, length-without x zs)

pub occurrences-insert_id :
    (y x : String) (xs : List String)
    → occurrences x xs ≡ 0
    → (occurrences y (insert_id x xs) ≡ occurrences y xs + (if y == x then 1 else 0))
      × (length (insert_id x xs) ≡ length xs + 1)
occurrences-insert_id y x xs h = ground (arith, mem-occurrences x xs)

-- A container that stands nowhere is not taken out.
pub without-absent : (x : String) (xs : List String) → occurrences x xs ≡ 0 → without x xs ≡ xs
unfolding without
without-absent x [] h = refl
without-absent x (z ∷ zs) h = ground (arith, ==_iff x z, without-absent x zs)

-- ===== src/Value/Laws.antt =====
-- Laws of the dict operations and of `strip`.
use citra_flows.Common.{
  ℕ, suc, ◌≤◌, List, [], ◌∷◌, length, if_ind, String, ◌≡◌, ap, none, some, arith, if◌then◌else◌,
  ◌==◌, ==_iff,
}
use citra_flows.Value.{
  Value, Fields, end, field, get, get_default, put, is_space, strip_left, strip_right, keep_before,
  strip,
}

pub get-put :
    (j k : String) (v : Value) (d : Fields)
    → get j (put k v d) ≡ (if j == k then some v else get j d)
unfolding get put
get-put j k v end = ground (arith, ==_iff j k)
get-put j k v (field i w d) =
    let rec = get-put j k v d in ground (arith, ==_iff j i, ==_iff k i, ==_iff j k, rec)

-- A value that is there is not replaced by the default.
pub get_default-some :
    (k : String) (v w : Value) (d : Fields) → get k d ≡ some w → get_default k v d ≡ w
unfolding get_default
get_default-some k v w d h = ap (λ o. elim o [ none ↦ v | some u ↦ u ]) h

length-strip_left : (s : List ℕ) → length (strip_left s) ≤ length s
length-strip_left [] = omega arith
length-strip_left (c ∷ s) =
    if_ind (λ t. length t ≤ suc (length s)) (is_space c) (omega (arith, length-strip_left s))
      (omega arith)

length-keep_before : (c : ℕ) (s : List ℕ) → length (keep_before c s) ≤ suc (length s)
length-keep_before c [] = if_ind (λ t. length t ≤ 1) (is_space c) (omega arith) (omega arith)
length-keep_before c (d ∷ s) = omega arith

length-strip_right : (s : List ℕ) → length (strip_right s) ≤ length s
length-strip_right [] = omega arith
length-strip_right (c ∷ s) =
    omega (arith, length-keep_before c (strip_right s), length-strip_right s)

pub length-strip : (s : List ℕ) → length (strip s) ≤ length s
unfolding strip
length-strip s = omega (arith, length-strip_left (strip_right s), length-strip_right s)

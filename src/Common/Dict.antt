-- ===== src/Common/Dict.antt =====
-- A dict with text keys as an association list, in order of insertion.
use Prim.Native.String.{String}
use mathlib.Core.Path.{◌≡◌, refl}
use mathlib.Core.Option.{Option, none, some}
use mathlib.Core.List.{List, [], ◌∷◌}
use native.Mathlib.Omega.{arith}
use mathlib.Core.Logic.{◌⊎◌, inr}
use mathlib.Core.Bool.{true}
use Prim.Native.Nat.{◌+◌, ◌≤◌}
use citra_flows.Common.Lists.{length, mem}
use citra_flows.Common.Tests.{◌==◌, ==_iff, if◌then◌else◌}

module _ {ℓ} {V : Type ℓ} where
  -- `m.get(k)`, with `none` for a missing key.
  unfoldable pub lookup : String → List (String × V) → Option V
  lookup k [] = none
  lookup k (entry ∷ rest) = if k == entry.0 then some entry.1 else lookup k rest

  -- `m[k] = v`: a key that is there keeps its place.
  unfoldable pub insert : String → V → List (String × V) → List (String × V)
  insert k v [] = (k, v) ∷ []
  insert k v (entry ∷ rest) = if k == entry.0 then (k, v) ∷ rest else entry ∷ insert k v rest

  abbrev pub keys : List (String × V) → List String
  keys [] = []
  keys ((k, v) ∷ m) = k ∷ keys m

  pub lookup-insert :
      (j k : String) (v : V) (m : List (String × V))
      → lookup j (insert k v m) ≡ (if j == k then some v else lookup j m)
  unfolding lookup insert
  lookup-insert j k v [] = refl
  lookup-insert j k v (entry ∷ rest) =
      let rec = lookup-insert j k v rest in
      ground (arith, ==_iff j entry.0, ==_iff k entry.0, ==_iff j k, rec)

  pub keys-insert-le :
      (k : String) (v : V) (m : List (String × V)) → length (insert k v m) ≤ length m + 1
  unfolding insert
  keys-insert-le k v [] = omega arith
  keys-insert-le k v (entry ∷ m) = ground (arith, keys-insert-le k v m)

  pub length-keys : (m : List (String × V)) → length (keys m) ≡ length m
  length-keys [] = refl
  length-keys ((k, v) ∷ m) = omega (arith, length-keys m)

  pub lookup-mem :
      (k : String) (m : List (String × V)) → (mem k (keys m) ≡ true) ⊎ (lookup k m ≡ none)
  unfolding lookup
  lookup-mem k [] = inr refl
  lookup-mem k ((j, v) ∷ m) = ground (arith, ==_iff k j, ==_iff j k, lookup-mem k m)

-- ===== src/Logic/Condition/Envelope.antt =====
-- A bare field name stands for the field of the first item.
use citra_flows.Common.{String, ◌≡◌, refl, sym, none, some, List, ◌∷◌, ap, ◌∙◌}
use citra_flows.Value.{Items, Fields, null, bool, int, str, arr, obj, other, nil, cons, get}
use citra_flows.Value.Laws.{get_default-some}
use citra_flows.Executor.Branch.{parse_digits}
use citra_flows.Logic.{
  or_follow, follow, in_variables, in_first_item, first_of, first_item, item_at, index_of,
}
use citra_flows.Logic.Condition.{resolve}

item_zero :
    (vs : Items) (parts : List String) → follow (arr vs) ("0" ∷ parts) ≡ follow (item_at 0 vs) parts
unfolding follow index_of item_at parse_digits
item_zero vs parts = refl

-- The first item, followed, whatever it is.
first_followed :
    (xs : Items) (top : String) (rest : List String)
    → or_follow null follow (first_of (some (arr xs))) (top ∷ rest)
      ≡ follow (item_at 0 xs) (top ∷ rest)
unfolding first_of follow item_at
first_followed nil top rest = refl
first_followed (cons null xs) top rest = refl
first_followed (cons (bool b) xs) top rest = refl
first_followed (cons (int n) xs) top rest = refl
first_followed (cons (str s) xs) top rest = refl
first_followed (cons (arr ys) xs) top rest = refl
first_followed (cons (obj d) xs) top rest = refl
first_followed (cons (other b) xs) top rest = refl

no_variable :
    (vars : Fields) (top : String) (rest : List String)
    → get top vars ≡ none
    → in_variables follow vars null (top ∷ rest) ≡ null
unfolding in_variables
no_variable vars top rest free = rw free refl

first_taken :
    (d : Fields) (xs : Items) (top : String) (rest : List String)
    → get "items" d ≡ some (arr xs)
    → in_first_item (obj d) null (top ∷ rest) ≡ follow (item_at 0 xs) (top ∷ rest)
unfolding in_first_item first_item
first_taken d xs top rest items = rw items (first_followed xs top rest)

behind_items :
    (d : Fields) (xs : Items) (parts : List String)
    → get "items" d ≡ some (arr xs)
    → follow (obj d) ("items" ∷ parts) ≡ follow (arr xs) parts
unfolding follow
behind_items d xs parts items =
    ap (λ v. follow v parts) (get_default-some "items" null (arr xs) d items)

-- In an envelope whose "items" are a list, a path that neither leads to a value in the envelope nor
-- begins with the name of a variable is resolved as the same path behind "items.0".
pub resolve-envelope :
    (d vars : Fields) (xs : Items) (top : String) (rest : List String)
    → get "items" d ≡ some (arr xs)
    → follow (obj d) (top ∷ rest) ≡ null
    → get top vars ≡ none
    → resolve (obj d) vars (top ∷ rest) ≡ follow (obj d) ("items" ∷ "0" ∷ top ∷ rest)
unfolding resolve
resolve-envelope d vars xs top rest items missing free = rw missing (
    rw (no_variable vars top rest free) (
      first_taken d xs top rest items
      ∙ sym (behind_items d xs ("0" ∷ top ∷ rest) items ∙ item_zero xs (top ∷ rest))))

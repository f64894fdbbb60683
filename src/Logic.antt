-- ===== src/Logic.antt =====
-- citra_workflow/nodes/logic.py: the nodes that steer a workflow, and what they share. A path such
-- as "evaluations.0.passed" is followed through dicts and lists; texts are ASCII, so that
-- `isdigit` holds of the digits alone.
pub mod Condition
pub mod Switch
pub mod Loop
pub mod Merge
pub mod SetVariable
use Prim.Native.Char.{Char, code}
use citra_flows.Common.{
  ℕ, zero, suc, ◌≡◌, refl, ap, String, Bool, true, false, ◌&&◌, Option, none, some, List, [], ◌∷◌,
  all, is_empty, leb, nat_eq, not, if◌then◌else◌,
}
use citra_flows.Value.{
  ℤ, pos, negsuc, Value, Items, Fields, null, bool, int, str, arr, obj, other, nil, cons, end,
  field, get, get_default, is_null, codes, items_of,
}
use citra_flows.Executor.Branch.{is_digit, parse_digits, parse_int}

-- Why a node raises.
pub data Fault : Type 0 where
  missing_key : String → Fault
  -- a field path or a list that is longer than allowed, by its length
  too_deep too_long : ℕ → Fault
  -- a value that the operation does not take
  wrong_type : Value → Fault
  -- an OverflowError
  overflow : Fault

pub data Outcome : Type 0 where
  done : Value → Outcome
  raised : Fault → Outcome

-- Python's own conversions, where the model does not write them out.
pub record Python : Type 0 where
  -- `str(v)` of what is no text, bool or None
  pub repr : Value → String
  -- `float(a) > float(b)`, false where a conversion raises a TypeError or a ValueError, and `none`
  -- where one raises an OverflowError
  pub above : Value → Value → Option Bool
  -- `int(v)` of an object that is no bool, int or text, `none` where it raises
  pub int_of : Value → Option ℤ
  -- the elements of a value that is no list, `none` where it cannot be iterated
  pub iterate : Value → Option (List Value)
  -- `json.loads(s)`, `none` where it raises
  pub loads : String → Option Value

-- `str(v)`.
unfoldable pub text_of : Python → Value → String
text_of py null = "None"
text_of py (bool true) = "True"
text_of py (bool false) = "False"
text_of py (str s) = s
text_of py v = py.repr v

-- `int(v)`.
unfoldable pub int_value : Python → Value → Option ℤ
int_value py null = none
int_value py (bool true) = some (pos 1)
int_value py (bool false) = some (pos 0)
int_value py (int n) = some n
int_value py (str s) = parse_int (codes s)
int_value py v = py.int_of v

-- A character in front of the first part.
abbrev pub onto_first : Char → List String → List String
onto_first c [] = String.◌∷◌ c "" ∷ []
onto_first c (p ∷ ps) = String.◌∷◌ c p ∷ ps

-- `s.split(".")`.
unfoldable pub split_dots : String → List String
split_dots String.[] = "" ∷ []
split_dots (String.◌∷◌ c s) =
    let rest = split_dots s in if nat_eq (code c) b'.' then "" ∷ rest else onto_first c rest

-- The items of a list as a list of the model.
abbrev pub list_of : Items → List Value
list_of nil = []
list_of (cons v vs) = v ∷ list_of vs

pub list_of-items_of : (vs : List Value) → list_of (items_of vs) ≡ vs
list_of-items_of [] = refl
list_of-items_of (v ∷ vs) = ap (λ us. v ∷ us) (list_of-items_of vs)

-- `xs[i] if i < len(xs) else None`.
unfoldable pub item_at : ℕ → Items → Value
item_at i nil = null
item_at zero (cons v vs) = v
item_at (suc i) (cons v vs) = item_at i vs

-- `int(part)` if `part.isdigit()`.
unfoldable pub index_of : String → Option ℕ
index_of part = if all is_digit (codes part) then parse_digits false 0 (codes part) else none

abbrev item_or_null : Option ℕ → Items → Value
item_or_null none vs = null
item_or_null (some i) vs = item_at i vs

-- A value at the path of parts; None where the path leaves the value.
unfoldable pub follow : Value → List String → Value
follow v [] = v
follow (obj d) (part ∷ parts) = follow (get_default part null d) parts
follow (arr vs) (part ∷ parts) = follow (item_or_null (index_of part) vs) parts
follow v (part ∷ parts) = null

-- `first_item`: the first of a list of items, if it is a dict or a list.
unfoldable pub first_of : Option Value → Option Value
first_of (some (arr (cons (obj d) vs))) = some (obj d)
first_of (some (arr (cons (arr us) vs))) = some (arr us)
first_of v = none

unfoldable pub first_item : Value → Option Value
first_item (obj d) = first_of (get "items" d)
first_item v = none

-- A step of the search that `v` did not end.
abbrev pub or_follow : Value → (Value → List String → Value) → Option Value → List String → Value
or_follow v walk none parts = v
or_follow v walk (some w) parts = walk w parts

-- Fallback 1: the variables, where `walk` follows the rest of the path.
unfoldable pub in_variables : (Value → List String → Value) → Fields → Value → List String → Value
in_variables walk vars v [] = v
in_variables walk vars v (top ∷ rest) =
    if is_null v then or_follow v walk (get top vars) rest else v

-- Fallback 2: the first item of the envelope.
unfoldable pub in_first_item : Value → Value → List String → Value
in_first_item input v parts = if is_null v then or_follow v follow (first_item input) parts else v

abbrev items_in : Option Value → Items
items_in (some (arr vs)) = vs
items_in v = nil

-- `ctx.items` of a node with the input.
unfoldable pub ctx_items : Value → Items
ctx_items (arr vs) = vs
ctx_items (obj d) = items_in (get "items" d)
ctx_items v = nil

-- `_make_output`.
abbrev pub make_output : Items → Fields → Value
make_output items meta = obj (field "items" (arr items) (field "meta" (obj meta) end))

-- ===== src/Value.antt =====
-- The dynamic values that nodes exchange (Python's None, bool, int, str, list and dict), with the
-- operations of dict, str and int that the engine calls on them. Text is ASCII here: `strip`,
-- `lower` and `int` treat other characters as they treat letters.
pub mod Laws
use Prim.Native.Char.{code}
use citra_flows.Common.{
  ℕ, zero, suc, ◌+◌, ◌-◌, ◌*◌, String, Bool, true, false, not, ◌&&◌, ◌||◌, Option, none, some, List,
  [], ◌∷◌, map, leb, nat_eq, if◌then◌else◌, ◌==◌,
}

-- `negsuc n` is -(n + 1).
pub data ℤ : Type 0 where
  pos : ℕ → ℤ
  negsuc : ℕ → ℤ

mutual
  -- `other` is an object of another class (a float, a date), known by its truth value.
  pub data Value : Type 0 where
    null : Value
    bool : Bool → Value
    int : ℤ → Value
    str : String → Value
    arr : Items → Value
    obj : Fields → Value
    other : Bool → Value

  pub data Items : Type 0 where
    nil : Items
    cons : Value → Items → Items

  -- A dict, its keys in order of insertion.
  pub data Fields : Type 0 where
    end : Fields
    field : String → Value → Fields → Fields

abbrev pub items_of : List Value → Items
items_of [] = nil
items_of (v ∷ vs) = cons v (items_of vs)

-- `d.get(k)`, with `none` where the key is missing.
unfoldable pub get : String → Fields → Option Value
get k end = none
get k (field j v d) = elim (k == j) [ true ↦ some v | false ↦ get k d ]

-- `d.get(k, v)`.
unfoldable pub get_default : String → Value → Fields → Value
unfolding get
get_default k v d = elim (get k d) [ none ↦ v | some w ↦ w ]

-- `d[k] = v`: a key that is there keeps its place.
unfoldable pub put : String → Value → Fields → Fields
put k v end = field k v end
put k v (field j w d) = elim (k == j) [ true ↦ field j v d | false ↦ field j w (put k v d) ]

-- `d.update(e)`.
unfoldable pub update : Fields → Fields → Fields
unfolding put
update d end = d
update d (field k v e) = update (put k v d) e

abbrev pub nonempty : Fields → Bool
nonempty end = false
nonempty (field k v d) = true

-- `bool(v)`.
unfoldable pub truthy : Value → Bool
truthy null = false
truthy (bool b) = b
truthy (int (pos zero)) = false
truthy (int n) = true
truthy (str s) = not (s == "")
truthy (arr nil) = false
truthy (arr (cons v vs)) = true
truthy (obj d) = nonempty d
truthy (other b) = b

abbrev pub is_null : Value → Bool
is_null null = true
is_null v = false

-- `v == s` for a text `s`.
abbrev pub is_str : Value → String → Bool
is_str (str t) s = t == s
is_str v s = false

abbrev int_eq : ℤ → ℤ → Bool
int_eq (pos a) (pos b) = nat_eq a b
int_eq (negsuc a) (negsuc b) = nat_eq a b
int_eq a b = false

-- `v == n` for an integer `n`: True is 1 and False is 0.
unfoldable pub is_int : Value → ℤ → Bool
is_int (int m) n = int_eq m n
is_int (bool true) n = int_eq (pos 1) n
is_int (bool false) n = int_eq (pos 0) n
is_int v n = false

-- Texts by their characters.
abbrev pub codes : String → List ℕ
codes String.[] = []
codes (String.◌∷◌ c s) = code c ∷ codes s

abbrev pub codes_eq : List ℕ → List ℕ → Bool
codes_eq [] [] = true
codes_eq (a ∷ s) (b ∷ t) = nat_eq a b && codes_eq s t
codes_eq s t = false

abbrev pub is_space : ℕ → Bool
is_space c = nat_eq c 32 || (leb 9 c && leb c 13) || (leb 28 c && leb c 31)

abbrev pub strip_left : List ℕ → List ℕ
strip_left [] = []
strip_left (c ∷ s) = let rest = strip_left s in if is_space c then rest else c ∷ s

-- Spaces at the end go, those before another character stay.
abbrev pub keep_before : ℕ → List ℕ → List ℕ
keep_before c [] = if is_space c then [] else c ∷ []
keep_before c (d ∷ t) = c ∷ d ∷ t

abbrev pub strip_right : List ℕ → List ℕ
strip_right [] = []
strip_right (c ∷ s) = keep_before c (strip_right s)

-- `s.strip()`.
unfoldable pub strip : List ℕ → List ℕ
strip s = strip_left (strip_right s)

abbrev lower_code : ℕ → ℕ
lower_code c = if leb b'A' c && leb c b'Z' then c + 32 else c

-- `s.lower()`.
unfoldable pub lower : List ℕ → List ℕ
lower s = map lower_code s

-- ===== src/Dedup.antt =====
-- `DeduplicatorNode.execute` of citra_workflow/nodes/processors.py.
pub mod First
pub mod Collides
use Prim.Native.Char.{Char, code}
use citra_flows.Common.{
  ℕ, zero, suc, ◌-◌, String, Bool, true, false, not, ◌&&◌, Option, none, some, List, [], ◌∷◌, ◌++◌,
  map, select, length, is_empty, nat_eq, if◌then◌else◌, ◌==◌,
}
use citra_flows.Value.{
  Value, Items, Fields, null, bool, int, str, arr, obj, get, get_default, truthy, codes, codes_eq,
  is_space, lower, items_of, ℤ, pos, end, field,
}
use citra_flows.Executor.State.{NodeContext}
use citra_flows.Logic.{
  Fault, missing_key, Outcome, done, raised, Python, text_of, onto_first, list_of, ctx_items,
  make_output,
}

-- Python's conversions, with `json.dumps(v, sort_keys=True, default=str)`.
pub record Dumps : Type 0 where
  pub python : Python
  pub dumps : Value → String

-- `s.split(",")`.
unfoldable pub split_commas : String → List String
split_commas String.[] = "" ∷ []
split_commas (String.◌∷◌ c s) =
    let rest = split_commas s in if nat_eq (code c) b',' then "" ∷ rest else onto_first c rest

abbrev trim_left : String → String
trim_left String.[] = ""
trim_left (String.◌∷◌ c s) =
    let rest = trim_left s in if is_space (code c) then rest else String.◌∷◌ c s

abbrev before : Char → String → String
before c String.[] = if is_space (code c) then "" else String.◌∷◌ c ""
before c (String.◌∷◌ d s) = String.◌∷◌ c (String.◌∷◌ d s)

abbrev trim_right : String → String
trim_right String.[] = ""
trim_right (String.◌∷◌ c s) = before c (trim_right s)

-- `s.strip()` of a text.
unfoldable pub trim : String → String
trim s = trim_left (trim_right s)

abbrev is_text : String → Bool
is_text s = not (s == "")

-- The names of the key fields, in a list or in a text between commas.
unfoldable pub keys_of : Python → Value → List String
keys_of py (arr vs) = select is_text (map (λ v. trim (text_of py v)) (list_of vs))
keys_of py v = select is_text (map trim (split_commas (text_of py v)))

-- The texts of the key fields that the record has, in the order of the keys.
unfoldable pub present : Dumps → List String → Fields → List String
present ds [] d = []
present ds (k ∷ ks) d =
    let rest = present ds ks d in elim (get k d) [ none ↦ rest | some v ↦ ds.dumps v ∷ rest ]

abbrev some_texts : List String → Option (List String)
some_texts [] = none
some_texts (t ∷ ts) = some (t ∷ ts)

-- `_key_for`.
unfoldable pub key_for : Dumps → List String → Value → Option (List String)
key_for ds ks (obj d) = some_texts (present ds ks d)
key_for ds ks v = none

abbrev pub texts_eq : List String → List String → Bool
texts_eq [] [] = true
texts_eq (a ∷ s) (b ∷ t) = a == b && texts_eq s t
texts_eq s t = false

-- `index_by_key`.
unfoldable pub index_at : List String → List (List String × ℕ) → Option ℕ
index_at sig [] = none
index_at sig (e ∷ es) = if texts_eq sig e.0 then some e.1 else index_at sig es

-- `order[i] = rec`.
unfoldable pub set_at : ℕ → Value → List Value → List Value
set_at i v [] = []
set_at zero v (x ∷ xs) = v ∷ xs
set_at (suc i) v (x ∷ xs) = x ∷ set_at i v xs

pub record Scan : Type 0 where
  pub order : List Value
  pub index_by_key : List (List String × ℕ)

abbrev pub append_record : Value → Scan → Scan
append_record r s = record s { order = s.order ++ r ∷ [] }

-- A record with a signature, by where the signature was seen first.
unfoldable pub place_record : Bool → Value → List String → Option ℕ → Scan → Scan
place_record keep_last r sig none s = record {
  order = s.order ++ r ∷ [];
  index_by_key = (sig, length s.order) ∷ s.index_by_key;
}
place_record true r sig (some i) s = record s { order = set_at i r s.order }
place_record false r sig (some i) s = s

unfoldable pub scan_record : Bool → Value → Option (List String) → Scan → Scan
scan_record keep_last r none s = append_record r s
scan_record keep_last r (some sig) s = place_record keep_last r sig (index_at sig s.index_by_key) s

unfoldable pub scan : Dumps → List String → Bool → List Value → Scan → Scan
scan ds ks keep_last [] s = s
scan ds ks keep_last (r ∷ rs) s =
    scan ds ks keep_last rs (scan_record keep_last r (key_for ds ks r) s)

abbrev pub deduplicated : Dumps → List String → Bool → List Value → List Value
deduplicated ds ks keep_last records =
    (scan ds ks keep_last records (record { order = []; index_by_key = [] })).order

-- `(config.get("keep") or "first").lower() == "last"`, of a text.
unfoldable pub keeps_last : Fields → Bool
keeps_last config = elim (get_default "keep" null config) [
  | str s ↦ codes_eq (lower (codes s)) (codes "last")
  | v ↦ false
]

abbrev with_counts : List Value → List Value → Value
with_counts records order = make_output (items_of order) (
    field "count" (int (pos (length order)))
      (field "removed" (int (pos (length records - length order))) end))

unfoldable pub deduplicate : Dumps → NodeContext → Option Value → Outcome
deduplicate ds ctx none = raised (missing_key "key_fields")
deduplicate ds ctx (some raw_keys) =
    let records = list_of (ctx_items ctx.input_data) in
    let ks = keys_of ds.python raw_keys in
    done (with_counts records (deduplicated ds ks (keeps_last ctx.config) records))

unfoldable pub execute : Dumps → NodeContext → Outcome
execute ds ctx = deduplicate ds ctx (get "key_fields" ctx.config)

-- ===== src/Logic/SetVariable.antt =====
-- `SetVariableNode.execute` of citra_workflow/nodes/logic.py, with `interpolate_variables` of
-- citra_workflow/nodes/__init__.py.
pub mod Agrees
use Prim.Native.Char.{Char, code}
use Prim.Native.String.{◌++◌ as ◌⁀◌}
use citra_flows.Common.{
  ℕ, zero, suc, String, Bool, true, false, not, ◌&&◌, ◌||◌, Option, none, some, List, [], ◌∷◌,
  length, leb, nat_eq, if◌then◌else◌, ◌==◌,
}
use citra_flows.Value.{
  Value, Fields, null, bool, int, str, arr, obj, other, nil, cons, end, field, get, get_default,
  put, truthy, nonempty, is_space, codes,
}
use citra_flows.Executor.Branch.{is_digit}
use citra_flows.Executor.State.{NodeContext}
use citra_flows.Logic.{
  Fault, wrong_type, Outcome, done, raised, Python, text_of, list_of, ctx_items, make_output,
}

-- `\w` on ASCII.
abbrev pub is_word : ℕ → Bool
is_word c = is_digit c || (leb b'A' c && leb c b'Z') || (leb b'a' c && leb c b'z') || nat_eq c b'_'

-- The longest prefix of word characters, and the rest.
unfoldable pub split_word : String → String × String
split_word String.[] = ("", "")
split_word (String.◌∷◌ c s) =
    let rest = split_word s in
    if is_word (code c) then (String.◌∷◌ c rest.0, rest.1) else ("", String.◌∷◌ c s)

-- The text behind two characters of this code.
unfoldable pub behind_two : ℕ → String → Option String
behind_two k (String.◌∷◌ c (String.◌∷◌ d s)) =
    if nat_eq (code c) k && nat_eq (code d) k then some s else none
behind_two k s = none

abbrev named : String → Option String → Option (String × String)
named name none = none
named name (some rest) = if name == "" then none else some (name, rest)

abbrev name_and_rest : Option String → Option (String × String)
name_and_rest none = none
name_and_rest (some s) = let w = split_word s in named w.0 (behind_two b'}' w.1)

-- A match of the pattern `\{\{(\w+)\}\}` at the start: the name and the rest. A longer `\w+` is
-- no match, as a brace is no word character.
unfoldable pub placeholder : String → Option (String × String)
placeholder s = name_and_rest (behind_two b'{' s)

-- `_replacer`: a name without a variable stays.
abbrev pub replacement : Python → Fields → String → Option Value → String
replacement py vars name none = "{{" ⁀ name ⁀ "}}"
replacement py vars name (some v) = text_of py v

-- `_VAR_PATTERN.sub`, on fuel; every turn takes a character at least, so that the length of the text
-- is enough.
unfoldable pub substitute : ℕ → Python → Fields → String → String
substitute zero py vars s = s
substitute (suc fuel) py vars String.[] = ""
substitute (suc fuel) py vars (String.◌∷◌ c s) = elim (placeholder (String.◌∷◌ c s)) [
  | none ↦ String.◌∷◌ c (substitute fuel py vars s)
  | some match ↦ replacement py vars match.0 (get match.0 vars) ⁀ substitute fuel py vars match.1
]

unfoldable pub interpolate_variables : Python → String → Fields → String
interpolate_variables py text vars =
    if nonempty vars then substitute (length (codes text)) py vars text else text

-- `s.strip()`, on texts.
unfoldable pub strip_start : String → String
strip_start String.[] = ""
strip_start (String.◌∷◌ c s) =
    let rest = strip_start s in if is_space (code c) then rest else String.◌∷◌ c s

abbrev pub keep_char : Char → String → String
keep_char c String.[] = if is_space (code c) then "" else String.◌∷◌ c ""
keep_char c (String.◌∷◌ d s) = String.◌∷◌ c (String.◌∷◌ d s)

unfoldable pub strip_end : String → String
strip_end String.[] = ""
strip_end (String.◌∷◌ c s) = keep_char c (strip_end s)

-- `ctx.variables` and `updated`, or the exception.
pub data Progress : Type 0 where
  set : Fields → Fields → Progress
  stopped : Fields → Fault → Progress

abbrev pub resolved : Python → Value → Fields → Value
resolved py (str s) vars = str (interpolate_variables py s vars)
resolved py v vars = v

unfoldable pub assign : Python → String → Value → Fields → Fields → Fields × Fields
assign py name raw vars updated =
    if name == ""
    then (vars, updated)
    else (put name (resolved py raw vars) vars, put name (resolved py raw vars) updated)

-- `entry.get("name", "").strip()`, for a text.
unfoldable pub name_of : Value → Option String
name_of (str s) = some (strip_start (strip_end s))
name_of v = none

-- The loop over the entries.
unfoldable pub assign_all : Python → List Value → Fields → Fields → Progress
assign_all py [] vars updated = set vars updated
assign_all py (obj entry ∷ entries) vars updated =
    elim (name_of (get_default "name" (str "") entry)) [
      | none ↦ stopped vars (wrong_type (get_default "name" (str "") entry))
      | some name ↦
          let next = assign py name (get_default "value" (str "") entry) vars updated in
          assign_all py entries next.0 next.1
    ]
assign_all py (v ∷ entries) vars updated = stopped vars (wrong_type v)

abbrev pub variables_output : NodeContext → Fields → Value
variables_output ctx updated = make_output (ctx_items ctx.input_data) (
    field "variables_set" (obj updated)
      (field "variables" (obj updated) (field "data" ctx.input_data end)))

unfoldable pub conclude : NodeContext → Progress → Fields × Outcome
conclude ctx (set vars updated) = (vars, done (variables_output ctx updated))
conclude ctx (stopped vars f) = (vars, raised f)

abbrev pub entries_of : Python → Value → Option (List Value)
entries_of py (arr vs) = some (list_of vs)
entries_of py v = py.iterate v

unfoldable pub with_entries : Python → NodeContext → Value → Option (List Value) → Fields × Outcome
with_entries py ctx given none = (ctx.variables, raised (wrong_type given))
with_entries py ctx given (some entries) = conclude ctx (assign_all py entries ctx.variables end)

-- The variables that the node leaves, and how it ends.
unfoldable pub execute : Python → NodeContext → Fields × Outcome
execute py ctx =
    let given = get_default "assignments" (arr nil) ctx.config in
    if truthy given
    then with_entries py ctx given (entries_of py given)
    else (ctx.variables, done (variables_output ctx end))

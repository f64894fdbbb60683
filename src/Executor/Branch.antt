-- ===== src/Executor/Branch.antt =====
-- citra_workflow/executor.py: which branch of a condition an edge is on, and which route of a
-- switch its handle names.
use citra_flows.Common.{
  ℕ, ◌+◌, ◌-◌, ◌*◌, String, Bool, true, false, ◌&&◌, Option, none, some, List, [], ◌∷◌, leb, nat_eq,
  if◌then◌else◌, any, is_empty, ◌==◌,
}
use citra_flows.Value.{ℤ, pos, negsuc, codes, codes_eq, strip, lower}
use citra_flows.Models.{EdgeDefinition}

pub data Branch : Type 0 where
  true_branch false_branch : Branch

-- The text of a branch, "true" or "false".
abbrev pub branch_text : Branch → String
branch_text true_branch = "true"
branch_text false_branch = "false"

abbrev true_branch_tokens : List String
true_branch_tokens =
    "true" ∷ "yes" ∷ "y" ∷ "pass" ∷ "passed" ∷ "met" ∷ "ok" ∷ "success" ∷ "1" ∷ "t" ∷ "then" ∷ []

abbrev false_branch_tokens : List String
false_branch_tokens =
    "false" ∷ "no" ∷ "n" ∷ "fail" ∷ "failed" ∷ "not met" ∷ "notmet" ∷ "not_met" ∷ "reject"
    ∷ "rejected" ∷ "0" ∷ "f" ∷ "else" ∷ []

abbrev pub is_token : List ℕ → List String → Bool
is_token t tokens = any (λ s. codes_eq t (codes s)) tokens

-- `_normalize_branch_token` after the text is stripped and lowered.
unfoldable pub branch_of_token : List ℕ → Option Branch
branch_of_token t =
    if is_empty t
    then none
    else if codes_eq t (codes "true")
    then some true_branch
    else if codes_eq t (codes "false")
    then some false_branch
    else if is_token t true_branch_tokens
    then some true_branch
    else if is_token t false_branch_tokens
    then some false_branch
    else none

-- `_normalize_branch_token`.
unfoldable pub normalize_branch_token : Option String → Option Branch
normalize_branch_token none = none
normalize_branch_token (some s) = branch_of_token (lower (strip (codes s)))

abbrev or_else : Option Branch → Option Branch → Option Branch
or_else none b = b
or_else (some a) b = some a

-- `_edge_condition_branch`: the handle first, then the label.
unfoldable pub edge_condition_branch : EdgeDefinition → Option Branch
edge_condition_branch e =
    or_else (normalize_branch_token e.source_handle) (normalize_branch_token e.label)

abbrev pub is_digit : ℕ → Bool
is_digit c = leb b'0' c && leb c b'9'

-- Digits, with single underscores between them; `ready` after a digit.
unfoldable pub parse_digits : Bool → ℕ → List ℕ → Option ℕ
parse_digits ready n [] = if ready then some n else none
parse_digits ready n (c ∷ s) = elim (is_digit c) [
  | true ↦ parse_digits true (n * 10 + (c - 48)) s
  | false ↦ elim (ready && nat_eq c b'_') [ true ↦ parse_digits false n s | false ↦ none ]
]

abbrev negated : Option ℕ → Option ℤ
negated none = none
negated (some n) = some (if nat_eq n 0 then pos 0 else negsuc (n - 1))

abbrev positive : Option ℕ → Option ℤ
positive none = none
positive (some n) = some (pos n)

unfoldable pub parse_signed : List ℕ → Option ℤ
parse_signed [] = none
parse_signed (c ∷ s) =
    if nat_eq c b'-'
    then negated (parse_digits false 0 s)
    else if nat_eq c b'+'
    then positive (parse_digits false 0 s)
    else positive (parse_digits false 0 (c ∷ s))

-- `int(s)`, with `none` for the ValueError.
unfoldable pub parse_int : List ℕ → Option ℤ
parse_int s = parse_signed (strip s)

abbrev is_out_dash : ℕ → ℕ → ℕ → ℕ → Bool
is_out_dash a b c d = nat_eq a b'o' && nat_eq b b'u' && nat_eq c b't' && nat_eq d b'-'

-- `h.replace("out-", "")`.
unfoldable pub remove_out_dash : List ℕ → List ℕ
remove_out_dash (a ∷ b ∷ c ∷ d ∷ s) = elim (is_out_dash a b c d) [
  | true ↦ remove_out_dash s
  | false ↦ a ∷ remove_out_dash (b ∷ c ∷ d ∷ s)
]
remove_out_dash s = s

-- `e.source_handle or "out-0"`.
abbrev handle_or_default : Option String → String
handle_or_default none = "out-0"
handle_or_default (some h) = if h == "" then "out-0" else h

-- The number of the switch output that an edge leaves by, if its handle has one.
unfoldable pub edge_route : EdgeDefinition → Option ℤ
edge_route e = parse_int (remove_out_dash (codes (handle_or_default e.source_handle)))

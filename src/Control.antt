-- ===== src/Control.antt =====
-- citra_workflow/workflow_control.py, the records that halt workflows. Times are seconds. Mongo is the
-- list of documents of workflow_control, and the dict `_cache` belongs to a process.
pub mod Precedence
pub mod Written
use citra_flows.Common.{
  ℕ, ◌-◌, String, Bool, true, false, not, ◌&&◌, ◌||◌, Option, none, some, List, [], ◌∷◌, take,
  select, first, mem, is_empty, ltb, if◌then◌else◌, ◌==◌,
}

-- A document, without the texts that only describe it.
pub record Halt : Type 0 where
  pub scope_type : String
  pub scope_id : String
  pub enabled : Bool

pub record Cache : Type 0 where
  pub at : ℕ
  pub controls : List Halt

-- `_CACHE_TTL_SECONDS`, and the most documents that a query returns.
abbrev pub ttl : ℕ
ttl = 5

abbrev pub limit : ℕ
limit = 2000

abbrev pub is_enabled : Halt → Bool
is_enabled c = c.enabled

abbrev pub has_type : String → Halt → Bool
has_type t c = c.scope_type == t

unfoldable pub invalidate_cache : Cache → Cache
invalidate_cache cache = record cache { at = 0 }

-- The query, which Mongo answers or not; a failure lets every run go on.
unfoldable pub read_controls : Bool → ℕ → List Halt → Cache → List Halt × Cache
read_controls false now col cache = ([], cache)
read_controls true now col cache =
    let docs = take limit (select is_enabled col) in (docs, record { at = now; controls = docs })

-- `_active_controls`.
unfoldable pub active_controls : Bool → ℕ → List Halt → Cache → List Halt × Cache
active_controls works now col cache =
    if ltb (now - cache.at) ttl then (cache.controls, cache) else read_controls works now col cache

abbrev pub is_text : String → Bool
is_text s = not (s == "")

unfoldable pub or_else : Option Halt → Option Halt → Option Halt
or_else none later = later
or_else (some c) later = some c

-- Global records go before those of the organisation, and these before those of a department.
unfoldable pub halt_among : String → List String → List Halt → Option Halt
halt_among org_id dept_tokens controls =
    let depset = select is_text dept_tokens in
    or_else (first (λ c. true) (select (has_type "global") controls)) (
      or_else
        (first (λ c. is_text org_id && c.scope_id == org_id) (select (has_type "org") controls))
        (first (λ c. mem c.scope_id depset) (select (has_type "dept") controls)))

-- `get_halt`; an organisation that is None is an empty text.
unfoldable pub get_halt : Bool → ℕ → String → List String → List Halt → Cache → Option Halt × Cache
get_halt works now org_id dept_tokens col cache =
    let read = active_controls works now col cache in
    ((if is_empty read.0 then none else halt_among org_id dept_tokens read.0), read.1)

-- `set_control` writes a document, or raises for one of two reasons.
pub data Reply : Type 0 where
  invalid_scope_type scope_id_required : Reply
  written : Halt → Reply

abbrev pub is_at : Halt → Halt → Bool
is_at key c = c.scope_type == key.scope_type && c.scope_id == key.scope_id

-- `update_one` with `upsert`.
unfoldable pub upsert : Halt → List Halt → List Halt
upsert doc [] = doc ∷ []
upsert doc (c ∷ cs) = let rest = upsert doc cs in if is_at doc c then doc ∷ cs else c ∷ rest

abbrev pub is_scope_type : String → Bool
is_scope_type t = t == "global" || t == "org" || t == "dept"

abbrev pub scope_of : String → String → String
scope_of t scope_id = if t == "global" then "*" else scope_id

unfoldable pub set_control : String → String → Bool → List Halt → Cache → Reply × List Halt × Cache
set_control t scope_id enabled col cache =
    let sid = scope_of t scope_id in
    let doc : Halt = record { scope_type = t; scope_id = sid; enabled = enabled } in
    if not (is_scope_type t)
    then (invalid_scope_type, col, cache)
    else if not (t == "global") && not (is_text sid)
    then (scope_id_required, col, cache)
    else (written doc, upsert doc col, invalidate_cache cache)

-- ===== src/Logic/Loop.antt =====
-- `LoopNode.execute` of citra_workflow/nodes/logic.py. What it does with items that are no list is
-- a parameter.
pub mod Batches
use citra_flows.Common.{
  ℕ, zero, suc, ◌+◌, max, String, Bool, true, false, Option, none, some, List, [], ◌∷◌, map, length,
  take, drop, ltb, if◌then◌else◌,
}
use citra_flows.Value.{
  ℤ, pos, negsuc, Value, Fields, null, bool, int, str, arr, obj, other, nil, end, field,
  get_default, items_of,
}
use citra_flows.Executor.State.{NodeContext}
use citra_flows.Logic.{
  Fault, too_long, wrong_type, Outcome, done, raised, Python, int_value, list_of, make_output,
}

-- `items[i:i + batch_size]` for `i` in `range(0, len(items), batch_size)`. Each turn of the fuel
-- is a value of `i`; as `batch_size` is at least 1, the length of the list is fuel enough.
unfoldable pub batches_from {ℓ} : {A : Type ℓ} → ℕ → ℕ → ℕ → List A → List (List A)
batches_from zero batch_size i items = []
batches_from (suc fuel) batch_size i items =
    let rest = batches_from fuel batch_size (i + batch_size) items in
    if ltb i (length items) then take batch_size (drop i items) ∷ rest else []

unfoldable pub make_batches {ℓ} : {A : Type ℓ} → ℕ → List A → List (List A)
make_batches batch_size items = batches_from (length items) batch_size 0 items

-- `max(1, n)`.
abbrev pub at_least_one : ℤ → ℕ
at_least_one (pos n) = max 1 n
at_least_one (negsuc n) = 1

abbrev pub loop_output : ℕ → List Value → Value
loop_output batch_size items =
    let batches = make_batches batch_size items in
    make_output (items_of items) (
      field "batches" (arr (items_of (map (λ b. arr (items_of b)) batches))) (
        field "total_items" (int (pos (length items))) (
          field "total_batches" (int (pos (length batches)))
            (field "batch_size" (int (pos batch_size)) end))))

module _ (max_iterations : ℕ) (unlisted : Value → ℕ → Outcome) where
  unfoldable pub loop_over : Value → ℕ → Outcome
  loop_over (arr vs) batch_size =
      let items = list_of vs in
      if ltb max_iterations (length items)
      then raised (too_long (length items))
      else done (loop_output batch_size items)
  loop_over v batch_size = unlisted v batch_size

  -- `int(batch_size)` may raise.
  unfoldable pub with_size : Value → Value → Option ℤ → Outcome
  with_size items given none = raised (wrong_type given)
  with_size items given (some n) = loop_over items (at_least_one n)

  -- `data.get(items_field, data.get("items", []))`, where a list or a dict is no key.
  unfoldable pub loop_items : Value → Value → Option Value
  loop_items (arr vs) (obj d) = none
  loop_items (obj e) (obj d) = none
  loop_items (str k) (obj d) = some (get_default k (get_default "items" (arr nil) d) d)
  loop_items key (obj d) = some (get_default "items" (arr nil) d)
  loop_items key v = some (arr nil)

  unfoldable pub with_items : Python → NodeContext → Value → Option Value → Outcome
  with_items py ctx key none = raised (wrong_type key)
  with_items py ctx key (some items) =
      let given = get_default "batch_size" (int (pos 1)) ctx.config in
      with_size items given (int_value py given)

  unfoldable pub execute : Python → NodeContext → Outcome
  execute py ctx =
      let key = get_default "items_field" (str "items") ctx.config in
      with_items py ctx key (loop_items key ctx.input_data)

-- ===== src/Budget.antt =====
-- citra_workflow/llm_budget.py, and `_resolve_run_llm_limit` of citra_workflow/executor.py: the
-- LLM calls that one run may make. The budget of the context variable is explicit state.
pub mod Charges
use citra_flows.Common.{
  ℕ, zero, suc, ◌+◌, Bool, true, false, ◌&&◌, not, Option, none, some, List, [], ◌∷◌, ltb, nat_eq,
  if◌then◌else◌, min, max,
}
use citra_flows.Value.{ℤ, pos, negsuc}

-- `MAX_RUN_LLM_CALLS` and `MAX_RUN_LLM_CALLS_HARD`, read from the environment.
pub record Limits : Type 0 where
  pub run_llm_calls : ℕ
  pub run_llm_calls_hard : ℕ

-- `raw if isinstance(raw, int) and raw > 0 else MAX_RUN_LLM_CALLS`.
unfoldable pub wanted_limit : Limits → Option ℤ → ℕ
wanted_limit l (some (pos (suc n))) = suc n
wanted_limit l raw = l.run_llm_calls

-- `_resolve_run_llm_limit`.
unfoldable pub resolve_run_llm_limit : Limits → Option ℤ → ℕ
resolve_run_llm_limit l raw = max 1 (min (wanted_limit l raw) l.run_llm_calls_hard)

-- `_RunLlmBudget`.
pub record RunLlmBudget : Type 0 where
  pub limit : ℕ
  pub count : ℕ

-- `_RunLlmBudget(limit)`, which `start_run_budget` sets.
abbrev pub start_run_budget : ℕ → Option RunLlmBudget
start_run_budget n = some (record { limit = n; count = 0 })

abbrev pub is_exceeded : RunLlmBudget → Bool
is_exceeded b = not (nat_eq b.limit 0) && ltb b.limit b.count

-- `charge`: the budget after it, and whether the call may be made (`false` is the raised
-- RunLlmBudgetExceeded).
unfoldable pub charge : RunLlmBudget → RunLlmBudget × Bool
charge b = let b1 = record b { count = b.count + 1 } in (b1, not (is_exceeded b1))

-- `charge_llm_call`.
unfoldable pub charge_llm_call : Option RunLlmBudget → Option RunLlmBudget × Bool
charge_llm_call none = (none, true)
charge_llm_call (some b) = (some (charge b).0, (charge b).1)

-- `current_run_llm_calls`.
abbrev pub current_run_llm_calls : Option RunLlmBudget → ℕ
current_run_llm_calls none = 0
current_run_llm_calls (some b) = b.count

-- `n` charges one after another, and how many of them let the call be made.
unfoldable pub charges : ℕ → Option RunLlmBudget → Option RunLlmBudget × ℕ
charges zero b = (b, 0)
charges (suc n) b =
    let (b1, allowed) = charge_llm_call b in
    let (b2, made) = charges n b1 in (b2, if allowed then made + 1 else made)

-- ===== src/Budget/Charges.antt =====
-- How many LLM calls the budget of a run lets through.
use citra_flows.Common.{ℕ, zero, suc, ◌+◌, ◌-◌, ◌≤◌, ◌≡◌, Option, some, min, max, arith}
use citra_flows.Value.{ℤ}
use citra_flows.Budget.{
  Limits, resolve_run_llm_limit, start_run_budget, charge, charge_llm_call, current_run_llm_calls,
  charges,
}

charges-from :
    (limit n count : ℕ)
    → 1 ≤ limit
    → ((charges n (some (record { limit = limit; count = count }))).1 ≡ min n (limit - count))
      × (current_run_llm_calls (charges n (some (record { limit = limit; count = count }))).0
          ≡ n + count)
unfolding charges charge_llm_call charge
charges-from limit zero count h = (ground arith, ground arith)
charges-from limit (suc n) count h =
    let rec = charges-from limit n (count + 1) h in ground (arith, rec.0, rec.1)

resolve-positive : (l : Limits) (raw : Option ℤ) → 1 ≤ resolve_run_llm_limit l raw
unfolding resolve_run_llm_limit
resolve-positive l raw = omega arith

resolve-le :
    (l : Limits) (raw : Option ℤ) → resolve_run_llm_limit l raw ≤ max 1 l.run_llm_calls_hard
unfolding resolve_run_llm_limit
resolve-le l raw = omega arith

-- A run whose limit comes from its workflow makes the LLM calls it asks for up to that limit and
-- no more, every call is counted, and the limit is at least one and at most the admin's hard
-- maximum, or one where that is 0.
pub charges-resolve :
    (l : Limits) (raw : Option ℤ) (n : ℕ)
    → ((charges n (start_run_budget (resolve_run_llm_limit l raw))).1
        ≡ min n (resolve_run_llm_limit l raw))
      × (current_run_llm_calls (charges n (start_run_budget (resolve_run_llm_limit l raw))).0 ≡ n)
      × (1 ≤ resolve_run_llm_limit l raw)
      × (resolve_run_llm_limit l raw ≤ max 1 l.run_llm_calls_hard)
charges-resolve l raw n =
    let c = charges-from (resolve_run_llm_limit l raw) n 0 (resolve-positive l raw) in
    (omega (arith, c.0), omega (arith, c.1), resolve-positive l raw, resolve-le l raw)

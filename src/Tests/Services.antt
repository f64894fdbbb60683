-- ===== src/Tests/Services.antt =====
-- The retries of nodes, the LLM budget of runs and the circuit breaker, at sample inputs.
use citra_flows.Common.{
  ℕ, zero, suc, ◌≤◌, ◌<◌, ◌≡◌, refl, true, false, none, List, [], ◌∷◌, length, max,
}
use citra_flows.Value.{pos, Fields, obj, int, end, field}
use citra_flows.Models.{Message}
use citra_flows.Node.{Attempt, output, failure, BaseNode, Surroundings, tries, run}
use citra_flows.Node.Attempts.{Ends, made, retries_of, run-Ends, run-once}
use citra_flows.Budget.{Limits}
use citra_flows.Breaker.{State, Settings, failed, Event, entered, finished, after_events}
use citra_flows.Breaker.Counts.{recent_failures, after_events-counts}

-- The third attempt succeeds.
abbrev third_time : ℕ → Attempt
third_time zero = failure (Message.text "busy") false
third_time (suc zero) = failure (Message.text "busy") false
third_time (suc (suc k)) = output (obj end)

abbrev reader : BaseNode
reader = record {
  is_output = false;
  side_effecting = false;
  retryable = false;
  execute = third_time;
}

abbrev writer : BaseNode
writer = record {
  is_output = true;
  side_effecting = false;
  retryable = false;
  execute = third_time;
}

abbrev still : Surroundings
still = record {
  int_of = λ v. none;
  delay_of = λ v. 5;
  spread_of = λ raw. 0;
  uniform = λ spread. (true, 0);
  max_delay = 60;
}

abbrev three_retries : Fields
three_retries = field "max_retries" (int (pos 3)) end

run-Ends_example :
    Ends reader.execute "read"
      (retries_of still reader three_retries)
      (tries (retries_of still reader three_retries))
      (run still reader "read" three_retries).0
      (made (run still reader "read" three_retries).1)
run-Ends_example = run-Ends still reader "read" three_retries

run-once_example : length (made (run still writer "write" three_retries).1) ≤ 1
run-once_example = run-once still writer "write" three_retries refl refl

abbrev defaults : Limits
defaults = record { run_llm_calls = 200; run_llm_calls_hard = 1000 }

abbrev settings : Settings
settings = record { failure_threshold = 3; recovery_timeout = 30 }

-- Two failures, with a call of another task between them, newest first.
abbrev two_failures : List Event
two_failures = finished 4 failed ∷ entered 3 3 ∷ finished 2 failed ∷ entered 1 1 ∷ []

after_events-counts_example :
    ((after_events settings two_failures).consecutive_failures
      ≡ recent_failures settings two_failures)
    × ((after_events settings two_failures).state ≡ State.closed
        → recent_failures settings two_failures < max 1 3)
after_events-counts_example = after_events-counts settings two_failures

abbrev tick : ℕ → ℕ
tick k = k

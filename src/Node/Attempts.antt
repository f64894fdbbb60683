-- ===== src/Node/Attempts.antt =====
-- Which attempts `BaseNode.run` makes, and what it gives.
use citra_flows.Common.{
  ℕ, zero, suc, String, ◌+◌, ◌≤◌, ◌<◌, ◌≡◌, refl, ap, ◌∙◌, subst, Bool, true, false, ◌||◌, ◌⊎◌, inl,
  inr, List, [], ◌∷◌, ◌++◌, arith, length, if◌then◌else◌,
}
use citra_flows.Value.{ℤ, pos, negsuc, Value, Fields, null, get_default}
use citra_flows.Models.{NodeExecutionResult, Message}
use citra_flows.Node.{
  Attempt, output, failure, BaseNode, Surroundings, Call, executed, slept, number_or_zero, pinned,
  tries, before, failed_result, completed_result, tried, attempts, run,
}

-- The numbers of the attempts made, newest first.
abbrev pub made : List Call → List ℕ
made [] = []
made (executed k ∷ calls) = k ∷ made calls
made (slept d ∷ calls) = made calls

-- k - 1, …, 1, 0.
abbrev pub countdown : ℕ → List ℕ
countdown zero = []
countdown (suc k) = k ∷ countdown k

abbrev pub text_of : Attempt → List Message
text_of (output v) = []
text_of (failure m b) = m ∷ []

-- The errors of the first `k` attempts, in order.
abbrev pub errors_of : (ℕ → Attempt) → ℕ → List Message
errors_of execute zero = []
errors_of execute (suc k) = errors_of execute k ++ text_of (execute k)

-- The attempt failed in a way that may be tried again.
abbrev pub MayRetry : Attempt → Type 0
MayRetry a = (m : Message) × (a ≡ failure m false)

abbrev pub AllMayRetry : (ℕ → Attempt) → ℕ → Type 0
AllMayRetry execute k = (j : ℕ) → j < k → MayRetry (execute j)

-- What `n` attempts at a node come to: the first that succeeds decides, or the first that must
-- not be tried again, or all `n` fail.
pub data Ends (execute : ℕ → Attempt) (nid : String) (retries : ℤ) (n : ℕ)
    : NodeExecutionResult → List ℕ → Type 0 where
  succeeds :
      (k : ℕ) (v : Value)
      → k < n
      → AllMayRetry execute k
      → execute k ≡ output v
      → Ends execute nid retries n
          (completed_result nid k v (errors_of execute k))
          (countdown (suc k))
  gives_up :
      (k : ℕ) (m : Message)
      → k < n
      → AllMayRetry execute k
      → execute k ≡ failure m true
      → Ends execute nid retries n
          (failed_result nid retries (errors_of execute (suc k)))
          (countdown (suc k))
  runs_out :
      AllMayRetry execute n
      → Ends execute nid retries n (failed_result nid retries (errors_of execute n)) (countdown n)

length-countdown : (k : ℕ) → length (countdown k) ≡ k
length-countdown zero = refl
length-countdown (suc k) = omega (arith, length-countdown k)

lt_cases : (j k : ℕ) → j < suc k → (j < k) ⊎ (j ≡ k)
lt_cases j k h = ground arith

none_below : (j : ℕ) → j < 0 → ⊥
none_below j lt = omega arith

AllMayRetry-suc :
    (execute : ℕ → Attempt) (k : ℕ) (m : Message)
    → AllMayRetry execute k
    → execute k ≡ failure m false
    → AllMayRetry execute (suc k)
AllMayRetry-suc execute k m h e j lt = elim (lt_cases j k lt) [
  | inl l ↦ h j l
  | inr q ↦ rw q (m, e)
]

made-slept :
    (b : Bool) (d k : ℕ) (calls : List Call)
    → made (if b then slept d ∷ executed k ∷ calls else executed k ∷ calls) ≡ k ∷ made calls
made-slept true d k calls = refl
made-slept false d k calls = refl

module _ (s : Surroundings) (node : BaseNode) (nid : String) (retries : ℤ) (delay : ℕ → ℕ) where
  record EndsAt (n : ℕ) (o : NodeExecutionResult × List Call) : Type 0 where
    at : Ends node.execute nid retries n o.0 (made o.1)

  gave_up :
      {n : ℕ} (k : ℕ) (m : Message)
      → k < n
      → AllMayRetry node.execute k
      → node.execute k ≡ failure m true
      → Ends node.execute nid retries n
          (failed_result nid retries (errors_of node.execute k ++ m ∷ []))
          (k ∷ countdown k)
  gave_up {n = n} k m lt h e =
      subst
        (λ a.
          Ends node.execute nid retries n
            (failed_result nid retries (errors_of node.execute k ++ text_of a)) (k ∷ countdown k))
        e (gives_up k m lt h e)

  abbrev Rest : Type 0
  Rest = List Message → List Call → NodeExecutionResult × List Call

  tried-EndsAt :
      (n k : ℕ) (errors : List Message) (calls : List Call) (rest : Rest) (a : Attempt)
      → node.execute k ≡ a
      → k < n
      → errors ≡ errors_of node.execute k
      → made calls ≡ countdown k
      → AllMayRetry node.execute k
      → ((es : List Message) (cs : List Call)
          → es ≡ errors_of node.execute (suc k)
          → made cs ≡ countdown (suc k)
          → AllMayRetry node.execute (suc k)
          → EndsAt n (rest es cs))
      → EndsAt n (tried s node nid retries delay k errors calls rest a)
  unfolding tried
  tried-EndsAt n k errors calls rest (output v) q lt es cs h go = record {
    at = rw (es, cs) (succeeds k v lt h q);
  }
  tried-EndsAt n k errors calls rest (failure m true) q lt es cs h go = record {
    at = rw (es, cs) (gave_up k m lt h q);
  }
  tried-EndsAt n k errors calls rest (failure m false) q lt es cs h go =
      go _ _ (rw (es, q) refl)
        (made-slept (before k retries) (delay k) k calls ∙ ap (λ l. k ∷ l) cs)
        (AllMayRetry-suc node.execute k m h q)

  attempts-EndsAt :
      (n left k : ℕ) (errors : List Message) (calls : List Call)
      → k + left ≡ n
      → errors ≡ errors_of node.execute k
      → made calls ≡ countdown k
      → AllMayRetry node.execute k
      → EndsAt n (attempts s node nid retries delay left k errors calls)
  unfolding attempts
  attempts-EndsAt n zero k errors calls e es cs h =
      subst (λ i. EndsAt i (failed_result nid retries errors, calls)) k_n
        (record { at = rw (es, cs) (runs_out h) })
    where
      k_n : k ≡ n
      k_n = omega arith
  attempts-EndsAt n (suc left) k errors calls e es cs h =
      tried-EndsAt n k errors calls (attempts s node nid retries delay left (suc k))
        (node.execute k) refl (omega arith) es cs h
        (λ es' cs' e' c' h'. attempts-EndsAt n left (suc k) es' cs' (omega arith) e' c' h')

-- The retries that a node's `config` gives it.
abbrev pub retries_of : Surroundings → BaseNode → Fields → ℤ
retries_of s node config = pinned node (number_or_zero s (get_default "max_retries" null config))

module _ (s : Surroundings) (node : BaseNode) (nid : String) (config : Fields) where
  -- `run` makes its attempts in order from 0 and stops at the first that succeeds, whose output it
  -- gives, or at the first that fails with an error that must not be tried again, or after one
  -- attempt more than the retries that its config allows; whenever it fails it gives the errors of
  -- all attempts that it made, in order. With a negative `max_retries` it makes none and fails.
  pub run-Ends :
      Ends node.execute nid
        (retries_of s node config)
        (tries (retries_of s node config))
        (run s node nid config).0
        (made (run s node nid config).1)
  unfolding run
  run-Ends =
      (attempts-EndsAt s node nid (retries_of s node config) _ (tries (retries_of s node config))
        (tries (retries_of s node config)) 0 [] [] (omega arith) refl refl
        (λ j lt. absurd (none_below j lt))).at

  Ends-le :
      {n : ℕ} {r : ℤ} {x : NodeExecutionResult} {ks : List ℕ}
      → Ends node.execute nid r n x ks
      → length ks ≤ n
  Ends-le (succeeds k v lt h e) = omega (arith, length-countdown k)
  Ends-le (gives_up k m lt h e) = omega (arith, length-countdown k)
  Ends-le {n = n} (runs_out h) = omega (arith, length-countdown n)

  pinned-tries :
      (r : ℤ)
      → (node.is_output || node.side_effecting) ≡ true
      → node.retryable ≡ false
      → tries (pinned node r) ≤ 1
  unfolding pinned
  pinned-tries (pos zero) e f = rw (e, f) (omega arith)
  pinned-tries (pos (suc n)) e f = rw (e, f) (omega arith)
  pinned-tries (negsuc n) e f = rw (e, f) (omega arith)

  -- A node with effects that does not declare itself retryable is executed at most once, whatever
  -- its config says and however the attempt fails.
  pub run-once :
      (node.is_output || node.side_effecting) ≡ true
      → node.retryable ≡ false
      → length (made (run s node nid config).1) ≤ 1
  run-once e f =
      let le = pinned-tries (number_or_zero s (get_default "max_retries" null config)) e f in
      omega (arith, Ends-le run-Ends, le)

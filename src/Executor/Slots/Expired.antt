-- ===== src/Executor/Slots/Expired.antt =====
-- That the cap fails once the counter expires under runs that hold slots.
use citra_flows.Common.{ℕ, zero, suc, some, List, [], ◌∷◌}
use citra_flows.Value.{pos}
use citra_flows.Executor.Slots.{Counter, SlotEvent, asks}

-- `n` runs that ask for a slot, all at `now`.
abbrev pub asked_at : ℕ → ℕ → List SlotEvent
asked_at now zero = []
asked_at now (suc n) = asks now ∷ asked_at now n

abbrev counted : ℕ → ℕ → Counter
counted ttl n = record { count = pos n; expires = some ttl }

-- ===== src/Tests/More.antt =====
-- The cap on concurrent runs, the promotion of retries and the chunking of texts, at sample inputs.
use citra_flows.Common.{ℕ, ◌+◌, ◌≤◌, ◌≡◌, refl, Option, some, List, [], ◌∷◌, All}
use citra_flows.Value.{ℤ, pos, codes}
use citra_flows.Executor.Slots.{
  Counter, SlotEvent, asks, ends, acquire_script, acquire_slot, release_slot, on_slot_event,
  after_slot_events, get_capacity,
}
use citra_flows.Executor.Slots.Bounds.{IsSteady, count_of, after_slot_events-bounded}
use citra_flows.Queue.Reader.{Retry}
use citra_flows.Chunking.{max_chunk_chars, clamp_size, chunk_text}
use citra_flows.Chunking.Bounds.{IsChunk, chunk_text-IsChunk}

abbrev three_asks : List SlotEvent
three_asks = asks 3 ∷ asks 2 ∷ ends 1 ∷ asks 0 ∷ []

-- The counter lives for ten seconds.
abbrev after_three_asks : Option Counter × ℕ
after_three_asks = after_slot_events 1 10 three_asks

three_asks-IsSteady : IsSteady 1 10 three_asks
unfolding after_slot_events on_slot_event acquire_slot acquire_script release_slot
three_asks-IsSteady = (refl, (tt, (refl, (tt, tt))))

after_slot_events-bounded_example :
    (count_of after_three_asks.0 ≡ pos after_three_asks.1)
    × (after_three_asks.1 ≤ 1)
    × ((get_capacity 1 (some (count_of after_three_asks.0))).running
          + (get_capacity 1 (some (count_of after_three_asks.0))).available
        ≡ 1)
after_slot_events-bounded_example = after_slot_events-bounded 1 10 three_asks three_asks-IsSteady

abbrev nothing : ℤ → ℤ
nothing count = count

abbrev waiting : Retry
waiting = ("a", 3) ∷ ("b", 5) ∷ ("c", 9) ∷ []

chunk_text-IsChunk_example :
    All (IsChunk (clamp_size (pos 60))) (chunk_text (codes "one  two") (pos 60) (pos 5))
    × (50 ≤ clamp_size (pos 60))
    × (clamp_size (pos 60) ≤ max_chunk_chars)
chunk_text-IsChunk_example = chunk_text-IsChunk (codes "one  two") (pos 60) (pos 5)

-- ===== src/Dedup/Collides.antt =====
-- Records with different key fields.
use citra_flows.Common.{String, false, [], ◌∷◌, ◌≡◌, ◌∙◌, arith, ==_iff, ◌==◌}
use citra_flows.Value.{Value, obj, end, field, get}
use citra_flows.Dedup.{Dumps, present, key_for, deduplicated}
use citra_flows.Dedup.First.{firsts, kept, noted, deduplicated-firsts}

-- Two records that have no key field in common, one with the key `j` alone and one with `k` alone, are
-- taken for duplicates when the two fields have the same value: the second is dropped.
pub deduplicated-collides :
    (ds : Dumps) (j k : String) (v : Value)
    → (j == k) ≡ false
    → deduplicated ds (j ∷ k ∷ []) false (obj (field j v end) ∷ obj (field k v end) ∷ [])
      ≡ obj (field j v end) ∷ []
unfolding firsts kept noted key_for present get
deduplicated-collides ds j k v n =
    deduplicated-firsts ds (j ∷ k ∷ []) (obj (field j v end) ∷ obj (field k v end) ∷ [])
    ∙ ground
        (arith, n, ==_iff j j, ==_iff k k, ==_iff j k, ==_iff k j, ==_iff (ds.dumps v) (ds.dumps v))

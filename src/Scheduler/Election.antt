-- ===== src/Scheduler/Election.antt =====
-- The election of the scheduler's leader in citra_workflow/scheduler.py. The instances share the leader
-- key of Redis and a clock of seconds; what an instance does at a turn of its election loop or of its
-- heartbeat is one event.
pub mod Backed
pub mod Exclusive
pub mod Split
use citra_flows.Common.{
  ℕ, suc, ◌+◌, String, Bool, true, false, not, ◌&&◌, Option, none, some, List, [], ◌∷◌, map, any,
  all, select, mem, ltb, if◌then◌else◌, ◌==◌,
}

-- The leader key: its value and when it expires.
pub record Lease : Type 0 where
  pub holder : String
  pub expires : ℕ

-- `SCHEDULER_ENABLED` and `SCHEDULER_LEADER_TTL`.
pub record Config : Type 0 where
  pub enabled : Bool
  pub ttl : ℕ

-- How an operation on the cache ends: Redis answers, or it raises. Then the connection may be lost (a
-- ConnectionError, after which `use_redis` of the process is false), and the command may have been
-- applied all the same.
pub data Redis : Type 0 where
  answers : Redis
  raises : (lost applied : Bool) → Redis

-- The key, if it has not expired.
unfoldable pub live : ℕ → Option Lease → Option Lease
live now none = none
live now (some l) = if ltb now l.expires then some l else none

unfoldable pub acquire : Config → String → ℕ → Option Lease → Bool × Option Lease
acquire cfg id now none = (true, some (record { holder = id; expires = now + cfg.ttl }))
acquire cfg id now (some l) = (l.holder == id, some l)

-- `_try_acquire_leadership`: the answer, and the key. An instance whose `use_redis` is false falls
-- back to `SCHEDULER_ENABLED`.
unfoldable pub try_acquire_leadership :
    Config → (is_cut : Bool) → Redis → String → ℕ → Option Lease → Bool × Option Lease
try_acquire_leadership cfg true r id now key = (cfg.enabled, key)
try_acquire_leadership cfg false answers id now key = acquire cfg id now (live now key)
try_acquire_leadership cfg false (raises lost applied) id now key =
    (false, if applied then (acquire cfg id now (live now key)).1 else key)

unfoldable pub extend : Config → String → ℕ → Option Lease → Bool × Option Lease
extend cfg id now none = (false, none)
extend cfg id now (some l) =
    if l.holder == id then (true, some (record l { expires = now + cfg.ttl })) else (false, some l)

-- A round of `_leader_heartbeat_loop`: whether the leadership was renewed, and the key. Where the
-- cache raises it was not.
unfoldable pub renew : Config → Redis → String → ℕ → Option Lease → Bool × Option Lease
renew cfg answers id now key = extend cfg id now (live now key)
renew cfg (raises lost applied) id now key =
    (false, if applied then (extend cfg id now (live now key)).1 else key)

-- An instance that takes itself for the leader, and when it last got or renewed the key.
pub record Term : Type 0 where
  pub instance_id : String
  pub renewed_at : ℕ

pub record Cluster : Type 0 where
  pub now : ℕ
  pub key : Option Lease
  pub leaders : List Term
  -- the instances whose `use_redis` is false
  pub cut : List String

pub data Event : Type 0 where
  campaign beat : Redis → String → Event
  -- any other operation of the process on the cache, such as the read of the follower's poll
  poll : Redis → String → Event
  pass : Event

-- `CacheManager._execute`: an operation on a lost connection connects anew or raises.
abbrev pub cut_by : Redis → String → List String → List String
cut_by answers id cut = select (λ x. not (x == id)) cut
cut_by (raises true applied) id cut = id ∷ cut
cut_by (raises false applied) id cut = select (λ x. not (x == id)) cut

abbrev pub after_reply : Redis → String → Cluster → Cluster
after_reply r id c = record c { cut = cut_by r id c.cut }

abbrev pub is_of : String → Term → Bool
is_of id t = t.instance_id == id

abbrev pub is_not_of : String → Term → Bool
is_not_of id t = not (t.instance_id == id)

abbrev pub refresh_term : String → ℕ → Term → Term
refresh_term id now t = if is_of id t then record t { renewed_at = now } else t

-- `_on_become_leader`, when the key was got.
unfoldable pub elect : String → Bool × Option Lease → Cluster → Cluster
elect id (true, key) c = record c {
  key = key;
  leaders = record { instance_id = id; renewed_at = c.now } ∷ c.leaders;
}
elect id (false, key) c = record c { key = key }

-- `_on_lose_leadership`, when the key was not renewed.
unfoldable pub hold : String → Bool × Option Lease → Cluster → Cluster
hold id (true, key) c = record c { key = key; leaders = map (refresh_term id c.now) c.leaders }
hold id (false, key) c = record c { key = key; leaders = select (is_not_of id) c.leaders }

-- A campaign; without `use_redis` it does not touch the cache.
unfoldable pub campaign_as : Config → (is_cut : Bool) → Redis → String → Cluster → Cluster
campaign_as cfg true r id c = elect id (try_acquire_leadership cfg true r id c.now c.key) c
campaign_as cfg false r id c =
    elect id (try_acquire_leadership cfg false r id c.now c.key) (after_reply r id c)

-- An instance that leads does not campaign, and one that does not lead has no heartbeat.
unfoldable pub step : Config → Event → Cluster → Cluster
step cfg (campaign r id) c =
    if any (is_of id) c.leaders then c else campaign_as cfg (mem id c.cut) r id c
step cfg (beat r id) c =
    if any (is_of id) c.leaders
    then hold id (renew cfg r id c.now c.key) (after_reply r id c)
    else c
step cfg (poll r id) c = after_reply r id c
step cfg pass c = record c { now = suc c.now }

unfoldable pub steps : Config → List Event → Cluster → Cluster
steps cfg [] c = c
steps cfg (e ∷ es) c = steps cfg es (step cfg e c)

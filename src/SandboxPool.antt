-- ===== src/SandboxPool.antt =====
-- services/sandbox_pool.py: the pool of warm containers. Its methods are cut at their awaits into
-- steps, which the event loop interleaves. Docker is known by what it answers: which container it
-- starts, whether one is alive, whether a reset works.
pub mod Counts
pub mod Invariant
pub mod Growth
pub mod Steps
pub mod Warmup
pub mod Reaping
use citra_flows.Common.{
  ℕ, zero, suc, ◌+◌, ◌-◌, String, Bool, true, false, not, ◌&&◌, Option, none, some, List, [], ◌∷◌,
  ◌++◌, mem, length, select, is_empty, ltb, if◌then◌else◌, ◌==◌,
}

-- `WarmContainerPool`. `idle` is the asyncio queue, `in_use` the set of full identifiers.
pub record Pool : Type 0 where
  pub min_size : ℕ
  pub max_size : ℕ
  pub created : ℕ
  pub idle : List String
  pub in_use : List String

unfoldable pub new_pool : ℕ → ℕ → Pool
new_pool min_size max_size = record {
  min_size = min_size;
  max_size = if ltb max_size min_size then min_size else max_size;
  created = 0;
  idle = [];
  in_use = [];
}

-- Who holds the grow lock: nobody, an `acquire` that looks again, one that awaits a new container,
-- or a `warmup` that awaits its next one, with the number that it has created.
pub data Lock : Type 0 where
  unlocked acquiring growing : Lock
  warming : ℕ → Lock

-- The pool, the containers that a suspended task holds, and Docker: `fresh` is started but not yet
-- recorded, `running` are the running containers of this worker, and `seen` all that it started.
pub record System : Type 0 where
  pub pool : Pool
  pub open pool use {min_size, max_size, created, idle, in_use}
  pub validating : List String
  pub resetting : List String
  pub lock : Lock
  pub fresh : Option String
  pub snapshot : Option (List String)
  pub running : List String
  pub seen : List String

unfoldable pub new_system : ℕ → ℕ → System
new_system min_size max_size = record {
  pool = new_pool min_size max_size;
  validating = [];
  resetting = [];
  lock = unlocked;
  fresh = none;
  snapshot = none;
  running = [];
  seen = [];
}

-- Takes the first `x` out.
unfoldable pub without : String → List String → List String
without x [] = []
without x (y ∷ ys) = let rest = without x ys in if x == y then ys else y ∷ rest

abbrev pub insert_id : String → List String → List String
insert_id x s = if mem x s then s else x ∷ s

-- `self._idle.get_nowait()` in `acquire`; the container is validated next.
unfoldable pub take_from : List String → System → System
take_from [] s = s
take_from (id ∷ rest) s = record s {
  pool = record (s.pool) { idle = rest };
  validating = id ∷ s.validating;
}

unfoldable pub take_idle : System → System
take_idle s = take_from s.idle s

-- `_validate_alive` found the container running: `acquire` hands it out.
unfoldable pub found_alive : String → System → System
found_alive id s =
    if mem id s.validating
    then record s {
      pool = record (s.pool) { in_use = insert_id id s.in_use };
      validating = without id s.validating;
    }
    else s

-- It found it dead, and has destroyed it.
unfoldable pub found_dead : String → System → System
found_dead id s =
    if mem id s.validating
    then record s {
      pool = record (s.pool) { in_use = without id s.in_use; created = s.created - 1 };
      validating = without id s.validating;
      running = without id s.running;
    }
    else s

unfoldable pub lock_grow : Lock → System → System
lock_grow unlocked s = record s { lock = acquiring }
lock_grow l s = s

-- `acquire` leaves the lock with an idle container, or with a pool that is full.
unfoldable pub unlock_grow : Lock → System → System
unlock_grow acquiring s = record s { lock = unlocked }
unlock_grow l s = s

-- `if self._created < self.max_size`, behind an idle queue that was found empty.
unfoldable pub begin_grow : Lock → System → System
begin_grow acquiring s =
    if is_empty s.idle && ltb s.created s.max_size then record s { lock = growing } else s
begin_grow l s = s

abbrev pub is_creating : Lock → Bool
is_creating growing = true
is_creating (warming n) = true
is_creating l = false

abbrev pub is_none : Option String → Bool
is_none none = true
is_none (some id) = false

-- Docker starts the container that is awaited, under an identifier that it has never given.
unfoldable pub docker_starts : String → System → System
docker_starts id s =
    if is_creating s.lock && is_none s.fresh && not (mem id s.seen)
    then record s { fresh = some id; running = id ∷ s.running; seen = id ∷ s.seen }
    else s

-- `acquire` goes on with its new container.
unfoldable pub end_grow : Lock → Option String → System → System
end_grow growing (some id) s = record s {
  pool = record (s.pool) { created = s.created + 1; in_use = insert_id id s.in_use };
  lock = unlocked;
  fresh = none;
}
end_grow l f s = s

-- The test of `warmup`'s loop.
unfoldable pub warm_next : Pool → ℕ → Lock
warm_next p created_now =
    if ltb (length p.idle + created_now) p.min_size && ltb p.created p.max_size
    then warming created_now
    else unlocked

unfoldable pub begin_warmup : Lock → System → System
begin_warmup unlocked s = record s { lock = warm_next s.pool 0 }
begin_warmup l s = s

-- One turn of `warmup`'s loop.
unfoldable pub add_warm : String → Pool → Pool
add_warm id p = record p { created = p.created + 1; idle = p.idle ++ id ∷ [] }

unfoldable pub end_warm : Lock → Option String → System → System
end_warm (warming n) (some id) s =
    let p = add_warm id s.pool in record s { pool = p; lock = warm_next p (suc n); fresh = none }
end_warm l f s = s

-- `except DockerException`: the creation failed.
unfoldable pub fail_creating : Option String → System → System
fail_creating none s = if is_creating s.lock then record s { lock = unlocked } else s
fail_creating (some id) s = s

-- `release` of a container that is handed out, by the one who has it; its workspace is reset next.
unfoldable pub begin_release : String → System → System
begin_release id s =
    if mem id s.in_use
    then record s {
      pool = record (s.pool) { in_use = without id s.in_use };
      resetting = id ∷ s.resetting;
    }
    else s

-- The reset worked.
unfoldable pub reset_done : String → System → System
reset_done id s =
    if mem id s.resetting
    then record s {
      pool = record (s.pool) { idle = s.idle ++ id ∷ [] };
      resetting = without id s.resetting;
    }
    else s

-- It failed, and the container is destroyed.
unfoldable pub reset_failed : String → System → System
reset_failed id s =
    if mem id s.resetting
    then record s {
      pool = record (s.pool) { created = s.created - 1 };
      resetting = without id s.resetting;
      running = without id s.running;
    }
    else s

-- `_periodic_reaper` notes the containers that the pool knows.
unfoldable pub begin_reap : System → System
begin_reap s = record s { snapshot = some (s.in_use ++ s.idle) }

-- The first `warmup` of an empty pool protects nothing.
unfoldable pub begin_prune : System → System
begin_prune s =
    if not (ltb 0 s.created) && is_empty s.idle then record s { snapshot = some [] } else s

-- `_reap_orphans`: of its own containers this worker destroys all that were not noted.
unfoldable pub end_reap : Option (List String) → System → System
end_reap none s = s
end_reap (some known) s = record s {
  running = select (λ id. mem id known) s.running;
  snapshot = none;
}

-- A container stops by itself.
unfoldable pub lose : String → System → System
lose id s = record s { running = without id s.running }

pub data Event : Type 0 where
  took_idle locked left grew_on grew failed_creating warmed_on warmed noted pruning reaped : Event
  was_alive was_dead started released reset_worked reset_broke died : String → Event

unfoldable pub step : Event → System → System
step took_idle s = take_idle s
step locked s = lock_grow s.lock s
step left s = unlock_grow s.lock s
step grew_on s = begin_grow s.lock s
step grew s = end_grow s.lock s.fresh s
step failed_creating s = fail_creating s.fresh s
step warmed_on s = begin_warmup s.lock s
step warmed s = end_warm s.lock s.fresh s
step noted s = begin_reap s
step pruning s = begin_prune s
step reaped s = end_reap s.snapshot s
step (was_alive id) s = found_alive id s
step (was_dead id) s = found_dead id s
step (started id) s = docker_starts id s
step (released id) s = begin_release id s
step (reset_worked id) s = reset_done id s
step (reset_broke id) s = reset_failed id s
step (died id) s = lose id s

-- The events in their order.
unfoldable pub run : List Event → System → System
run [] s = s
run (e ∷ events) s = run events (step e s)

abbrev pub is_warming : Lock → Bool
is_warming (warming n) = true
is_warming l = false

-- `warmup`'s loop when nobody else touches the pool: the containers that Docker starts until it
-- fails, the number created so far, and the pool. It gives the number created and the pool.
unfoldable pub warm_loop : List String → ℕ → Pool → ℕ × Pool
warm_loop [] n p = (n, p)
warm_loop (id ∷ ids) n p =
    let rest = warm_loop ids (suc n) (add_warm id p) in
    if is_warming (warm_next p n) then rest else (n, p)

-- ===== src/Tests/Pool.antt =====
-- The pool of containers at sample events.
use citra_flows.Common.{max, ◌+◌, ◌≤◌, ◌≡◌, refl, String, true, List, [], ◌∷◌, length, mem}
use citra_flows.SandboxPool.{
  lock_grow, begin_grow, end_grow, begin_warmup, warm_next, end_warm, add_warm, docker_starts,
  take_idle, take_from, found_alive, begin_release, reset_done, without, step, new_pool, new_system,
  warm_loop, Event, took_idle, locked, grew_on, grew, warmed_on, warmed, was_alive, started,
  released, reset_worked, run,
}
use citra_flows.SandboxPool.Invariant.{places}
use citra_flows.SandboxPool.Steps.{run-exclusive}

-- A warm-up makes "a", which is handed out; then the pool grows by "b", which comes back.
abbrev two_containers : List Event
two_containers =
    warmed_on
    ∷ started "a"
    ∷ warmed
    ∷ took_idle
    ∷ was_alive "a"
    ∷ locked
    ∷ grew_on
    ∷ started "b"
    ∷ grew
    ∷ released "b"
    ∷ reset_worked "b"
    ∷ []

two_containers_idle : (run two_containers (new_system 1 2)).idle ≡ "b" ∷ []
unfolding run step lock_grow begin_grow end_grow begin_warmup warm_next end_warm add_warm
    docker_starts take_idle take_from found_alive begin_release reset_done without new_system
    new_pool
two_containers_idle = refl

two_containers_in_use : (run two_containers (new_system 1 2)).in_use ≡ "a" ∷ []
unfolding run step lock_grow begin_grow end_grow begin_warmup warm_next end_warm add_warm
    docker_starts take_idle take_from found_alive begin_release reset_done without new_system
    new_pool
two_containers_in_use = refl

run-exclusive_example :
    let s = run two_containers (new_system 1 2) in
    (s.created ≡ length s.idle + length s.validating + length s.in_use + length s.resetting)
    × (s.created ≤ max 1 2)
    × ((y : String) → places y s ≤ 1)
run-exclusive_example = run-exclusive 1 2 two_containers

abbrev supply : List String
supply = "a" ∷ "b" ∷ "c" ∷ "d" ∷ []

two_of_four : (warm_loop supply 0 (new_pool 4 4)).0 ≡ 2
unfolding warm_loop warm_next new_pool add_warm
two_of_four = refl

-- It was running before.
reaped_was_running : mem "b" (run two_containers (new_system 1 2)).running ≡ true
unfolding run step lock_grow begin_grow end_grow begin_warmup warm_next end_warm add_warm
    docker_starts take_idle take_from found_alive begin_release reset_done without new_system
    new_pool
reaped_was_running = refl

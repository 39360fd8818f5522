-- ===== src/Pool/Blocking/Tests.antt =====
-- Pools at work.
use demiplane.Prelude.{
  ◌+◌, ◌<◌, ◌≡◌, ◌⊎◌, refl, true, false, some, none, List, [], ◌∷◌, ◌==◌, arith,
}
use demiplane.Pool.Blocking.{
  WaiterEntry, sync_waiter, async_waiter, Pool, Request, try_now, blocking, async, holder,
  connecting, waiting, enter, connected, return_holder, reset, drop_dead, wake, begin_shutdown,
  finish_shutdown, construct,
}
use demiplane.Pool.Blocking.Queue.{Serves, Parks, return_holder_queue}
use demiplane.Pool.Blocking.Handlers.{
  Section, enters, connects, times_out, resets, begins_shutdown, finishes_shutdown, execute_all,
  PostedOnce, execute_all-construct-PostedOnce,
}
use demiplane.Pool.Blocking.Invariant.{run, IsSettled, run-construct-IsSettled, acquires}
use demiplane.Pool.Blocking.System.{started, construct-Reach-Owned}
use demiplane.Pool.Blocking.Places.{Owned}
use demiplane.Pool.Blocking.Clients.{System, Reach, give, end_wait, give_back, here, next}
use demiplane.Pool.Blocking.{active_count, free_count}
use demiplane.Pool.Blocking.Stats.{active_count-construct}
use demiplane.Pool.Blocking.Races.{
  two_connect, sleeps_beside_free, drop_dead_strands, wakes_with_dropped, connects_after_shutdown,
}

-- Room for two, one holder made and lent, an async waiter that timed out and a blocked thread.
abbrev busy : Pool
busy = record {
  capacity = 2;
  holders = 10 ∷ [];
  free = [];
  waiters = async_waiter 1 ∷ sync_waiter 2 ∷ [];
  created = 1;
  shutdown = false;
  assigned = λ w. none;
  claimed = λ w. w == 1;
  posted = [];
}

abbrev quiet : Pool
quiet = record busy { waiters = [] }

abbrev queued : Pool
queued = record busy { waiters = sync_waiter 2 ∷ async_waiter 3 ∷ [] }

return_holder_queue_example :
    Serves 10 busy (return_holder 10 busy) (async_waiter 1 ∷ sync_waiter 2 ∷ [])
    ⊎ Parks 10 busy (return_holder 10 busy) (async_waiter 1 ∷ sync_waiter 2 ∷ [])
return_holder_queue_example = return_holder_queue 10 busy refl

abbrev sections : List Section
sections =
    enters (async 1)
    ∷ enters (async 2)
    ∷ connects (async 2) none
    ∷ times_out 2
    ∷ resets true 10
    ∷ begins_shutdown
    ∷ finishes_shutdown
    ∷ []

execute_all-construct-PostedOnce_example :
    PostedOnce (execute_all sections (construct 2 (some 10 ∷ [])))
execute_all-construct-PostedOnce_example =
    execute_all-construct-PostedOnce 2 (some 10 ∷ []) sections

run-construct-IsSettled_example : IsSettled (
    run
      (acquires (async 1) none ∷ acquires (async 2) (some 11) ∷ acquires (async 3) none ∷ [])
      (construct 2 (some 10 ∷ none ∷ [])))
run-construct-IsSettled_example =
    run-construct-IsSettled 2 (some 10 ∷ none ∷ [])
      (acquires (async 1) none ∷ acquires (async 2) (some 11) ∷ acquires (async 3) none ∷ [])
      (omega arith)

-- One connection: a thread has it, another one waits, and the first gives it back to the second.
abbrev taken : System
taken =
    give (blocking 1) (started 1 (some 10 ∷ [])) (enter (blocking 1) (construct 1 (some 10 ∷ [])))

abbrev asked : System
asked = give (blocking 2) taken (enter (blocking 2) taken.pool)

abbrev served : System
served = end_wait 2 (give_back true 10 asked) (wake 2 (reset true 10 asked.pool))

reached : Reach (started 1 (some 10 ∷ [])) served
unfolding enter construct reset wake
reached =
    next
      (next
        (next
          (next here (
            demiplane.Pool.Blocking.Clients.Step.enters (blocking 1) (started 1 (some 10 ∷ []))
              (refl, refl)))
          (demiplane.Pool.Blocking.Clients.Step.enters (blocking 2) taken (refl, refl)))
        (demiplane.Pool.Blocking.Clients.Step.gives_back true 10 asked (omega arith)))
      (demiplane.Pool.Blocking.Clients.Step.wakes 2 (give_back true 10 asked) (omega arith))

construct-Reach-Owned_example : Owned served
construct-Reach-Owned_example = construct-Reach-Owned 1 (some 10 ∷ []) (refl, tt) reached

served_lent : served.lent ≡ 10 ∷ []
unfolding enter construct reset wake
served_lent = refl

active_count-construct_run :
    (active_count served.pool ≡ 1) × (free_count served.pool + active_count served.pool ≡ 1)
unfolding enter construct reset wake
active_count-construct_run = active_count-construct 1 (some 10 ∷ []) (refl, tt) reached

two_connect_run :
    let first = enter try_now quiet in
    let second = enter try_now first.1 in
    let one = connected try_now (some 11) second.1 in
    let two = connected try_now (some 12) one.1 in
    (first.0 ≡ connecting)
    × (second.0 ≡ connecting)
    × (one.0 ≡ holder 11)
    × (two.0 ≡ holder 12)
    × (two.1.created ≡ 3)
two_connect_run = two_connect quiet 11 12 refl refl refl

sleeps_beside_free_run :
    let asked = enter (blocking 5) quiet in
    let released = return_holder 10 asked.1 in
    let slept = connected (blocking 5) none released in
    (asked.0 ≡ connecting)
    × (slept.0 ≡ waiting)
    × (slept.1.free ≡ 10 ∷ [])
    × (slept.1.waiters ≡ sync_waiter 5 ∷ [])
sleeps_beside_free_run = sleeps_beside_free quiet 5 10 refl refl refl (omega arith)

drop_dead_strands_run :
    ((drop_dead 10 queued).created < (drop_dead 10 queued).capacity)
    × ((drop_dead 10 queued).waiters ≡ sync_waiter 2 ∷ async_waiter 3 ∷ [])
drop_dead_strands_run = drop_dead_strands queued 10 refl refl (omega arith) (omega arith)

wakes_with_dropped_run :
    let stopped = finish_shutdown (begin_shutdown (return_holder 10 queued)).1 in
    ((wake 2 stopped).0 ≡ holder 10) × (stopped.holders ≡ [])
wakes_with_dropped_run = wakes_with_dropped queued 2 10 (async_waiter 3 ∷ []) refl refl

connects_after_shutdown_run :
    let stopped = finish_shutdown (begin_shutdown queued).1 in
    let late = connected (blocking 5) (some 11) stopped in
    (late.0 ≡ holder 11) × (late.1.holders ≡ 11 ∷ []) × (late.1.shutdown ≡ true)
connects_after_shutdown_run = connects_after_shutdown queued (blocking 5) 11 (λ w e. cc)

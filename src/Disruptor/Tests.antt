-- ===== src/Disruptor/Tests.antt =====
-- A witness for the blocking wait.
use demiplane.Prelude.{◌≡◌, ◌<◌, [], ◌∷◌}
use demiplane.Disruptor.Waiting.{claims, signals, waits, asleep, parking, wait_run, wait_run_misses}

wait_run_misses_example :
    ((wait_run 4
        (claims ∷ signals ∷ waits ∷ claims ∷ waits ∷ [])
        (record { cursor = 4; waiter = parking })).waiter
      ≡ asleep)
    × (4
        < (wait_run 4
            (claims ∷ signals ∷ waits ∷ claims ∷ waits ∷ [])
            (record { cursor = 4; waiter = parking })).cursor)
wait_run_misses_example = wait_run_misses 4 (claims ∷ waits ∷ []) (tt, (tt, tt))

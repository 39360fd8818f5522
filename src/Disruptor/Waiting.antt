-- ===== src/Disruptor/Waiting.antt =====
-- common/multithread/disruptor/wait_strategies/blocking.hpp: BlockingWaitStrategy::wait_for for one
-- consumer, and the producers that advance the cursor and signal. The cursor is counted from 0, as
-- in Disruptor: sequence `n` is claimed once the cursor is above `n`.
use demiplane.Prelude.{ℕ, ◌+◌, ◌≤◌, ◌<◌, ◌≡◌, refl, List, [], ◌∷◌, ltb, if◌then◌else◌, All, arith}

-- Before the first look, with the mutex before a look, after a look that found too little, in
-- `cv_.wait`, and back with the cursor that was read.
pub data Waiter : Type 0 where
  looking locked parking asleep : Waiter
  returned : ℕ → Waiter

pub record Blocking : Type 0 where
  pub cursor : ℕ
  pub waiter : Waiter

-- The next access of wait_for.
unfoldable pub wait_round : ℕ → Waiter → ℕ → Waiter
wait_round n looking cursor = if ltb n cursor then returned cursor else locked
wait_round n locked cursor = if ltb n cursor then returned cursor else parking
wait_round n parking cursor = asleep
wait_round n asleep cursor = asleep
wait_round n (returned c) cursor = returned c

-- `cv_.notify_one`, which does not take the mutex.
unfoldable pub signal : Waiter → Waiter
signal looking = looking
signal locked = locked
signal parking = parking
signal asleep = locked
signal (returned c) = returned c

-- A producer claims, a producer publishes and signals, the consumer goes on, it wakes by itself.
pub data WaitStep : Type 0 where
  claims signals waits wakes : WaitStep

unfoldable pub wait_step : ℕ → WaitStep → Blocking → Blocking
wait_step n claims b = record b { cursor = b.cursor + 1 }
wait_step n signals b = record b { waiter = signal b.waiter }
wait_step n waits b = record b { waiter = wait_round n b.waiter b.cursor }
wait_step n wakes b = record b { waiter = signal b.waiter }

unfoldable pub wait_run : ℕ → List WaitStep → Blocking → Blocking
wait_run n [] b = b
wait_run n (a ∷ rest) b = wait_run n rest (wait_step n a b)

-- Neither a signal nor a spurious wakeup.
abbrev pub Quiet : WaitStep → Type 0
Quiet claims = Unit
Quiet signals = ⊥
Quiet waits = Unit
Quiet wakes = ⊥

sleeps_on :
    (n : ℕ) (l : List WaitStep) (b : Blocking)
    → All Quiet l
    → b.waiter ≡ asleep
    → (wait_run n l b).waiter ≡ asleep
unfolding wait_run wait_step wait_round
sleeps_on n [] b q h = h
sleeps_on n (claims ∷ l) b q h = sleeps_on n l _ q.1 h
sleeps_on n (signals ∷ l) b q h = absurd q.0
sleeps_on n (waits ∷ l) b q h = sleeps_on n l _ q.1 (rw h refl)
sleeps_on n (wakes ∷ l) b q h = absurd q.0

cursor_grows : (n : ℕ) (l : List WaitStep) (b : Blocking) → b.cursor ≤ (wait_run n l b).cursor
unfolding wait_run wait_step
cursor_grows n [] b = omega arith
cursor_grows n (claims ∷ l) b = omega (arith, cursor_grows n l (wait_step n claims b))
cursor_grows n (signals ∷ l) b = cursor_grows n l (wait_step n signals b)
cursor_grows n (waits ∷ l) b = cursor_grows n l (wait_step n waits b)
cursor_grows n (wakes ∷ l) b = cursor_grows n l (wait_step n wakes b)

-- A signal can be lost: whenever the waiter has found too little and is about to sleep, a producer
-- that then claims the sequence and signals leaves it to fall asleep with the sequence there, and it
-- sleeps on until another signal or a spurious wakeup comes, whatever else happens.
pub wait_run_misses :
    (n : ℕ) (l : List WaitStep)
    → All Quiet l
    → let b = wait_run n (claims ∷ signals ∷ waits ∷ l) (record { cursor = n; waiter = parking }) in
      (b.waiter ≡ asleep) × (n < b.cursor)
unfolding wait_run wait_step signal wait_round
wait_run_misses n l q =
    let b : Blocking = record { cursor = n + 1; waiter = asleep } in
    (sleeps_on n l b q refl, omega (arith, cursor_grows n l b))

-- ===== src/Logger.antt =====
-- common/scroll/logger: the threads that log (Logger::log, StreamProxy, Logger::shutdown in
-- include/logger.hpp and source/logger.cpp) and the thread of Logger::consumer_loop, over one
-- DynamicDisruptor. Each step is one access of a shared atomic, so that any interleaving of the
-- threads is a list of steps. A LogEvent is what it carries and its shutdown flag. The batches
-- that go to the sinks are `collected`, in order and without their borders; `claims` is a log of the
-- requests in the order in which their sequences were claimed, which the program does not keep.
pub mod Invariant
mod Logging
mod Scanning
mod Reading
mod ConsumerLoop
mod Halting
pub mod Runs
pub mod Shutdown
pub mod Progress
mod Tests
use Prim.Native.Nat.{ℕ}
use demiplane.Prelude.{
  zero, suc, ◌+◌, Bool, true, false, Option, none, some, List, [], ◌∷◌, ◌++◌, ltb, leb, ◌==◌,
  if◌then◌else◌, update,
}
use demiplane.Prelude.Powers.{place}
use demiplane.Disruptor.{
  Sequencer, open_sequencer, would_wrap, compare_and_set, publish, is_available, mark_consumed,
  update_gating_sequence,
}

pub record LogEvent {ℓ} (A : Type ℓ) : Type ℓ where
  pub message : A
  pub shutdown_signal : Bool

-- What a thread calls: log, or shutdown.
pub data LogCall {ℓ} (A : Type ℓ) : Type ℓ where
  log : A → LogCall A
  shutdown : LogCall A

-- Where the call of a thread stands: `next` begins its loop, has read the cursor, has seen room in
-- the buffer, has claimed a sequence; the event is in the ring.
pub data Producer {ℓ} (A : Type ℓ) : Type ℓ where
  idle : Producer A
  claiming : LogCall A → Producer A
  loaded ready claimed : ℕ → LogCall A → Producer A
  written : ℕ → Producer A

-- Where consumer_loop stands; its first number is the sequence that it will read next, and the
-- bounds are one past the source's `available`; `waiting` is inside wait_for.
pub data Consumer : Type 0 where
  polling waiting : ℕ → Consumer
  scanning : ℕ → ℕ → ℕ → Consumer
  draining : ℕ → ℕ → Consumer
  marking : ℕ → ℕ → Bool → Consumer
  stopped : ℕ → Consumer

pub record Logger {ℓ} (A : Type ℓ) : Type ℓ where
  pub sequencer : Sequencer
  pub ring_buffer : ℕ → LogEvent A
  pub producers : ℕ → Producer A
  pub consumer : Consumer
  pub running : Bool
  pub collected : List A
  pub claims : List (LogCall A)

-- A thread makes a call, goes on, the consumer goes on, or the wait strategy lets its wait_for return.
-- When it does is the strategy's choice: at any time, for no reason, or never.
pub data Step {ℓ} (A : Type ℓ) : Type ℓ where
  begin : ℕ → LogCall A → Step A
  advance : ℕ → Bool → Step A
  consume wake : Step A

module _ {ℓ} {A : Type ℓ} where
  -- What the call writes into its slot; shutdown writes the flag only.
  unfoldable pub write_event : LogCall A → LogEvent A → LogEvent A
  write_event (log m) e = record { message = m; shutdown_signal = false }
  write_event shutdown e = record e { shutdown_signal = true }

  unfoldable pub become : ℕ → Producer A → Logger A → Logger A
  become p c x = record x { producers = update x.producers p c }

  -- shutdown returns at once where the logger does not run.
  unfoldable pub begin_call : ℕ → LogCall A → Logger A → Logger A
  begin_call p (log m) x = become p (claiming (log m)) x
  begin_call p shutdown x = if x.running then become p (claiming shutdown) x else x

  -- A thread makes one call at a time.
  unfoldable pub begin_from : Producer A → ℕ → LogCall A → Logger A → Logger A
  begin_from idle p r x = begin_call p r x
  begin_from (claiming k) p r x = x
  begin_from (loaded c k) p r x = x
  begin_from (ready c k) p r x = x
  begin_from (claimed s k) p r x = x
  begin_from (written s) p r x = x

  -- The exchange of `next`: the loop starts again where it fails.
  unfoldable pub try_claim : Bool → ℕ → LogCall A → ℕ → Logger A → Logger A
  try_claim spurious c r p x =
      let (won, s) = compare_and_set spurious c (c + 1) x.sequencer in
      if won
      then become p (claimed c r) (record x { sequencer = s; claims = x.claims ++ r ∷ [] })
      else become p (claiming r) x

  unfoldable pub write_slot : ℕ → LogCall A → ℕ → Logger A → Logger A
  write_slot s r p x =
      let i = place x.sequencer.buffer_size s in
      become p (written s)
        (record x { ring_buffer = update x.ring_buffer i (write_event r (x.ring_buffer i)) })

  -- The next access of a thread.
  unfoldable pub proceed : Producer A → ℕ → Bool → Logger A → Logger A
  proceed idle p spurious x = x
  proceed (claiming r) p spurious x = become p (loaded x.sequencer.cursor r) x
  proceed (loaded c r) p spurious x =
      if would_wrap c 1 x.sequencer then x else become p (ready c r) x
  proceed (ready c r) p spurious x = try_claim spurious c r p x
  proceed (claimed s r) p spurious x = write_slot s r p x
  proceed (written s) p spurious x = become p idle (record x { sequencer = publish s x.sequencer })

  unfoldable pub turn : Consumer → Logger A → Logger A
  turn c x = record x { consumer = c }

  -- After the scan: wait, or drain.
  unfoldable pub found : ℕ → ℕ → Logger A → Logger A
  found n available x =
      if leb available n then turn (waiting n) x else turn (draining n available) x

  -- A round of get_highest_published.
  unfoldable pub scan_round : ℕ → ℕ → ℕ → Logger A → Logger A
  scan_round n at hi x =
      if ltb at hi
      then if is_available at x.sequencer then turn (scanning n (at + 1) hi) x else found n at x
      else found n hi x

  -- An event is moved into the batch; the shutdown event is not.
  unfoldable pub drain_event : ℕ → ℕ → LogEvent A → Logger A → Logger A
  drain_event n available event x =
      if event.shutdown_signal
      then turn (marking n available true) x
      else turn (marking n available false)
          (record x { collected = x.collected ++ event.message ∷ [] })

  -- A read of the ring, or the end of the batch.
  unfoldable pub drain_round : ℕ → ℕ → Logger A → Logger A
  drain_round n available x =
      if ltb n available
      then drain_event n available (x.ring_buffer (place x.sequencer.buffer_size n)) x
      else turn (polling n) (record x { sequencer = update_gating_sequence n x.sequencer })

  -- mark_consumed; after the shutdown event the loop is left.
  unfoldable pub mark : ℕ → ℕ → Bool → Logger A → Logger A
  mark n available stop x =
      let y = record x { sequencer = mark_consumed n x.sequencer } in
      if stop
      then turn (draining (n + 1) (n + 1)) (record y { running = false })
      else turn (draining (n + 1) available) y

  -- wait_for returns, whose result is not used, and the loop goes on.
  unfoldable pub return_from_wait : Consumer → Logger A → Logger A
  return_from_wait (waiting n) x = turn (polling n) x
  return_from_wait (polling n) x = x
  return_from_wait (scanning n at hi) x = x
  return_from_wait (draining n available) x = x
  return_from_wait (marking n available stop) x = x
  return_from_wait (stopped n) x = x

  -- The next access of the consumer; there is none while it waits.
  unfoldable pub consumer_round : Consumer → Logger A → Logger A
  consumer_round (polling n) x =
      if x.running then turn (scanning n n x.sequencer.cursor) x else turn (stopped n) x
  consumer_round (waiting n) x = x
  consumer_round (scanning n at hi) x = scan_round n at hi x
  consumer_round (draining n available) x = drain_round n available x
  consumer_round (marking n available stop) x = mark n available stop x
  consumer_round (stopped n) x = x

  unfoldable pub step : Step A → Logger A → Logger A
  step (begin p r) x = begin_from (x.producers p) p r x
  step (advance p spurious) x = proceed (x.producers p) p spurious x
  step consume x = consumer_round x.consumer x
  step wake x = return_from_wait x.consumer x

  unfoldable pub run : List (Step A) → Logger A → Logger A
  run [] x = x
  run (a ∷ rest) x = run rest (step a x)

  -- A logger with no calls yet, over a new disruptor whose slots are `T{}`.
  unfoldable pub start_logger : LogEvent A → Sequencer → Logger A
  start_logger blank s = record {
    sequencer = s;
    ring_buffer = λ i. blank;
    producers = λ p. idle;
    consumer = polling 0;
    running = true;
    collected = [];
    claims = [];
  }

  unfoldable pub start_over : LogEvent A → Option Sequencer → Option (Logger A)
  start_over blank none = none
  start_over blank (some s) = some (start_logger blank s)

  -- The constructor, which throws where the sequencer's does.
  unfoldable pub open_logger : ℕ → LogEvent A → Option (Logger A)
  open_logger size blank = start_over blank (open_sequencer size 0)

-- ===== src/Logger/Runs.antt =====
-- Any interleaving of the threads.
use demiplane.Prelude.{
  ℕ, ◌+◌, ◌≤◌, ◌<◌, ◌≡◌, refl, sym, false, not, ◌&&◌, Option, none, some, List, [], ◌∷◌, ◌==◌,
  Bool-cases, inl, inr, length, arith,
}
use Prim.Native.Nat.{bit_and, ◌-◌}
use mathlib.Core.Path.{subst}
use demiplane.Prelude.Powers.{IsPower, bit_and-IsPower, place, place-injective}
use demiplane.Disruptor.{Sequencer, open_sequencer}
use demiplane.Logger.{
  LogEvent, LogCall, Producer, idle, claiming, loaded, ready, claimed, written, Logger, Step, begin,
  advance, consume, wake, step, run, open_logger, start_logger, start_over, begin_from,
}
use demiplane.Logger.Invariant.{
  read_count_le, position, read_count, holds, messages, take, IsConsistent,
}
use demiplane.Logger.Logging.{proceed-IsConsistent, begin_call-IsConsistent}
use demiplane.Logger.ConsumerLoop.{consumer_round-IsConsistent, return_from_wait-IsConsistent}

pub some_injective {ℓ} : {A : Type ℓ} {a b : A} → some a ≡ some b → a ≡ b
some_injective h = cc

-- The constructor of the sequencer accepts powers of two only.
open_sequencer-IsPower :
    (size initial : ℕ) {s : Sequencer}
    → open_sequencer size initial ≡ some s
    → IsPower size
      × (s ≡ record {
        cursor = initial;
        gating_sequence = initial;
        buffer_size = size;
        available_flags = λ i. false;
      })
unfolding open_sequencer
open_sequencer-IsPower size initial h =
    elim (Bool-cases (not (size == 0) && (bit_and size (size - 1) == 0))) [
      | inl e ↦ (
        (bit_and-IsPower size (ground (arith, e))).0 (ground (arith, e)),
        sym (some_injective (simp e at h)),
      )
      | inr e ↦ absurd (cc (simp e at h))
    ]

module _ {ℓ} {A : Type ℓ} where
  begin_from-IsConsistent :
      (x : Logger A)
      → IsConsistent x
      → (p : ℕ) (c : Producer A) (r : LogCall A) → IsConsistent (begin_from c p r x)
  unfolding begin_from
  begin_from-IsConsistent x i p idle r = begin_call-IsConsistent x i p r
  begin_from-IsConsistent x i p (claiming k) r = i
  begin_from-IsConsistent x i p (loaded c k) r = i
  begin_from-IsConsistent x i p (ready c k) r = i
  begin_from-IsConsistent x i p (claimed s k) r = i
  begin_from-IsConsistent x i p (written s) r = i

  pub step-IsConsistent : (a : Step A) (x : Logger A) → IsConsistent x → IsConsistent (step a x)
  unfolding step
  step-IsConsistent (begin p r) x i = begin_from-IsConsistent x i p (x.producers p) r
  step-IsConsistent (advance p spurious) x i =
      proceed-IsConsistent x i p (x.producers p) refl spurious
  step-IsConsistent consume x i = consumer_round-IsConsistent x i x.consumer refl
  step-IsConsistent wake x i = return_from_wait-IsConsistent x i x.consumer refl

  run-IsConsistent : (l : List (Step A)) (x : Logger A) → IsConsistent x → IsConsistent (run l x)
  unfolding run
  run-IsConsistent [] x i = i
  run-IsConsistent (a ∷ l) x i = run-IsConsistent l (step a x) (step-IsConsistent a x i)

  start_logger-IsConsistent :
      (size : ℕ) (blank : LogEvent A)
      → IsPower size
      → IsConsistent (
          start_logger blank (record {
            cursor = 0;
            gating_sequence = 0;
            buffer_size = size;
            available_flags = λ i. false;
          }))
  unfolding start_logger messages take
  start_logger-IsConsistent size blank p = record {
    power = p;
    gated = omega arith;
    behind = omega arith;
    bounded = omega arith;
    counted = refl;
    sound = λ q. record {
      room = λ c r e. absurd cc;
      held = λ s e. absurd cc;
      asked = λ s r e. absurd cc;
      wrote = λ s e. absurd cc;
    };
    unique = λ a b s e f. absurd cc;
    filled = λ s a b e. absurd cc;
    seen = tt;
    in_order = refl;
  }

  start_over-IsConsistent :
      (size : ℕ) (blank : LogEvent A) {x : Logger A} (o : Option Sequencer)
      → open_sequencer size 0 ≡ o
      → start_over blank o ≡ some x
      → IsConsistent x
  unfolding start_over
  start_over-IsConsistent size blank none e h = absurd cc
  start_over-IsConsistent size blank (some s) e h =
      let (power, shape) = open_sequencer-IsPower size 0 e in
      subst IsConsistent (some_injective h) (rw shape (start_logger-IsConsistent size blank power))

  pub open_logger-IsConsistent :
      (size : ℕ) (blank : LogEvent A) {x : Logger A}
      → open_logger size blank ≡ some x
      → IsConsistent x
  unfolding open_logger
  open_logger-IsConsistent size blank h =
      start_over-IsConsistent size blank (open_sequencer size 0) refl h

  module _ (size : ℕ) (blank : LogEvent A) {x : Logger A} (opened : open_logger size blank ≡ some x)
      (l : List (Step A)) where
    pub consistent : IsConsistent (run l x)
    consistent = run-IsConsistent l x (open_logger-IsConsistent size blank opened)

    -- Whatever the interleaving of the threads that log and of the consumer, the messages that the
    -- consumer has collected are those of the first claims, in the order of the claims and without
    -- a gap: as many claims as it has read, which is no more than are claimed.
    pub run-collected :
        ((run l x).collected ≡ messages (take (read_count (run l x).consumer) (run l x).claims))
        × (read_count (run l x).consumer ≤ length (run l x).claims)
    run-collected =
        let i = consistent in
        (
          i.in_order,
          omega (
            arith,
            i.counted,
            read_count_le (run l x).consumer (run l x).sequencer i.seen i.behind,
          ),
        )

    -- Whatever the interleaving, no two threads hold the same claimed sequence, and the slot that a
    -- thread holds is not the slot of another sequence that is claimed and not consumed yet, so that
    -- no event is overwritten before it is read; no more sequences are claimed and not released
    -- than the buffer has slots.
    pub run-holds :
        (p s : ℕ)
        → holds ((run l x).producers p) ≡ some s
        → ((q : ℕ) → holds ((run l x).producers q) ≡ some s → q ≡ p)
          × ((t : ℕ)
              → position (run l x).consumer ≤ t
              → t < (run l x).sequencer.cursor
              → place (run l x).sequencer.buffer_size t ≡ place (run l x).sequencer.buffer_size s
              → t ≡ s)
          × ((run l x).sequencer.cursor
              ≤ (run l x).sequencer.gating_sequence + (run l x).sequencer.buffer_size)
    run-holds p s h =
        let i = consistent in
        let (low, high, _) = (i.sound p).held s h in
        (
          λ q k. i.unique q p s k h,
          λ t a b e.
              place-injective i.power (position (run l x).consumer) t s a
                (omega (arith, b, i.bounded, i.gated)) low (omega (arith, i.bounded, i.gated)) e,
          i.bounded,
        )

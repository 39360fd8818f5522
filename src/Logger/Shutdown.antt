-- ===== src/Logger/Shutdown.antt =====
-- What the consumer has done when it stops: everything claimed before the shutdown.
use demiplane.Prelude.{
  ℕ, suc, ◌+◌, ◌<◌, ◌≡◌, ◌∙◌, refl, sym, ap, Bool, true, false, Option, none, some, List, [], ◌∷◌,
  ◌++◌, ltb, ltb→lt, leb, Bool-cases, inl, inr, get_elem?, arith, append-nil,
}
use demiplane.Disruptor.{
  open_sequencer, Sequencer, is_available, mark_consumed, update_gating_sequence,
}
use demiplane.Logger.{
  LogEvent, shutdown, Consumer, polling, waiting, scanning, draining, marking, stopped, Logger,
  Step, begin, advance, consume, wake, step, run, open_logger, start_over, start_logger, turn,
  found, scan_round, drain_event, drain_round, mark, consumer_round, return_from_wait,
}
use demiplane.Logger.Reading.{drained-asked}
use demiplane.Logger.Runs.{
  step-IsConsistent, open_logger-IsConsistent, run-collected, some_injective,
}
use demiplane.Logger.Invariant.{read_count, messages, take, slot, IsConsistent, messages-take-suc}
use demiplane.Logger.Halting.{
  Done, IsHalting, Extends-IsHalting, proceed-Extends, begin_from-Extends,
}

module _ {ℓ} {A : Type ℓ} (x : Logger A) (c : IsConsistent x) (i : IsHalting x) where
  -- Where the loop goes on, the logger runs.
  still_running : (Done x.consumer → ⊥) → x.running ≡ true
  still_running busy = elim (Bool-cases x.running) [
    | inl e ↦ e
    | inr e ↦ absurd (busy (i.ended e).3)
  ]

  -- A turn of a logger that runs.
  turn-IsHalting :
      (d : Consumer) (q : Sequencer) (l : List A)
      → x.running ≡ true
      → ((n available : ℕ) → d ≡ marking n available true → get_elem? x.claims n ≡ some shutdown)
      → ((n : ℕ) → d ≡ stopped n → ⊥)
      → IsHalting (turn d (record x { sequencer = q; collected = l }))
  unfolding turn
  turn-IsHalting d q l e marked open_ = record {
    marked = marked;
    ended = λ h. absurd cc;
    halted = λ n h. absurd (open_ n h);
  }

  -- A turn that leaves what has been read.
  rest-IsHalting :
      (d : Consumer) (q : Sequencer)
      → read_count d ≡ read_count x.consumer
      → Done d
      → ((n : ℕ) → d ≡ stopped n → x.running ≡ false)
      → IsHalting (turn d (record x { sequencer = q }))
  unfolding turn
  rest-IsHalting d q e done halts = record {
    marked = λ n a h. absurd (rw h at done);
    ended = λ h. let (n, at, count, _) = i.ended h in (n, at, e ∙ count, done);
    halted = halts;
  }

  found-IsHalting : (n available : ℕ) → x.running ≡ true → IsHalting (found n available x)
  unfolding found
  found-IsHalting n available go = elim (Bool-cases (leb available n)) [
    | inl h ↦ rw h (
        turn-IsHalting (waiting n) x.sequencer x.collected go (λ m a e. absurd cc) λ m e. absurd cc)
    | inr h ↦ rw h (
        turn-IsHalting (draining n available) x.sequencer x.collected go (λ m a e. absurd cc)
          λ m e. absurd cc)
  ]

  scan_round-IsHalting :
      (n at hi : ℕ) → x.consumer ≡ scanning n at hi → IsHalting (scan_round n at hi x)
  unfolding scan_round
  scan_round-IsHalting n at hi h =
      let go = still_running λ d. (rw h at d) in
      elim (Bool-cases (ltb at hi)) [
        | inl more ↦ elim (Bool-cases (is_available at x.sequencer)) [
          | inl set ↦
              rw (more, set)
                (turn-IsHalting (scanning n (at + 1) hi) x.sequencer x.collected go
                  (λ m a e. absurd cc) λ m e. absurd cc)
          | inr gap ↦ rw (more, gap) (found-IsHalting n at go)
        ]
        | inr done ↦ rw done (found-IsHalting n hi go)
      ]

  drain_event-IsHalting :
      (n available : ℕ)
      → x.consumer ≡ draining n available
      → n < available
      → IsHalting (drain_event n available (slot n x) x)
  unfolding drain_event
  drain_event-IsHalting n available h more =
      let go = still_running λ d. absurd (omega (arith, (rw h at d))) in
      let asked = drained-asked x c n available h more in
      elim (Bool-cases (slot n x).shutdown_signal) [
        | inl stop ↦ simp stop (
            turn-IsHalting (marking n available true) x.sequencer x.collected go
              (λ m a e. let same : n ≡ m = cc in rw (← same) (simp stop at asked)) λ m e. absurd cc)
        | inr on ↦ simp on (
            turn-IsHalting (marking n available false) x.sequencer
              (x.collected ++ (slot n x).message ∷ []) go (λ m a e. absurd cc) λ m e. absurd cc)
      ]

  drain_round-IsHalting :
      (n available : ℕ) → x.consumer ≡ draining n available → IsHalting (drain_round n available x)
  unfolding drain_round
  drain_round-IsHalting n available h = elim (Bool-cases (ltb n available)) [
    | inl more ↦ rw more (drain_event-IsHalting n available h (ltb→lt _ _ more))
    | inr done ↦ rw done (
        rest-IsHalting (polling n) (update_gating_sequence n x.sequencer) (rw h refl) tt
          λ m e. absurd cc)
  ]

  mark-IsHalting :
      (n available : ℕ) (stop : Bool)
      → x.consumer ≡ marking n available stop
      → IsHalting (mark n available stop x)
  unfolding mark turn
  mark-IsHalting n available false h =
      unfold turn in
      turn-IsHalting (draining (n + 1) available) (mark_consumed n x.sequencer) x.collected
        (still_running λ d. (rw h at d)) (λ m a e. absurd cc) λ m e. absurd cc
  mark-IsHalting n available true h = record {
    marked = λ m a e. absurd cc;
    ended = λ _. (n, i.marked n available h, omega arith, omega arith);
    halted = λ m e. refl;
  }

  consumer_round-IsHalting : (d : Consumer) → x.consumer ≡ d → IsHalting (consumer_round d x)
  unfolding consumer_round
  consumer_round-IsHalting (polling n) h = elim (Bool-cases x.running) [
    | inl go ↦ simp go (
        turn-IsHalting (scanning n n x.sequencer.cursor) x.sequencer x.collected go
          (λ m a e. absurd cc) λ m e. absurd cc)
    | inr no_ ↦ simp no_ (rest-IsHalting (stopped n) x.sequencer (rw h refl) tt λ m e. no_)
  ]
  consumer_round-IsHalting (waiting n) h = i
  consumer_round-IsHalting (scanning n at hi) h = scan_round-IsHalting n at hi h
  consumer_round-IsHalting (draining n available) h = drain_round-IsHalting n available h
  consumer_round-IsHalting (marking n available stop) h = mark-IsHalting n available stop h
  consumer_round-IsHalting (stopped n) h = i

  return_from_wait-IsHalting : (d : Consumer) → x.consumer ≡ d → IsHalting (return_from_wait d x)
  unfolding return_from_wait
  return_from_wait-IsHalting (waiting n) h =
      rest-IsHalting (polling n) x.sequencer (rw h refl) tt λ m e. absurd cc
  return_from_wait-IsHalting (polling n) h = i
  return_from_wait-IsHalting (scanning n at hi) h = i
  return_from_wait-IsHalting (draining n available) h = i
  return_from_wait-IsHalting (marking n available stop) h = i
  return_from_wait-IsHalting (stopped n) h = i

module _ {ℓ} {A : Type ℓ} where
  step-IsHalting : (a : Step A) (x : Logger A) → IsConsistent x → IsHalting x → IsHalting (step a x)
  unfolding step
  step-IsHalting (begin p r) x c i = Extends-IsHalting (begin_from-Extends (x.producers p) p r x) i
  step-IsHalting (advance p spurious) x c i =
      Extends-IsHalting (proceed-Extends (x.producers p) p spurious x) i
  step-IsHalting consume x c i = consumer_round-IsHalting x c i x.consumer refl
  step-IsHalting wake x c i = return_from_wait-IsHalting x c i x.consumer refl

  run-IsHalting :
      (l : List (Step A)) (x : Logger A) → IsConsistent x → IsHalting x → IsHalting (run l x)
  unfolding run
  run-IsHalting [] x c i = i
  run-IsHalting (a ∷ l) x c i =
      run-IsHalting l (step a x) (step-IsConsistent a x c) (step-IsHalting a x c i)

  start_over-running :
      (blank : LogEvent A) (o : Option Sequencer) {x : Logger A}
      → start_over blank o ≡ some x
      → (x.consumer ≡ polling 0) × (x.running ≡ true)
  unfolding start_over start_logger
  start_over-running blank none h = absurd cc
  start_over-running blank (some s) h = (
    ap (λ (y : Logger A). y.consumer) (sym (some_injective h)),
    ap (λ (y : Logger A). y.running) (sym (some_injective h)),
  )

  open_logger-IsHalting :
      (size : ℕ) (blank : LogEvent A) {x : Logger A} → open_logger size blank ≡ some x → IsHalting x
  unfolding open_logger
  open_logger-IsHalting size blank h =
      let (at, go) = start_over-running blank (open_sequencer size 0) h in
      record { marked = λ n a e. absurd cc; ended = λ e. absurd cc; halted = λ n e. absurd cc }

  -- Once the consumer has stopped, the last claim that it has read is a shutdown, and it has
  -- collected the messages of all claims before that one, in their order: no event claimed before the
  -- shutdown is lost.
  pub run-stopped :
      (size : ℕ) (blank : LogEvent A) {x : Logger A}
      → open_logger size blank ≡ some x
      → (l : List (Step A)) (n : ℕ) → (run l x).consumer ≡ stopped n
      → (m : ℕ) × (n ≡ suc m)
        × (get_elem? (run l x).claims m ≡ some shutdown)
        × ((run l x).collected ≡ messages (take m (run l x).claims))
  unfolding messages
  run-stopped size blank {x} opened l n h =
      let y = run l x in
      let i =
        run-IsHalting l x (open_logger-IsConsistent size blank opened)
          (open_logger-IsHalting size blank opened) in
      let (m, at, count, _) = i.ended (i.halted n h) in
      let same : n ≡ suc m = (rw h refl) ∙ count in
      let all = (run-collected size blank opened l).0 in
      (
        m,
        same,
        at,
        all
            ∙ ap (λ (k : ℕ). messages (take k y.claims)) count
            ∙ messages-take-suc y.claims m shutdown at
            ∙ append-nil (messages (take m y.claims)),
      )

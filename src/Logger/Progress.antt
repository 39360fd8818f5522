-- ===== src/Logger/Progress.antt =====
-- The consumer gets to the end of what is published.
use demiplane.Prelude.{
  ℕ, zero, suc, ◌-◌, ◌+◌, ◌≤◌, ◌<◌, ◌≡◌, ◌∙◌, ◌⊎◌, refl, ap, true, false, some, List, [], ◌∷◌, ltb,
  ltb→lt, Bool-cases, inl, inr, length, arith,
}
use demiplane.Disruptor.{is_available, mark_consumed, update_gating_sequence}
use demiplane.Logger.{
  LogEvent, LogCall, Consumer, polling, waiting, scanning, draining, marking, stopped, Logger, Step,
  consume, step, run, open_logger, turn, found, scan_round, drain_event, drain_round, mark,
  consumer_round,
}
use demiplane.Logger.Invariant.{read_count, messages, take, flag, slot, IsConsistent}
use demiplane.Logger.Runs.{step-IsConsistent, consistent}

module _ {ℓ} {A : Type ℓ} where
  -- So many accesses of the consumer, with the other threads at rest.
  unfoldable pub rounds : ℕ → Logger A → Logger A
  rounds zero x = x
  rounds (suc j) x = rounds j (step consume x)

  module _ (x : Logger A) where
    cursor_kept : (c : Consumer) → (consumer_round c x).sequencer.cursor ≡ x.sequencer.cursor
    unfolding consumer_round scan_round found drain_round drain_event mark turn mark_consumed
        update_gating_sequence
    cursor_kept (polling n) = ground arith
    cursor_kept (waiting n) = refl
    cursor_kept (scanning n at hi) = ground arith
    cursor_kept (draining n available) = ground arith
    cursor_kept (marking n available stop) = ground arith
    cursor_kept (stopped n) = refl

    drain_step :
        (n available : ℕ)
        → x.consumer ≡ draining n available
        → n < available
        → (step consume x).consumer ≡ marking n available (slot n x).shutdown_signal
    unfolding step consumer_round drain_round drain_event turn
    drain_step n available h more = ground (arith, h)

    end_step :
        (n available : ℕ)
        → x.consumer ≡ draining n available
        → available ≤ n
        → ((step consume x).consumer ≡ polling n) × ((step consume x).running ≡ x.running)
    unfolding step consumer_round drain_round turn
    end_step n available h done = ground (arith, h)

    mark_step :
        (n available : ℕ)
        → x.consumer ≡ marking n available false
        → (step consume x).consumer ≡ draining (n + 1) available
    unfolding step consumer_round mark turn
    mark_step n available h = ground (arith, h)

    stop_step :
        (n available : ℕ)
        → x.consumer ≡ marking n available true
        → ((step consume x).consumer ≡ draining (n + 1) (n + 1))
          × ((step consume x).running ≡ false)
    unfolding step consumer_round mark turn
    stop_step n available h = ground (arith, h)

    leave_step :
        (n : ℕ) → x.consumer ≡ polling n → x.running ≡ false → (step consume x).consumer ≡ stopped n
    unfolding step consumer_round turn
    leave_step n h e = ground (arith, h)

    scan_step :
        (n at hi : ℕ)
        → x.consumer ≡ scanning n at hi
        → at < hi
        → flag at x.sequencer ≡ true
        → step consume x ≡ turn (scanning n (at + 1) hi) x
    unfolding step consumer_round scan_round is_available
    scan_step n at hi h more set = ground (arith, h)

    found_step :
        (n at hi : ℕ)
        → x.consumer ≡ scanning n at hi
        → hi ≤ at
        → n < hi
        → (step consume x).consumer ≡ draining n hi
    unfolding step consumer_round scan_round found turn
    found_step n at hi h done more = ground (arith, h)

    look_step :
        (n : ℕ)
        → x.consumer ≡ polling n
        → x.running ≡ true
        → step consume x ≡ turn (scanning n n x.sequencer.cursor) x
    unfolding step consumer_round
    look_step n h e = ground (arith, h)

  cursor-rounds : (j : ℕ) (x : Logger A) → (rounds j x).sequencer.cursor ≡ x.sequencer.cursor
  unfolding rounds
  cursor-rounds zero x = refl
  cursor-rounds (suc j) x =
      cursor-rounds j (step consume x) ∙ (unfold step in cursor_kept x x.consumer)

  rounds-IsConsistent : (j : ℕ) (x : Logger A) → IsConsistent x → IsConsistent (rounds j x)
  unfolding rounds
  rounds-IsConsistent zero x i = i
  rounds-IsConsistent (suc j) x i =
      rounds-IsConsistent j (step consume x) (step-IsConsistent consume x i)

  -- The consumer comes to `bound`, or to its end.
  Settles : ℕ → Logger A → Type 0
  Settles bound x =
      (j : ℕ) × (((rounds j x).consumer ≡ polling bound)
        ⊎ ((m : ℕ) × ((rounds j x).consumer ≡ stopped m)))

  Settles-step : (bound : ℕ) (x : Logger A) → Settles bound (step consume x) → Settles bound x
  unfolding Settles rounds
  Settles-step bound x (j, s) = (suc j, s)

  Settles-polling : (bound : ℕ) (x : Logger A) → x.consumer ≡ polling bound → Settles bound x
  unfolding Settles rounds
  Settles-polling bound x h = (0, inl h)

  Settles-stopped : (bound m : ℕ) (x : Logger A) → x.consumer ≡ stopped m → Settles bound x
  unfolding Settles rounds
  Settles-stopped bound m x h = (0, inr (m, h))

  stop-Settles :
      (bound n available : ℕ) (x : Logger A)
      → x.consumer ≡ marking n available true
      → Settles bound x
  stop-Settles bound n available x h =
      let x1 = step consume x in
      let (left, off) = stop_step x n available h in
      let x2 = step consume x1 in
      let (out, same) = end_step x1 (n + 1) (n + 1) left (omega arith) in
      Settles-step bound x (
        Settles-step bound x1 (
          Settles-step bound x2 (
            Settles-stopped bound (n + 1) (step consume x2)
              (leave_step x2 (n + 1) out (same ∙ off)))))

  drains :
      (k n available : ℕ) (x : Logger A)
      → x.consumer ≡ draining n available
      → available ≡ n + k
      → Settles available x
  drains zero n available x h e =
      let at : n ≡ available = omega arith in
      Settles-step available x (
        Settles-polling available (step consume x)
          (rw at at ((end_step x n available h (omega arith)).0)))
  drains (suc k) n available x h e =
      let x1 = step consume x in
      let marked = drain_step x n available h (omega arith) in
      Settles-step available x (elim (Bool-cases (slot n x).shutdown_signal) [
        | inl stop ↦ stop-Settles available n available x1 (rw stop at marked)
        | inr go ↦ Settles-step available x1 (
            drains k (n + 1) available (step consume x1)
              (mark_step x1 n available (rw go at marked)) (omega arith))
      ])

  scans :
      (k n at hi : ℕ) (x : Logger A)
      → x.consumer ≡ scanning n at hi
      → hi ≡ at + k
      → n < hi
      → ((s : ℕ) → at ≤ s → s < hi → flag s x.sequencer ≡ true)
      → Settles hi x
  unfolding turn
  scans zero n at hi x h e more set = Settles-step hi x (
      drains (hi - n) n hi (step consume x) (found_step x n at hi h (omega arith) more)
        (omega arith))
  scans (suc k) n at hi x h e more set = Settles-step hi x (
      rw (scan_step x n at hi h (omega arith) (set at (omega arith) (omega arith))) (
        scans k n (at + 1) hi (turn (scanning n (at + 1) hi) x) refl (omega arith) more
          (λ s a b. set s (omega arith) b)))

  polls :
      (n : ℕ) (x : Logger A)
      → x.consumer ≡ polling n
      → x.running ≡ true
      → n ≤ x.sequencer.cursor
      → ((s : ℕ) → n ≤ s → s < x.sequencer.cursor → flag s x.sequencer ≡ true)
      → Settles x.sequencer.cursor x
  unfolding turn
  polls n x h go low set =
      let c = x.sequencer.cursor in
      elim (Bool-cases (ltb n c)) [
        | inl more ↦ Settles-step c x (
            rw (look_step x n h go) (
              scans (c - n) n n c (turn (scanning n n c) x) refl (omega arith) (ltb→lt _ _ more)
                set))
        | inr done ↦
            let same : n ≡ c = ground (arith, done, low) in Settles-polling c x (rw same at h)
      ]

  take_all : (l : List (LogCall A)) (n : ℕ) → length l ≤ n → take n l ≡ l
  unfolding take
  take_all [] zero h = refl
  take_all [] (suc n) h = refl
  take_all (r ∷ l) zero h = absurd (omega arith)
  take_all (r ∷ l) (suc n) h = ap (◌∷◌ r) (take_all l n (omega arith))

  -- With the other threads at rest and every claimed sequence published, a running consumer that is
  -- at the head of its loop, not inside wait_for, comes after finitely many accesses to a state in
  -- which it has collected the messages of all the claims, or it has stopped.
  pub rounds-collected :
      (size : ℕ) (blank : LogEvent A) {x : Logger A}
      → open_logger size blank ≡ some x
      → (l : List (Step A)) (n : ℕ) → (run l x).consumer ≡ polling n
      → (run l x).running ≡ true
      → ((s : ℕ) → n ≤ s → s < (run l x).sequencer.cursor → flag s (run l x).sequencer ≡ true)
      → (j : ℕ) × (((rounds j (run l x)).collected ≡ messages (rounds j (run l x)).claims)
          ⊎ ((m : ℕ) × ((rounds j (run l x)).consumer ≡ stopped m)))
  unfolding Settles
  rounds-collected size blank {x} opened l n h go set =
      let y = run l x in
      let i = consistent size blank opened l in
      let low : n ≤ y.sequencer.cursor = rw h at i.behind in
      let (j, s) = polls n y h go low set in
      let k = rounds-IsConsistent j y i in
      (
        j,
        elim s [
          | inl e ↦ inl (
              k.in_order
              ∙ ap messages (
                  take_all (rounds j y).claims (read_count (rounds j y).consumer)
                    (omega (arith, k.counted, cursor-rounds j y, ap read_count e))))
          | inr e ↦ inr e
        ],
      )

-- ===== src/Logger/ConsumerLoop.antt =====
-- The accesses of consumer_loop keep the logger consistent.
use demiplane.Prelude.{
  ap, ℕ, suc, ◌+◌, ◌≤◌, ◌<◌, ◌≡◌, refl, Bool, true, false, ltb, ltb→lt, ◌==◌, ==_iff, Bool-cases,
  inl, inr, arith,
}
use demiplane.Prelude.Powers.{place, place-injective, place-add}
use demiplane.Disruptor.{mark_consumed}
use demiplane.Logger.{
  Consumer, polling, waiting, scanning, draining, marking, stopped, Logger, turn, drain_round, mark,
  consumer_round, return_from_wait,
}
use demiplane.Logger.Invariant.{position, read_count, flag, Seen, Knows, IsConsistent}
use demiplane.Logger.Scanning.{turn-IsConsistent, scan_round-IsConsistent}
use demiplane.Logger.Reading.{drain_event-IsConsistent, release-IsConsistent}

module _ {ℓ} {A : Type ℓ} (x : Logger A) (i : IsConsistent x) where
  -- The flag of the event that was read goes down.
  clear-IsConsistent :
      (n available : ℕ) (stop : Bool) (c : Consumer) (go : Bool)
      → x.consumer ≡ marking n available stop
      → position c ≡ suc n
      → read_count c ≡ suc n
      → Knows c (mark_consumed n x.sequencer)
      → IsConsistent (turn c (record x { sequencer = mark_consumed n x.sequencer; running = go }))
  unfolding turn mark_consumed
  clear-IsConsistent n available stop c go h e f knows =
      let (k, more) = the_read in
      let size = x.sequencer.buffer_size in
      let same : n ≡ position x.consumer = rw h refl in
      let read : suc n ≡ read_count x.consumer = rw h refl in
      let up : flag n x.sequencer ≡ true = k.set n (omega arith) more in
      record {
        power = i.power;
        gated = omega (arith, same, i.gated, e);
        behind = omega (arith, e, more, k.under);
        bounded = i.bounded;
        counted = i.counted;
        sound = λ q. record {
          room = (i.sound q).room;
          held = λ s g.
              ground (arith, (i.sound q).held s g, up, same, e, ap (λ (m : ℕ). flag m x.sequencer));
          asked = (i.sound q).asked;
          wrote = (i.sound q).wrote;
        };
        unique = i.unique;
        filled = λ s a b g. elim (Bool-cases (place size s == place size n)) [
          | inl k ↦ absurd (cc (simp k at g))
          | inr k ↦
              i.filled s (omega (arith, same, a, e))
                (below s (omega (arith, b, e)) (λ u. absurd (ground (arith, k, u)))) (simp k at g)
        ];
        seen = knows;
        in_order = rw (f, read) i.in_order;
      }
    where
      below :
          (s : ℕ)
          → s < suc n + x.sequencer.buffer_size
          → (place x.sequencer.buffer_size s ≡ place x.sequencer.buffer_size n → ⊥)
          → s < position x.consumer + x.sequencer.buffer_size
      below s b apart = elim (Bool-cases (s == n + x.sequencer.buffer_size)) [
        | inl k ↦
            let turned : s ≡ n + x.sequencer.buffer_size = (==_iff _ _).0 k in
            absurd (apart (rw turned (place-add i.power n)))
        | inr k ↦ let same : n ≡ position x.consumer = rw h refl in ground (arith, k, b, same)
      ]

      the_read : Seen x.sequencer n available available × (n < available)
      the_read = rw h at i.seen

  -- What the consumer has seen beyond the event stays.
  mark_consumed-Seen :
      (n available : ℕ) (stop : Bool)
      → x.consumer ≡ marking n available stop
      → Seen (mark_consumed n x.sequencer) (n + 1) available available
  unfolding mark_consumed
  mark_consumed-Seen n available stop h =
      let (k, more) = the_read in
      let same : n ≡ position x.consumer = rw h refl in
      record {
        set = λ s a b.
            let near : s < n + x.sequencer.buffer_size =
              omega (arith, b, k.under, i.bounded, i.gated, same) in
            ground (arith, k.set s, place-injective i.power n s n (omega arith) near (omega arith));
        under = k.under;
      }
    where
      the_read : Seen x.sequencer n available available × (n < available)
      the_read = rw h at i.seen

  marking_bound :
      (n available : ℕ) (stop : Bool)
      → x.consumer ≡ marking n available stop
      → n + 1 ≤ x.sequencer.cursor
  marking_bound n available stop h = omega (arith, the_read.0.under, the_read.1)
    where
      the_read : Seen x.sequencer n available available × (n < available)
      the_read = rw h at i.seen

  mark-IsConsistent :
      (n available : ℕ) (stop : Bool)
      → x.consumer ≡ marking n available stop
      → IsConsistent (mark n available stop x)
  unfolding mark mark_consumed
  mark-IsConsistent n available false h =
      clear-IsConsistent n available false (draining (n + 1) available) x.running h (omega arith)
        (omega arith) (mark_consumed-Seen n available false h)
  mark-IsConsistent n available true h =
      clear-IsConsistent n available true (draining (n + 1) (n + 1)) false h (omega arith)
        (omega arith)
        (record { set = λ s a b. absurd (omega arith); under = marking_bound n available true h })

  drain_round-IsConsistent :
      (n available : ℕ)
      → x.consumer ≡ draining n available
      → IsConsistent (drain_round n available x)
  unfolding drain_round
  drain_round-IsConsistent n available h = elim (Bool-cases (ltb n available)) [
    | inl more ↦ rw more (drain_event-IsConsistent x i n available h (ltb→lt _ _ more))
    | inr done ↦ rw done (release-IsConsistent x i n available h)
  ]

  pub consumer_round-IsConsistent :
      (c : Consumer) → x.consumer ≡ c → IsConsistent (consumer_round c x)
  unfolding consumer_round
  consumer_round-IsConsistent (polling n) h =
      let e : n ≡ position x.consumer = rw h refl in
      let f : n ≡ read_count x.consumer = rw h refl in
      elim (Bool-cases x.running) [
        | inl go ↦ simp go (
            turn-IsConsistent x i (scanning n n x.sequencer.cursor) e f
              (record { set = λ s a b. absurd (omega arith); under = omega arith }))
        | inr stop ↦ simp stop (turn-IsConsistent x i (stopped n) e f tt)
      ]
  consumer_round-IsConsistent (waiting n) h = i
  consumer_round-IsConsistent (scanning n at hi) h = scan_round-IsConsistent x i n at hi h
  consumer_round-IsConsistent (draining n available) h = drain_round-IsConsistent n available h
  consumer_round-IsConsistent (marking n available stop) h = mark-IsConsistent n available stop h
  consumer_round-IsConsistent (stopped n) h = i

  pub return_from_wait-IsConsistent :
      (c : Consumer) → x.consumer ≡ c → IsConsistent (return_from_wait c x)
  unfolding return_from_wait
  return_from_wait-IsConsistent (waiting n) h =
      turn-IsConsistent x i (polling n) (rw h refl) (rw h refl) tt
  return_from_wait-IsConsistent (polling n) h = i
  return_from_wait-IsConsistent (scanning n at hi) h = i
  return_from_wait-IsConsistent (draining n available) h = i
  return_from_wait-IsConsistent (marking n available stop) h = i
  return_from_wait-IsConsistent (stopped n) h = i

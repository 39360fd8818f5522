-- ===== src/Logger/Scanning.antt =====
-- The scan of consumer_loop for published events keeps the logger consistent.
use demiplane.Prelude.{ap, ℕ, ◌+◌, ◌≡◌, refl, ltb, leb, Bool-cases, inl, inr, arith}
use demiplane.Disruptor.{is_available}
use demiplane.Logger.{Consumer, waiting, scanning, draining, Logger, turn, found, scan_round}
use demiplane.Logger.Invariant.{position, read_count, flag, Seen, Knows, IsConsistent}

module _ {ℓ} {A : Type ℓ} (x : Logger A) (i : IsConsistent x) where
  -- A turn that changes neither the position nor what has been read.
  pub turn-IsConsistent :
      (c : Consumer)
      → position c ≡ position x.consumer
      → read_count c ≡ read_count x.consumer
      → Knows c x.sequencer
      → IsConsistent (turn c x)
  unfolding turn
  turn-IsConsistent c e f k = record {
    power = i.power;
    gated = omega (arith, e, i.gated);
    behind = omega (arith, e, i.behind);
    bounded = i.bounded;
    counted = i.counted;
    sound = λ q. record {
      room = (i.sound q).room;
      held = λ s h. rw e ((i.sound q).held s h);
      asked = (i.sound q).asked;
      wrote = (i.sound q).wrote;
    };
    unique = i.unique;
    filled = rw e i.filled;
    seen = k;
    in_order = rw f i.in_order;
  }

  found-IsConsistent :
      (n available : ℕ)
      → n ≡ position x.consumer
      → n ≡ read_count x.consumer
      → Seen x.sequencer n available available
      → IsConsistent (found n available x)
  unfolding found
  found-IsConsistent n available e f k = elim (Bool-cases (leb available n)) [
    | inl h ↦ rw h (turn-IsConsistent (waiting n) e f tt)
    | inr h ↦ rw h (turn-IsConsistent (draining n available) e f k)
  ]

  pub scan_round-IsConsistent :
      (n at hi : ℕ) → x.consumer ≡ scanning n at hi → IsConsistent (scan_round n at hi x)
  unfolding scan_round is_available
  scan_round-IsConsistent n at hi h =
      let k : Seen x.sequencer n at hi = rw h at i.seen in
      let e : n ≡ position x.consumer = rw h refl in
      let f : n ≡ read_count x.consumer = rw h refl in
      elim (Bool-cases (ltb at hi)) [
        | inl more ↦ elim (Bool-cases (flag at x.sequencer)) [
          | inl set ↦
              rw (more, set)
                (turn-IsConsistent (scanning n (at + 1) hi) e f (record {
                  set = λ s a b. ground (arith, k.set s a, set, ap (λ (m : ℕ). flag m x.sequencer));
                  under = k.under;
                }))
          | inr gap ↦
              rw (more, gap)
                (found-IsConsistent n at e f
                  (record { set = k.set; under = ground (arith, k.under, more) }))
        ]
        | inr done ↦ rw done (
            found-IsConsistent n hi e f
              (record { set = λ s a b. k.set s a (ground (arith, done)); under = k.under }))
      ]

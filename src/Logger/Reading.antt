-- ===== src/Logger/Reading.antt =====
-- The reads of consumer_loop, and the release of what was read, keep the logger consistent.
use demiplane.Prelude.{
  ℕ, suc, ◌<◌, ◌≡◌, refl, sym, ◌∙◌, Bool, true, false, some, List, [], ◌∷◌, ◌++◌, get_elem?,
  append-nil, Bool-cases, inl, inr, arith,
}
use demiplane.Disruptor.{update_gating_sequence}
use demiplane.Logger.{LogEvent, polling, draining, marking, Logger, turn, drain_event}
use demiplane.Logger.Invariant.{
  position, read_count, carried, messages, take, slot, Seen, IsConsistent, messages-take-suc,
}

module _ {ℓ} {A : Type ℓ} (x : Logger A) (i : IsConsistent x) where
  -- A read of the slot at the position.
  read-IsConsistent :
      (n available : ℕ) (stop : Bool) (l : List A)
      → x.consumer ≡ draining n available
      → n < available
      → l ≡ messages (take (suc n) x.claims)
      → IsConsistent (turn (marking n available stop) (record x { collected = l }))
  unfolding turn
  read-IsConsistent n available stop l h more e =
      let k : Seen x.sequencer n available available = rw h at i.seen in
      let same : n ≡ position x.consumer = rw h refl in
      record {
        power = i.power;
        gated = omega (arith, same, i.gated);
        behind = omega (arith, same, i.behind);
        bounded = i.bounded;
        counted = i.counted;
        sound = λ q. record {
          room = (i.sound q).room;
          held = λ s g. rw same ((i.sound q).held s g);
          asked = (i.sound q).asked;
          wrote = (i.sound q).wrote;
        };
        unique = i.unique;
        filled = rw same i.filled;
        seen = (k, more);
        in_order = e;
      }

  messages-stop : (e : LogEvent A) → e.shutdown_signal ≡ true → messages (carried e ∷ []) ≡ []
  unfolding messages
  messages-stop e h = simp h

  messages-log :
      (e : LogEvent A) → e.shutdown_signal ≡ false → messages (carried e ∷ []) ≡ e.message ∷ []
  unfolding messages
  messages-log e h = simp h

  -- The event at the position is the next claim.
  pub drained-asked :
      (n available : ℕ)
      → x.consumer ≡ draining n available
      → n < available
      → get_elem? x.claims n ≡ some (carried (slot n x))
  drained-asked n available h more =
      let k : Seen x.sequencer n available available = rw h at i.seen in
      let same : n ≡ position x.consumer = rw h refl in
      (i.filled n (omega (arith, same)) (omega (arith, same, k.under, i.bounded, i.gated))
        (k.set n (omega arith) more)).1

  pub drain_event-IsConsistent :
      (n available : ℕ)
      → x.consumer ≡ draining n available
      → n < available
      → IsConsistent (drain_event n available (slot n x) x)
  unfolding drain_event
  drain_event-IsConsistent n available h more =
      let asked = drained-asked n available h more in
      let next = messages-take-suc x.claims n (carried (slot n x)) asked in
      let before : x.collected ≡ messages (take n x.claims) = rw h at i.in_order in
      elim (Bool-cases (slot n x).shutdown_signal) [
        | inl stop ↦ simp stop (
            read-IsConsistent n available true x.collected h more (
              before
              ∙ sym (
                  next
                  ∙ rw (messages-stop (slot n x) stop) (append-nil (messages (take n x.claims))))))
        | inr go ↦ simp go (
            read-IsConsistent n available false (x.collected ++ (slot n x).message ∷ []) h more
              (rw (next, messages-log (slot n x) go, before) refl))
      ]

  -- The end of a batch: the producers see the slots that were read.
  pub release-IsConsistent :
      (n available : ℕ)
      → x.consumer ≡ draining n available
      → IsConsistent
          (turn (polling n) (record x { sequencer = update_gating_sequence n x.sequencer }))
  unfolding turn update_gating_sequence
  release-IsConsistent n available h =
      let same : n ≡ position x.consumer = rw h refl in
      let read : n ≡ read_count x.consumer = rw h refl in
      record {
        power = i.power;
        gated = omega arith;
        behind = omega (arith, same, i.behind);
        bounded = omega (arith, same, i.bounded, i.gated);
        counted = i.counted;
        sound = λ q. record {
          room = λ c r e. omega (arith, (i.sound q).room c r e, same, i.gated);
          held = λ s g. rw same ((i.sound q).held s g);
          asked = (i.sound q).asked;
          wrote = (i.sound q).wrote;
        };
        unique = i.unique;
        filled = rw same i.filled;
        seen = tt;
        in_order = rw read i.in_order;
      }

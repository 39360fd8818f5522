-- ===== src/Logger/Logging.antt =====
-- The accesses of the threads that log keep the logger consistent.
use demiplane.Prelude.{
  ℕ, ◌+◌, ◌≤◌, ◌<◌, ◌≡◌, refl, Bool, false, not, ◌&&◌, none, some, [], ◌∷◌, ◌++◌, length-append,
  ==_iff, ltb, ◌==◌, Bool-cases, inl, inr, arith,
}
use demiplane.Prelude.Powers.{place, place-injective}
use demiplane.Disruptor.{would_wrap, compare_and_set, publish}
use demiplane.Logger.{
  LogEvent, LogCall, log, shutdown, Producer, idle, claiming, loaded, ready, claimed, written,
  Logger, become, begin_call, try_claim, write_event, write_slot, proceed,
}
use demiplane.Logger.Invariant.{
  position, holds, carried, flag, slot, IsConsistent, get_elem?-append_left, get_elem?-append_last,
  take-append_left, read_count, read_count_le, Knows-mono,
}

module _ {ℓ} {A : Type ℓ} (x : Logger A) (i : IsConsistent x) (p : ℕ) where
  -- A thread that comes to hold nothing.
  become-IsConsistent :
      (c : Producer A)
      → holds c ≡ none
      → ((n : ℕ) (r : LogCall A)
          → c ≡ ready n r
          → n < x.sequencer.gating_sequence + x.sequencer.buffer_size)
      → IsConsistent (become p c x)
  unfolding become
  become-IsConsistent c free room = record {
    power = i.power;
    gated = i.gated;
    behind = i.behind;
    bounded = i.bounded;
    counted = i.counted;
    sound = λ q. record {
      room = λ n r e. ground (arith, room n r, (i.sound q).room n r);
      held = λ s e. ground (arith, (i.sound q).held s);
      asked = λ s r e. ground (arith, (i.sound q).asked s r);
      wrote = λ s e. ground (arith, (i.sound q).wrote s);
    };
    unique = λ a b s e f. ground (arith, i.unique a b s);
    filled = i.filled;
    seen = i.seen;
    in_order = i.in_order;
  }

  -- A slot of the window that nobody has claimed is free.
  fresh :
      (c : ℕ)
      → x.sequencer.cursor ≤ c
      → c < x.sequencer.gating_sequence + x.sequencer.buffer_size
      → flag c x.sequencer ≡ false
  fresh c h room = elim (Bool-cases (flag c x.sequencer)) [
    | inl e ↦
        let (behind, _) = i.filled c (omega (arith, i.behind)) (omega (arith, i.gated)) e in
        absurd (omega arith)
    | inr e ↦ e
  ]

  -- A claim that goes through.
  claim-IsConsistent :
      (r : LogCall A)
      → x.producers p ≡ ready x.sequencer.cursor r
      → IsConsistent (
          become p (claimed x.sequencer.cursor r) (record x {
            sequencer = record x.sequencer { cursor = x.sequencer.cursor + 1 };
            claims = x.claims ++ r ∷ [];
          }))
  unfolding become
  claim-IsConsistent r at =
      let c = x.sequencer.cursor in
      let room = (i.sound p).room c r at in
      let free = fresh c (omega arith) room in
      let older =
        λ (s : ℕ) (h : s < c). get_elem?-append_left x.claims r s (omega (arith, i.counted)) in
      record {
        power = i.power;
        gated = i.gated;
        behind = omega (arith, i.behind);
        bounded = omega arith;
        counted = omega (arith, i.counted, length-append x.claims (r ∷ []));
        sound = λ q. record {
          room = λ n k e. ground (arith, (i.sound q).room n k);
          held = λ s e. ground (arith, (i.sound q).held s, i.behind, free);
          asked = λ s k e. ground (
            arith,
            (i.sound q).asked s k,
            (i.sound q).held s,
            older s,
            get_elem?-append_last x.claims r,
            i.counted,
          );
          wrote = λ s e. ground (arith, (i.sound q).wrote s, (i.sound q).held s, older s);
        };
        unique =
            λ a b s e f. ground (arith, i.unique a b s, (i.sound a).held s, (i.sound b).held s);
        filled = λ s a b e. ground (arith, i.filled s a b e, older s);
        seen = Knows-mono x.consumer _ _ (λ s h. h) (omega arith) i.seen;
        in_order =
            rw
              (take-append_left x.claims r (read_count x.consumer)
                (omega (arith, i.counted, read_count_le x.consumer x.sequencer i.seen i.behind)))
              i.in_order;
      }

  -- No other thread holds a sequence with the same place in the ring.
  alone :
      (s : ℕ)
      → holds (x.producers p) ≡ some s
      → (q t : ℕ) → holds (x.producers q) ≡ some t
      → place x.sequencer.buffer_size t ≡ place x.sequencer.buffer_size s
      → (q ≡ p) × (t ≡ s)
  alone s hs q t ht e =
      let (low, high, _) = (i.sound p).held s hs in
      let (low', high', _) = (i.sound q).held t ht in
      let same : t ≡ s =
        place-injective i.power (position x.consumer) t s low' (omega (arith, i.bounded, i.gated))
          low (omega (arith, i.bounded, i.gated)) e in
      (i.unique q p s (rw (← same) ht) hs, same)

  carried-write_event : (r : LogCall A) (e : LogEvent A) → carried (write_event r e) ≡ r
  unfolding write_event
  carried-write_event (log m) e = refl
  carried-write_event shutdown e = refl

  -- The event goes into a slot whose last event the consumer has read.
  write_slot-IsConsistent :
      (s : ℕ) (r : LogCall A) → x.producers p ≡ claimed s r → IsConsistent (write_slot s r p x)
  unfolding become write_slot
  write_slot-IsConsistent s r at =
      let hs : holds (x.producers p) ≡ some s = rw at refl in
      let own = (i.sound p).held s hs in
      record {
        power = i.power;
        gated = i.gated;
        behind = i.behind;
        bounded = i.bounded;
        counted = i.counted;
        sound = λ q. record {
          room = λ n k e. ground (arith, (i.sound q).room n k);
          held = λ t e. ground (arith, (i.sound q).held t, own);
          asked = λ t k e. ground (arith, (i.sound q).asked t k);
          wrote = λ t e. ground (
            arith,
            (i.sound q).wrote t,
            (i.sound p).asked s r at,
            alone s hs q t,
            carried-write_event r (slot s x),
          );
        };
        unique = λ a b t e f. ground (arith, i.unique a b t, at);
        filled = λ t a b e. ground (arith, i.filled t a b e, own);
        seen = i.seen;
        in_order = i.in_order;
      }

  -- The flag of a sequence goes up after its event is in place.
  publish-IsConsistent :
      (s : ℕ)
      → x.producers p ≡ written s
      → IsConsistent (become p idle (record x { sequencer = publish s x.sequencer }))
  unfolding become publish
  publish-IsConsistent s at =
      let size = x.sequencer.buffer_size in
      let hs : holds (x.producers p) ≡ some s = rw at refl in
      let own = (i.sound p).held s hs in
      record {
        power = i.power;
        gated = i.gated;
        behind = i.behind;
        bounded = i.bounded;
        counted = i.counted;
        sound = λ q. record {
          room = λ n k e. ground (arith, (i.sound q).room n k);
          held = λ t e. ground (arith, (i.sound q).held t, alone s hs q t);
          asked = λ t k e. ground (arith, (i.sound q).asked t k);
          wrote = λ t e. ground (arith, (i.sound q).wrote t);
        };
        unique = λ a b t e f. ground (arith, i.unique a b t, at);
        filled = λ t a b e. elim (Bool-cases (place size t == place size s)) [
          | inl k ↦
              let same : t ≡ s =
                place-injective i.power (position x.consumer) t s a b own.0
                  (omega (arith, i.bounded, i.gated, own)) ((==_iff _ _).0 k) in
              (omega (arith, same, own), rw same ((i.sound p).wrote s at))
          | inr k ↦ i.filled t a b (simp k at e)
        ];
        seen = Knows-mono x.consumer _ _ (λ t h. ground (arith, h)) (omega arith) i.seen;
        in_order = i.in_order;
      }

  try_claim-IsConsistent :
      (spurious : Bool) (c : ℕ) (r : LogCall A)
      → x.producers p ≡ ready c r
      → IsConsistent (try_claim spurious c r p x)
  unfolding try_claim compare_and_set
  try_claim-IsConsistent spurious c r at =
      elim (Bool-cases (not spurious && (x.sequencer.cursor == c))) [
        | inl e ↦
            let same : c ≡ x.sequencer.cursor = ground (arith, e) in
            rw e (rw same (claim-IsConsistent r (rw same at at)))
        | inr e ↦ rw e (become-IsConsistent (claiming r) refl λ n k h. absurd cc)
      ]

  pub proceed-IsConsistent :
      (c : Producer A)
      → x.producers p ≡ c
      → (spurious : Bool) → IsConsistent (proceed c p spurious x)
  unfolding proceed would_wrap
  proceed-IsConsistent idle at spurious = i
  proceed-IsConsistent (claiming r) at spurious =
      become-IsConsistent (loaded x.sequencer.cursor r) refl λ n k h. absurd cc
  proceed-IsConsistent (loaded c r) at spurious =
      elim (Bool-cases (ltb (x.sequencer.gating_sequence + x.sequencer.buffer_size) (c + 1))) [
        | inl e ↦ rw e i
        | inr e ↦ rw e (become-IsConsistent (ready c r) refl λ n k h. ground (arith, h, e))
      ]
  proceed-IsConsistent (ready c r) at spurious = try_claim-IsConsistent spurious c r at
  proceed-IsConsistent (claimed s r) at spurious = write_slot-IsConsistent s r at
  proceed-IsConsistent (written s) at spurious = publish-IsConsistent s at

  pub begin_call-IsConsistent : (r : LogCall A) → IsConsistent (begin_call p r x)
  unfolding begin_call
  begin_call-IsConsistent (log m) = become-IsConsistent (claiming (log m)) refl λ n k h. absurd cc
  begin_call-IsConsistent shutdown = elim (Bool-cases x.running) [
    | inl e ↦ simp e (become-IsConsistent (claiming shutdown) refl λ n k h. absurd cc)
    | inr e ↦ simp e i
  ]

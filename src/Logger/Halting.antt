-- ===== src/Logger/Halting.antt =====
-- What is true of a logger that does not run any more; the threads that log keep it.
use demiplane.Prelude.{
  ℕ, zero, suc, ◌≤◌, ◌≡◌, ◌∙◌, refl, sym, Bool, true, false, some, List, [], ◌∷◌, ◌++◌, ◌==◌, not,
  ◌&&◌, Bool-cases, inl, inr, get_elem?,
}
use demiplane.Disruptor.{compare_and_set, would_wrap}
use demiplane.Logger.{
  LogCall, log, shutdown, Producer, idle, claiming, loaded, ready, claimed, written, Consumer,
  polling, waiting, scanning, draining, marking, stopped, Logger, become, begin_call, begin_from,
  try_claim, write_slot, proceed,
}
use demiplane.Logger.Invariant.{read_count}

-- Where the loop is left once the logger does not run.
abbrev pub Done : Consumer → Type 0
Done (polling n) = Unit
Done (waiting n) = Unit
Done (scanning n at hi) = ⊥
Done (draining n available) = available ≤ n
Done (marking n available stop) = ⊥
Done (stopped n) = Unit

module _ {ℓ} {A : Type ℓ} where
  -- A logger that does not run has read a shutdown last.
  pub record IsHalting (x : Logger A) : Type ℓ where
    pub marked :
        (n available : ℕ)
        → x.consumer ≡ marking n available true
        → get_elem? x.claims n ≡ some shutdown
    pub ended :
        x.running ≡ false
        → (n : ℕ) × (get_elem? x.claims n ≡ some shutdown)
          × (read_count x.consumer ≡ suc n)
          × Done x.consumer
    pub halted : (n : ℕ) → x.consumer ≡ stopped n → x.running ≡ false

  -- `y` is `x` with more claims.
  pub record Extends (x y : Logger A) : Type ℓ where
    pub consumer : y.consumer ≡ x.consumer
    pub running : y.running ≡ x.running
    pub grows :
        (s : ℕ) (r : LogCall A) → get_elem? x.claims s ≡ some r → get_elem? y.claims s ≡ some r

  pub Extends-IsHalting : {x y : Logger A} → Extends x y → IsHalting x → IsHalting y
  Extends-IsHalting {x} {y} e i = record {
    marked = λ n a h. e.grows n shutdown (i.marked n a (sym e.consumer ∙ h));
    ended = λ h.
        let (n, at, count, done) = i.ended (sym e.running ∙ h) in
        (n, e.grows n shutdown at, rw e.consumer count, rw e.consumer done);
    halted = λ n h. e.running ∙ i.halted n (sym e.consumer ∙ h);
  }

  get_elem?-append_some :
      (l : List (LogCall A)) (q : LogCall A) (s : ℕ) (r : LogCall A)
      → get_elem? l s ≡ some r
      → get_elem? (l ++ q ∷ []) s ≡ some r
  get_elem?-append_some [] q s r h = absurd cc
  get_elem?-append_some (y ∷ l) q zero r h = h
  get_elem?-append_some (y ∷ l) q (suc s) r h = get_elem?-append_some l q s r h

  same_Extends : (x : Logger A) → Extends x x
  same_Extends x = record { consumer = refl; running = refl; grows = λ s r h. h }

  try_claim-Extends :
      (spurious : Bool) (c : ℕ) (r : LogCall A) (p : ℕ) (x : Logger A)
      → Extends x (try_claim spurious c r p x)
  unfolding try_claim compare_and_set become
  try_claim-Extends spurious c r p x =
      elim (Bool-cases (not spurious && (x.sequencer.cursor == c))) [
        | inl e ↦ simp e (record {
          consumer = refl;
          running = refl;
          grows = λ s k h. get_elem?-append_some x.claims r s k h;
        })
        | inr e ↦ simp e (record { consumer = refl; running = refl; grows = λ s k h. h })
      ]

  pub proceed-Extends :
      (c : Producer A) (p : ℕ) (spurious : Bool) (x : Logger A) → Extends x (proceed c p spurious x)
  unfolding proceed become write_slot
  proceed-Extends idle p spurious x = same_Extends x
  proceed-Extends (claiming r) p spurious x = record {
    consumer = refl;
    running = refl;
    grows = λ s k h. h;
  }
  proceed-Extends (loaded c r) p spurious x = elim (Bool-cases (would_wrap c 1 x.sequencer)) [
    | inl e ↦ simp e (same_Extends x)
    | inr e ↦ simp e (record { consumer = refl; running = refl; grows = λ s k h. h })
  ]
  proceed-Extends (ready c r) p spurious x = try_claim-Extends spurious c r p x
  proceed-Extends (claimed s r) p spurious x = record {
    consumer = refl;
    running = refl;
    grows = λ s k h. h;
  }
  proceed-Extends (written s) p spurious x = record {
    consumer = refl;
    running = refl;
    grows = λ s k h. h;
  }

  pub begin_from-Extends :
      (c : Producer A) (p : ℕ) (r : LogCall A) (x : Logger A) → Extends x (begin_from c p r x)
  unfolding begin_from begin_call become
  begin_from-Extends idle p (log m) x = record {
    consumer = refl;
    running = refl;
    grows = λ s k h. h;
  }
  begin_from-Extends idle p shutdown x = elim (Bool-cases x.running) [
    | inl e ↦ simp e (record { consumer = refl; running = sym e; grows = λ s k h. h })
    | inr e ↦ simp e (same_Extends x)
  ]
  begin_from-Extends (claiming k) p r x = same_Extends x
  begin_from-Extends (loaded c k) p r x = same_Extends x
  begin_from-Extends (ready c k) p r x = same_Extends x
  begin_from-Extends (claimed s k) p r x = same_Extends x
  begin_from-Extends (written s) p r x = same_Extends x

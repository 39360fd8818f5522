-- ===== src/Pool/Slots/Exhaustion.antt =====
-- What `acquire_slot` has seen when it gives nothing.
use Prim.Native.Nat.{bit_and}
use mathlib.Core.Path.{subst}
use demiplane.Prelude.{
  refl, ℕ, zero, suc, ◌+◌, ◌-◌, ◌%◌, ◌^◌, ◌<◌, ◌≡◌, ◌≢◌, sym, ap, ◌∙◌, false, Option, none, some,
  Bool-cases, Option-cases, inl, inr, arith,
}
use demiplane.Prelude.Masks.{bit_and-mask, round_of}
use demiplane.Pool.Slots.{
  SlotStatus, free, dead, inactive, SlotPool, mask, is_free, is_inactive, with_status, claim_free,
  claim_inactive, promote, scan_free, scan_inactive, settle, or_inactive, acquire_slot,
}
use demiplane.Pool.Slots.Borrow.{
  Kept, Borrows, put_same, dead_twice, scan_free-none, scan_inactive-Borrows,
}

-- A fact about the round at hand and all later ones.
by_round :
    (P : ℕ → Type 0) (n at : ℕ)
    → P at
    → ((j : ℕ) → j < n → P (at + 1 + j))
    → (j : ℕ) → j < suc n
    → P (at + j)
by_round P n at now later zero lt = let same : at ≡ at + 0 = omega arith in subst P same now
by_round P n at now later (suc j) lt =
    let same : at + 1 + j ≡ at + suc j = omega arith in subst P same (later j (omega arith))

abbrev NotFree : SlotPool → ℕ → Type 0
NotFree p at = is_free (p.status (bit_and at (mask p))) ≡ false

scan_free_misses :
    (n at : ℕ) (p : SlotPool) → (scan_free n at p).0 ≡ none → (j : ℕ) → j < n → NotFree p (at + j)
unfolding scan_free claim_free
scan_free_misses zero at p = λ h j lt. absurd (omega arith)
scan_free_misses (suc n) at p = elim (Bool-cases (is_free (p.status (bit_and at (mask p))))) [
  | inl e ↦ simp e (λ h. absurd cc)
  | inr e ↦ simp e (λ h. by_round (NotFree p) n at e (scan_free_misses n (at + 1) p h))
]

-- The mask is that of the pool before the scan.
abbrev NotInactive : SlotPool → SlotPool → ℕ → Type 0
NotInactive p q at = is_inactive (q.status (bit_and at (mask p))) ≡ false

Kept-NotInactive :
    (p q : SlotPool) (a : ℕ)
    → Kept p q a
    → is_inactive (p.status a) ≡ false
    → is_inactive (q.status a) ≡ false
Kept-NotInactive p q a (inl k) e = ground (arith, k)
Kept-NotInactive p q a (inr (was, now)) e = ground (arith, now)

Kept-none :
    (p : SlotPool) (r : Option ℕ × SlotPool) → Borrows p r → r.0 ≡ none → (a : ℕ) → Kept p r.1 a
Kept-none p (none, q) h e = h
Kept-none p (some i, q) h e = absurd cc

scan_inactive_misses :
    (connect : ℕ → Option ℕ) (n at : ℕ) (p : SlotPool)
    → (scan_inactive connect n at p).0 ≡ none
    → (j : ℕ) → j < n
    → NotInactive p (scan_inactive connect n at p).1 (at + j)
unfolding scan_inactive claim_inactive promote settle
scan_inactive_misses connect zero at p = λ h j lt. absurd (omega arith)
scan_inactive_misses connect (suc n) at p =
    let idx = bit_and at (mask p) in
    elim (Bool-cases (is_inactive (p.status idx))) [
      | inr e ↦
          let rest = scan_inactive connect n (at + 1) p in
          simp e (λ h.
            by_round (NotInactive p rest.1) n at
              (Kept-NotInactive p rest.1 idx
                (Kept-none p rest (scan_inactive-Borrows connect n (at + 1) p) h idx) e)
              (scan_inactive_misses connect n (at + 1) p h))
      | inl e ↦ elim (Option-cases (connect idx)) [
        | inl f ↦
            let made = with_status idx dead p in
            let rest = scan_inactive connect n (at + 1) made in
            simp (e, f, dead_twice p idx)
              (λ h.
                by_round (NotInactive p rest.1) n at
                  (Kept-NotInactive made rest.1 idx
                    (Kept-none made rest (scan_inactive-Borrows connect n (at + 1) made) h idx)
                    (ap is_inactive (put_same p.status idx dead)))
                  (scan_inactive_misses connect n (at + 1) made h))
        | inr (c, f) ↦ simp (e, f) (λ h. absurd cc)
      ]
    ]

mask_lem : (p : SlotPool) (k x : ℕ) → p.capacity ≡ 2 ^ k → bit_and x (mask p) ≡ x % p.capacity
mask_lem p k x e = ap (λ (c : ℕ). bit_and x (c - 1)) e ∙ bit_and-mask x k ∙ ap (◌%◌ x) (sym e)

-- With no slot from the first loop, the second one decides.
or_inactive-none :
    (connect : ℕ → Option ℕ) (p : SlotPool) (r : Option ℕ × SlotPool)
    → (r.0 ≡ none → r.1 ≡ p)
    → (or_inactive connect p r).0 ≡ none
    → (r.0 ≡ none) × (or_inactive connect p r ≡ scan_inactive connect p.capacity p.hint_cursor p)
unfolding or_inactive
or_inactive-none connect p (some i, q) k h = absurd cc
or_inactive-none connect p (none, q) k h =
    (refl, ap (scan_inactive connect p.capacity p.hint_cursor) (k refl))

not_free : (x : SlotStatus) → is_free x ≡ false → x ≢ free
not_free x h = ground arith

not_inactive : (x : SlotStatus) → is_inactive x ≡ false → x ≢ inactive
not_inactive x h = ground arith

-- When the capacity is a power of two, as PoolConfig demands, and no other thread is running, an
-- open pool gives no slot only if none of its slots was FREE, and then it leaves none INACTIVE.
pub acquire_slot_exhausted :
    (connect : ℕ → Option ℕ) (p : SlotPool) (k : ℕ)
    → p.capacity ≡ 2 ^ k
    → p.shutdown ≡ false
    → (acquire_slot connect p).0 ≡ none
    → (a : ℕ) → a < p.capacity
    → (p.status a ≢ free) × ((acquire_slot connect p).1.status a ≢ inactive)
unfolding acquire_slot
acquire_slot_exhausted connect p k e o = simp o λ h a below.
    let (j, in_time, place) = round_of p.hint_cursor p.capacity a below in
    let index = mask_lem p k (p.hint_cursor + j) e ∙ place in
    let first = scan_free p.capacity p.hint_cursor p in
    let second = scan_inactive connect p.capacity p.hint_cursor p in
    let (none_free, same) =
      or_inactive-none connect p first (scan_free-none p.capacity p.hint_cursor p) h in
    let none_second : second.0 ≡ none = ap (λ (r : Option ℕ × SlotPool). r.0) (sym same) ∙ h in
    let missed = scan_free_misses p.capacity p.hint_cursor p none_free j in_time in
    let dead_now = scan_inactive_misses connect p.capacity p.hint_cursor p none_second j in_time in
    (
      not_free (p.status a) (rw index at missed),
      rw same (not_inactive (second.1.status a) (rw index at dead_now)),
    )

-- ===== src/Pool/Slots/Borrow.antt =====
-- What `acquire_slot` does to the slots when no other thread runs.
use Prim.Native.Nat.{bit_and}
use mathlib.Core.Path.{fun_ext}
use demiplane.Prelude.{
  ap, ℕ, zero, suc, ◌+◌, ◌≡◌, ◌⊎◌, inl, inr, refl, true, false, Option, none, some, ◌==◌,
  Bool-cases, Option-cases, arith,
}
use demiplane.Pool.Slots.{
  SlotStatus, free, used, dead, inactive, SlotPool, put, mask, is_free, is_inactive, with_status,
  claim_free, claim_inactive, promote, scan_free, scan_inactive, settle, or_inactive, acquire_slot,
}

-- A slot is left alone, or it was INACTIVE and connecting for it failed.
abbrev pub Kept : SlotPool → SlotPool → ℕ → Type 0
Kept p q a = (q.status a ≡ p.status a) ⊎ ((p.status a ≡ inactive) × (q.status a ≡ dead))

abbrev pub Borrows : SlotPool → Option ℕ × SlotPool → Type 0
Borrows p (none, q) = (a : ℕ) → Kept p q a
Borrows p (some i, q) =
    ((p.status i ≡ free) ⊎ (p.status i ≡ inactive))
    × (q.status i ≡ used)
    × ((a : ℕ) → (a == i) ≡ false → Kept p q a)

is_free_lem : (x : SlotStatus) → is_free x ≡ true → x ≡ free
is_free_lem x h = ground arith

is_inactive_lem : (x : SlotStatus) → is_inactive x ≡ true → x ≡ inactive
is_inactive_lem x h = ground arith

pub put_same : (st : ℕ → SlotStatus) (i : ℕ) (x : SlotStatus) → put st i x i ≡ x
put_same st i x = ground arith

put_other :
    (st : ℕ → SlotStatus) (i a : ℕ) (x : SlotStatus) → (a == i) ≡ false → put st i x a ≡ st a
put_other st i a x e = simp e

scan_free-Borrows : (n at : ℕ) (p : SlotPool) → Borrows p (scan_free n at p)
unfolding scan_free claim_free
scan_free-Borrows zero at p = λ a. inl refl
scan_free-Borrows (suc n) at p =
    let idx = bit_and at (mask p) in
    elim (Bool-cases (is_free (p.status idx))) [
      | inl e ↦ simp e (
        inl (is_free_lem _ e),
        put_same p.status idx used,
        λ a other. inl (put_other p.status idx a used other),
      )
      | inr e ↦ simp e (scan_free-Borrows n (at + 1) p)
    ]

pub scan_free-none :
    (n at : ℕ) (p : SlotPool) → (scan_free n at p).0 ≡ none → (scan_free n at p).1 ≡ p
unfolding scan_free claim_free
scan_free-none zero at p = λ h. refl
scan_free-none (suc n) at p = elim (Bool-cases (is_free (p.status (bit_and at (mask p))))) [
  | inl e ↦ simp e (λ h. absurd cc)
  | inr e ↦ simp e (scan_free-none n (at + 1) p)
]

-- After a slot that was INACTIVE has died.
Kept-with_status :
    (p q : SlotPool) (i a : ℕ)
    → p.status i ≡ inactive
    → Kept (with_status i dead p) q a
    → Kept p q a
Kept-with_status p q i a e (inl k) = elim (Bool-cases (a == i)) [
  | inl same ↦ inr (ground (arith, e, same), ground (arith, k, same))
  | inr other ↦ inl (ground (arith, k, other))
]
Kept-with_status p q i a e (inr (was, now)) = elim (Bool-cases (a == i)) [
  | inl same ↦ absurd (ground (arith, was, same))
  | inr other ↦ inr (ground (arith, was, other), now)
]

alive :
    (p : SlotPool) (i j : ℕ)
    → (put p.status i dead j ≡ free) ⊎ (put p.status i dead j ≡ inactive)
    → (p.status j ≡ free) ⊎ (p.status j ≡ inactive)
alive p i j (inl k) = inl (ground (arith, k))
alive p i j (inr k) = inr (ground (arith, k))

after_death :
    (p : SlotPool) (i : ℕ) (r : Option ℕ × SlotPool)
    → p.status i ≡ inactive
    → Borrows (with_status i dead p) r
    → Borrows p r
after_death p i (none, q) e h = λ a. Kept-with_status p q i a e (h a)
after_death p i (some j, q) e (was, now, rest) =
    (alive p i j was, now, λ a other. Kept-with_status p q i a e (rest a other))

put_twice : (st : ℕ → SlotStatus) (i j : ℕ) → put (put st i used) i dead j ≡ put st i dead j
put_twice st i j = ground arith

-- A slot that was claimed and then died.
pub dead_twice :
    (p : SlotPool) (i : ℕ) → with_status i dead (with_status i used p) ≡ with_status i dead p
dead_twice p i =
    ap (λ (st : ℕ → SlotStatus). record p { status = st }) (fun_ext λ j. put_twice p.status i j)

pub scan_inactive-Borrows :
    (connect : ℕ → Option ℕ) (n at : ℕ) (p : SlotPool) → Borrows p (scan_inactive connect n at p)
unfolding scan_inactive claim_inactive promote settle
scan_inactive-Borrows connect zero at p = λ a. inl refl
scan_inactive-Borrows connect (suc n) at p =
    let idx = bit_and at (mask p) in
    elim (Bool-cases (is_inactive (p.status idx))) [
      | inr e ↦ simp e (scan_inactive-Borrows connect n (at + 1) p)
      | inl e ↦ elim (Option-cases (connect idx)) [
        | inl f ↦
            simp (e, f, dead_twice p idx)
              (after_death p idx _ (is_inactive_lem _ e)
                (scan_inactive-Borrows connect n (at + 1) (with_status idx dead p)))
        | inr (c, f) ↦
            simp (e, f)
              (
                inr (is_inactive_lem _ e),
                put_same p.status idx used,
                λ a other. inl (put_other p.status idx a used other),
              )
      ]
    ]

-- What the first loop leaves for the second.
or_inactive-Borrows :
    (connect : ℕ → Option ℕ) (p : SlotPool) (r : Option ℕ × SlotPool)
    → Borrows p r
    → (r.0 ≡ none → r.1 ≡ p)
    → Borrows p (or_inactive connect p r)
unfolding or_inactive
or_inactive-Borrows connect p (some i, q) h k = h
or_inactive-Borrows connect p (none, q) h k =
    simp (k refl) (scan_inactive-Borrows connect p.capacity p.hint_cursor p)

-- With no other thread running, `acquire_slot` gives a slot that was FREE or INACTIVE and is USED
-- now, or none; each other slot keeps its status, or was INACTIVE, failed to connect and is DEAD.
-- After a shutdown it gives none and changes nothing.
pub acquire_slot-Borrows :
    (connect : ℕ → Option ℕ) (p : SlotPool)
    → Borrows p (acquire_slot connect p) × (p.shutdown ≡ true → acquire_slot connect p ≡ (none, p))
unfolding acquire_slot
acquire_slot-Borrows connect p = elim (Bool-cases p.shutdown) [
  | inl e ↦ simp e ((λ a. inl refl), λ h. refl)
  | inr e ↦ simp e (
    or_inactive-Borrows connect p _ (scan_free-Borrows p.capacity p.hint_cursor p)
        (scan_free-none p.capacity p.hint_cursor p),
    λ h. absurd cc,
  )
]

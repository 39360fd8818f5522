-- ===== src/Pool/Slots/Exclusive.antt =====
-- Who has a slot, when the accesses of several threads interleave.
use demiplane.Prelude.{
  ℕ, ◌+◌, ◌<◌, ◌≡◌, ◌≢◌, refl, Bool, true, false, Option, none, some, [], ◌==◌, Bool-cases, inl,
  inr, ==_iff, arith, zero, suc, sym, Option-cases,
}
use demiplane.Pool.Blocking.{erase}
use demiplane.Pool.Blocking.Counts.{count, count-erase}
use demiplane.Pool.Slots.{
  SlotStatus, free, used, waiting, dead, inactive, SlotPool, put, is_free, is_inactive, is_dead,
  with_status, claim_free, claim_inactive, promote, construct_slots, fill, release, inspect, repair,
  load_status, store_inactive, close,
}
use demiplane.Pool.Slots.Steps.{
  Slots, borrow, begin_connect, end_connect, begin_repair, SlotStep, SlotReach, borrows, starts,
  connects, releases, inspects, repairs, here, next,
}

abbrev pub borrowers : SlotStatus → ℕ
borrowers free = 0
borrowers used = 1
borrowers waiting = 0
borrowers dead = 0
borrowers inactive = 0

-- A slot has one borrower if it is USED, and none otherwise; what the janitor repairs is DEAD.
pub record IsExclusive (s : Slots) : Type 0 where
  pub borrowed : (a : ℕ) → count a s.lent + count a s.connecting ≡ borrowers (s.pool.status a)
  pub repaired : (a : ℕ) → s.janitor ≡ some a → s.pool.status a ≡ dead

free_unused : (x : SlotStatus) → is_free x ≡ true → borrowers x ≡ 0
free_unused x h = ground arith

inactive_unused : (x : SlotStatus) → is_inactive x ≡ true → borrowers x ≡ 0
inactive_unused x h = ground arith

dead_unused : (x : SlotStatus) → x ≡ dead → borrowers x ≡ 0
dead_unused x h = ground arith

used_not_dead : (x : SlotStatus) → 0 < borrowers x → x ≢ dead
used_not_dead x h = ground arith

borrows-IsExclusive :
    (i : ℕ) (s : Slots) → IsExclusive s → IsExclusive (borrow i s (claim_free i s.pool))
unfolding claim_free
borrows-IsExclusive i s o = elim (Bool-cases (is_free (s.pool.status i))) [
  | inl e ↦ simp e (record {
    borrowed = λ a. ground (arith, o.borrowed a, o.borrowed i, free_unused (s.pool.status i) e);
    repaired = λ a j. ground (arith, o.repaired a j);
  })
  | inr e ↦ simp e (record { borrowed = o.borrowed; repaired = o.repaired })
]

starts-IsExclusive :
    (i : ℕ) (s : Slots) → IsExclusive s → IsExclusive (begin_connect i s (claim_inactive i s.pool))
unfolding claim_inactive
starts-IsExclusive i s o = elim (Bool-cases (is_inactive (s.pool.status i))) [
  | inl e ↦ simp e (record {
    borrowed = λ a. ground (arith, o.borrowed a, o.borrowed i, inactive_unused (s.pool.status i) e);
    repaired = λ a j. ground (arith, o.repaired a j);
  })
  | inr e ↦ simp e (record { borrowed = o.borrowed; repaired = o.repaired })
]

-- A slot in the hands of somebody is not the janitor's.
not_repaired :
    (i a : ℕ) (s : Slots)
    → 0 < count i s.lent + count i s.connecting
    → IsExclusive s
    → s.janitor ≡ some a
    → (a == i) ≡ false
not_repaired i a s held o j = ground (arith, o.repaired a j, o.borrowed i, o.borrowed a)

-- The status of a borrowed slot changes, and its borrower lets it go.
put-dead :
    (i a : ℕ) (st : ℕ → SlotStatus) (x : SlotStatus)
    → st a ≡ dead
    → (a == i) ≡ false
    → put st i x a ≡ dead
put-dead i a st x e d = simp d e

connects-IsExclusive :
    (i : ℕ) (made : Option ℕ) (s : Slots)
    → 0 < count i s.connecting
    → IsExclusive s
    → IsExclusive (end_connect i made s)
unfolding promote
connects-IsExclusive i none s held o = record {
  borrowed = λ a. ground (arith, o.borrowed a, o.borrowed i, count-erase a i s.connecting held);
  repaired = λ a j.
      put-dead i a s.pool.status dead (o.repaired a j) (not_repaired i a s (omega arith) o j);
}
connects-IsExclusive i (some c) s held o = record {
  borrowed = λ a. ground (arith, o.borrowed a, count-erase a i s.connecting held);
  repaired = o.repaired;
}

releases-IsExclusive :
    (i : ℕ) (x : SlotStatus) (s : Slots)
    → 0 < count i s.lent
    → borrowers x ≡ 0
    → IsExclusive s
    → IsExclusive (record s { pool = with_status i x s.pool; lent = erase i s.lent })
releases-IsExclusive i x s held e o = record {
  borrowed = λ a. ground (arith, o.borrowed a, o.borrowed i, count-erase a i s.lent held, e);
  repaired =
      λ a j. put-dead i a s.pool.status x (o.repaired a j) (not_repaired i a s (omega arith) o j);
}

inspects-IsExclusive :
    (i : ℕ) (healthy : Bool) (s : Slots)
    → IsExclusive s
    → IsExclusive (begin_repair i s (inspect healthy i s.pool))
unfolding inspect
inspects-IsExclusive i healthy s o = elim (Bool-cases (is_dead (s.pool.status i))) [
  | inl d ↦ simp d (record { borrowed = o.borrowed; repaired = λ a j. ground (arith, d, j) })
  | inr nd ↦ elim (Bool-cases (is_free (s.pool.status i))) [
    | inl e ↦ by_health healthy e nd
    | inr e ↦ simp (nd, e) (record { borrowed = o.borrowed; repaired = λ a j. absurd cc })
  ]
]
  where
    by_health :
        (b : Bool)
        → is_free (s.pool.status i) ≡ true
        → is_dead (s.pool.status i) ≡ false
        → IsExclusive (begin_repair i s (inspect b i s.pool))
    by_health true e nd =
        simp (nd, e) (record { borrowed = o.borrowed; repaired = λ a j. absurd cc })
    by_health false e nd =
        simp (nd, e)
          (record {
            borrowed =
                λ a. ground (arith, o.borrowed a, o.borrowed i, free_unused (s.pool.status i) e);
            repaired = λ a j. ground (arith, j);
          })

repairs-IsExclusive :
    (i : ℕ) (made : Option ℕ) (s : Slots)
    → s.janitor ≡ some i
    → IsExclusive s
    → IsExclusive (record s { pool = repair i made s.pool; janitor = none })
unfolding repair
repairs-IsExclusive i none s j o = record {
  borrowed = λ a.
      ground (arith, o.borrowed a, o.borrowed i, dead_unused (s.pool.status i) (o.repaired i j));
  repaired = λ a k. absurd cc;
}
repairs-IsExclusive i (some c) s j o = record {
  borrowed = λ a.
      ground (arith, o.borrowed a, o.borrowed i, dead_unused (s.pool.status i) (o.repaired i j));
  repaired = λ a k. absurd cc;
}

SlotStep-IsExclusive : {s t : Slots} → SlotStep s t → IsExclusive s → IsExclusive t
unfolding release
SlotStep-IsExclusive (borrows i s) o = borrows-IsExclusive i s o
SlotStep-IsExclusive (starts i s) o = starts-IsExclusive i s o
SlotStep-IsExclusive (connects i made s held) o = connects-IsExclusive i made s held o
SlotStep-IsExclusive (releases i true s held) o = releases-IsExclusive i free s held refl o
SlotStep-IsExclusive (releases i false s held) o = releases-IsExclusive i dead s held refl o
SlotStep-IsExclusive (inspects i healthy s idle) o = inspects-IsExclusive i healthy s o
SlotStep-IsExclusive (repairs i made s j) o = repairs-IsExclusive i made s j o

SlotReach-IsExclusive : {s t : Slots} → IsExclusive s → SlotReach s t → IsExclusive t
SlotReach-IsExclusive o here = o
SlotReach-IsExclusive o (next r step) = SlotStep-IsExclusive step (SlotReach-IsExclusive o r)

fill-unused :
    (connect : ℕ → Option ℕ) (n : ℕ) (p : SlotPool)
    → ((a : ℕ) → borrowers (p.status a) ≡ 0)
    → (a : ℕ) → borrowers ((fill connect n p).status a) ≡ 0
unfolding fill
fill-unused connect zero p h a = h a
fill-unused connect (suc n) p h a = elim (Option-cases (connect n)) [
  | inl e ↦ simp e (ground (arith, fill-unused connect n p h a))
  | inr (c, e) ↦ simp e (ground (arith, fill-unused connect n p h a))
]

-- A pool that nobody has borrowed from.
abbrev pub opened : SlotPool → Slots
opened p = record { pool = p; lent = []; connecting = []; janitor = none }

-- From construction on, however the accesses of concurrent acquires, releases and of the janitor
-- interleave while the pool is open, a slot is with one client or one connecting acquire exactly
-- when it is USED, with nobody otherwise, and a slot that the janitor repairs stays DEAD.
pub construct_slots-SlotReach-IsExclusive :
    {t : Slots} (capacity min_connections : ℕ) (connect : ℕ → Option ℕ)
    → SlotReach (opened (construct_slots capacity min_connections connect)) t
    → IsExclusive t
unfolding construct_slots
construct_slots-SlotReach-IsExclusive capacity min_connections connect r =
    SlotReach-IsExclusive
      (record {
        borrowed = λ a. sym (fill-unused connect min_connections _ (λ i. refl) a);
        repaired = λ a j. absurd cc;
      })
      r

-- Two clients that saw the pool open before its shutdown can both borrow a FREE slot: one takes it
-- after the shutdown has loaded its status, the other after the shutdown has stored INACTIVE over
-- USED, and the second replaces the connection that the first has.
pub shutdown_lends_twice :
    (p : SlotPool) (i c d : ℕ)
    → p.status i ≡ free
    → p.conn i ≡ some c
    → let seen = load_status i (close p) in
      let one = claim_free i (close p) in
      let stored = store_inactive seen i one.1 in
      let two = claim_inactive i stored in
      (one.0 ≡ true)
      × (one.1.conn i ≡ some c)
      × (two.0 ≡ true)
      × ((promote i (some d) two.1).conn i ≡ some d)
unfolding load_status close claim_free store_inactive claim_inactive promote
shutdown_lends_twice p i c d e k =
    let same : (i == i) ≡ true = (==_iff i i).1 refl in simp (e, same) (refl, k, refl, refl)

-- ===== src/Disruptor/Scan.antt =====
-- The published prefix of the claimed sequences.
use demiplane.Prelude.{
  ℕ, zero, suc, ◌+◌, ◌-◌, ◌≤◌, ◌<◌, ◌≡◌, true, false, ◌==◌, Bool-cases, inl, inr, arith, leb,
}
use demiplane.Disruptor.{
  Sequencer, is_available, publish, publish_batch, scan_published, get_highest_published,
}

-- `r` ends the run of published sequences that begins at `lower`.
pub record IsPrefix (s : Sequencer) (lower available r : ℕ) : Type 0 where
  pub after : lower ≤ r
  pub before : r ≤ available
  pub published : (t : ℕ) → lower ≤ t → t < r → is_available t s ≡ true
  pub gap : r < available → is_available r s ≡ false

scan_published-IsPrefix :
    (available lower count : ℕ) (s : Sequencer)
    → lower + count ≡ available
    → IsPrefix s lower available (scan_published available lower count s)
unfolding scan_published
scan_published-IsPrefix available lower zero s e = record {
  after = omega arith;
  before = omega arith;
  published = λ t a b. absurd (omega arith);
  gap = λ h. absurd (omega arith);
}
scan_published-IsPrefix available lower (suc count) s e =
    let rest = scan_published-IsPrefix available (lower + 1) count s (omega arith) in
    elim (Bool-cases (is_available lower s)) [
      | inl h ↦ rw h (record {
        after = omega (arith, rest.after);
        before = rest.before;
        published = λ t a b. elim (Bool-cases (t == lower)) [
          | inl k ↦ let same : t ≡ lower = ground (arith, k) in rw same h
          | inr k ↦ rest.published t (ground (arith, k)) b
        ];
        gap = rest.gap;
      })
      | inr h ↦ rw h (record {
        after = omega arith;
        before = omega arith;
        published = λ t a b. absurd (omega arith);
        gap = λ _. h;
      })
    ]

-- get_highest_published gives the end of the published run: every sequence from the lower bound up
-- to it is published, and the one after it is not, unless it is the last one claimed.
pub get_highest_published-IsPrefix :
    (lower available : ℕ) (s : Sequencer)
    → lower ≤ available
    → IsPrefix s lower available (get_highest_published lower available s)
unfolding get_highest_published
get_highest_published-IsPrefix lower available s h =
    scan_published-IsPrefix available lower (available - lower) s (omega arith)

is_available-publish :
    (t n : ℕ) (s : Sequencer) → is_available t s ≡ true → is_available t (publish n s) ≡ true
unfolding is_available publish
is_available-publish t n s h = ground (arith, h)

is_available-publish_self : (n : ℕ) (s : Sequencer) → is_available n (publish n s) ≡ true
unfolding is_available publish
is_available-publish_self n s = ground arith

is_available-publish_batch :
    (t lo count : ℕ) (s : Sequencer)
    → is_available t s ≡ true
    → is_available t (publish_batch lo count s) ≡ true
unfolding publish_batch
is_available-publish_batch t lo zero s h = h
is_available-publish_batch t lo (suc count) s h =
    is_available-publish_batch t (lo + 1) count (publish lo s) (is_available-publish t lo s h)

publish_batch_all :
    (t lo count : ℕ) (s : Sequencer)
    → lo ≤ t
    → t < lo + count
    → is_available t (publish_batch lo count s) ≡ true
unfolding publish_batch
publish_batch_all t lo zero s a b = absurd (omega arith)
publish_batch_all t lo (suc count) s a b = elim (Bool-cases (t == lo)) [
  | inl k ↦
      let same : t ≡ lo = ground (arith, k) in
      rw same (
        is_available-publish_batch lo (lo + 1) count (publish lo s)
          (is_available-publish_self lo s))
  | inr k ↦ publish_batch_all t (lo + 1) count (publish lo s) (ground (arith, k)) (omega arith)
]

-- A batch that is published is seen by the consumer as a whole.
pub get_highest_published-publish_batch :
    (lo count : ℕ) (s : Sequencer)
    → get_highest_published lo (lo + count) (publish_batch lo count s) ≡ lo + count
get_highest_published-publish_batch lo count s =
    let t = publish_batch lo count s in
    let r = get_highest_published lo (lo + count) t in
    let p = get_highest_published-IsPrefix lo (lo + count) t (omega arith) in
    elim (Bool-cases (leb (lo + count) r)) [
      | inl h ↦ ground (arith, p.before, h)
      | inr h ↦
          let below : r < lo + count = ground (arith, h) in
          absurd (cc (p.gap below, publish_batch_all r lo count s p.after below))
    ]

-- ===== src/Pool/Blocking/Promises.antt =====
-- The holders on their way to a client (blocking_pool.cpp): assigned to a waiter that sleeps, or in a
-- posted handler that has not run.
use demiplane.Prelude.{
  ℕ, ◌+◌, ◌≤◌, ◌<◌, ◌≡◌, refl, ap, Option, none, some, List, [], ◌∷◌, ◌++◌, update, ◌==◌, ==_iff,
  Bool-cases, inl, inr, if◌then◌else◌, arith,
}
use demiplane.Pool.Blocking.{
  WaiterEntry, sync_waiter, async_waiter, Outcome, success, timed_out, operation_aborted, erase,
  erase_if, same_sync, same_async, hand_over, Pool,
}
use demiplane.Pool.Blocking.Counts.{count, count-append}

abbrev pub cons_some : Option ℕ → List ℕ → List ℕ
cons_some none l = l
cons_some (some h) l = h ∷ l

-- What is assigned to the waiters of a list.
abbrev pub promises : (ℕ → Option ℕ) → List ℕ → List ℕ
promises assigned [] = []
promises assigned (w ∷ ws) = cons_some (assigned w) (promises assigned ws)

-- What the handlers of a list are called with.
abbrev pub successes : List (ℕ × Outcome) → List ℕ
successes [] = []
successes ((w, success h) ∷ rest) = h ∷ successes rest
successes ((w, timed_out) ∷ rest) = successes rest
successes ((w, operation_aborted) ∷ rest) = successes rest

-- How often the waiter of a thread is queued.
abbrev pub queued : ℕ → List WaiterEntry → ℕ
queued w [] = 0
queued w (sync_waiter v ∷ rest) = (if w == v then 1 else 0) + queued w rest
queued w (async_waiter v ∷ rest) = queued w rest

pub count-promises-update :
    (a w h : ℕ) (assigned : ℕ → Option ℕ) (ws : List ℕ)
    → assigned w ≡ none
    → count a (promises (update assigned w (some h)) ws)
      ≡ count a (promises assigned ws) + (if a == h then count w ws else 0)
count-promises-update a w h assigned [] e = ground arith
count-promises-update a w h assigned (v ∷ ws) e =
    let rest = count-promises-update a w h assigned ws e in
    elim (Bool-cases (v == w)) [
      | inl k ↦ ground (arith, rest, k, e)
      | inr k ↦ ground (arith, rest, k)
    ]

count-cons_some :
    (a : ℕ) (o : Option ℕ) (l : List ℕ)
    → count a (cons_some o l) ≡ count a (cons_some o []) + count a l
count-cons_some a none l = omega arith
count-cons_some a (some h) l = omega arith

pub count-promises-erase :
    (a w : ℕ) (assigned : ℕ → Option ℕ) (ws : List ℕ)
    → 0 < count w ws
    → count a (cons_some (assigned w) []) + count a (promises assigned (erase w ws))
      ≡ count a (promises assigned ws)
count-promises-erase a w assigned [] h = absurd (omega arith)
count-promises-erase a w assigned (v ∷ ws) h =
    let whole = count-cons_some a (assigned v) (promises assigned ws) in
    elim (Bool-cases (v == w)) [
      | inl k ↦
          let same = ap (λ (u : ℕ). count a (cons_some (assigned u) [])) ((==_iff v w).0 k) in
          simp k (omega (arith, whole, same))
      | inr k ↦
          let rest = count-promises-erase a w assigned ws (ground (arith, h, k)) in
          let fewer = count-cons_some a (assigned v) (promises assigned (erase w ws)) in
          simp k (omega (arith, rest, fewer, whole))
    ]

pub count-successes-append :
    (a : ℕ) (xs ys : List (ℕ × Outcome))
    → count a (successes (xs ++ ys)) ≡ count a (successes xs) + count a (successes ys)
count-successes-append a [] ys = omega arith
count-successes-append a ((w, success h) ∷ xs) ys = omega (arith, count-successes-append a xs ys)
count-successes-append a ((w, timed_out) ∷ xs) ys = count-successes-append a xs ys
count-successes-append a ((w, operation_aborted) ∷ xs) ys = count-successes-append a xs ys

pub queued-append :
    (w : ℕ) (xs ys : List WaiterEntry) → queued w (xs ++ ys) ≡ queued w xs + queued w ys
queued-append w [] ys = omega arith
queued-append w (sync_waiter v ∷ xs) ys = omega (arith, queued-append w xs ys)
queued-append w (async_waiter v ∷ xs) ys = queued-append w xs ys

pub queued-erase_sync :
    (v w : ℕ) (xs : List WaiterEntry)
    → queued v (erase_if (same_sync w) xs) ≡ (if v == w then 0 else queued v xs)
unfolding erase_if same_sync
queued-erase_sync v w [] = ground arith
queued-erase_sync v w (sync_waiter u ∷ xs) = ground (arith, queued-erase_sync v w xs)
queued-erase_sync v w (async_waiter u ∷ xs) = queued-erase_sync v w xs

pub queued-erase_async :
    (v w : ℕ) (xs : List WaiterEntry) → queued v (erase_if (same_async w) xs) ≡ queued v xs
unfolding erase_if same_async
queued-erase_async v w [] = refl
queued-erase_async v w (sync_waiter u ∷ xs) = ground (arith, queued-erase_async v w xs)
queued-erase_async v w (async_waiter u ∷ xs) = ground (arith, queued-erase_async v w xs)

-- What the loop of return_holder does with the holder: it is in one more place, and once.
pub record Handed (raw : ℕ) (ws : List WaiterEntry) (sleeping : List ℕ) (p q : Pool) : Type 0 where
  pub same_open : q.shutdown ≡ p.shutdown
  pub same_holders : q.holders ≡ p.holders
  pub same_created : q.created ≡ p.created
  pub placed :
      (a : ℕ)
      → count a q.free + count a (promises q.assigned sleeping) + count a (successes q.posted)
        ≡ count a p.free
          + count a (promises p.assigned sleeping)
          + count a (successes p.posted)
          + (if a == raw then 1 else 0)
  pub fewer : (w : ℕ) → queued w q.waiters ≤ queued w ws
  pub unserved : (w : ℕ) → 0 < queued w q.waiters → q.assigned w ≡ none

pub hand_over-Handed :
    (raw : ℕ) (ws : List WaiterEntry) (sleeping : List ℕ) (p : Pool)
    → ((w : ℕ) → queued w ws ≤ count w sleeping)
    → ((w : ℕ) → count w sleeping ≤ 1)
    → ((w : ℕ) → 0 < queued w ws → p.assigned w ≡ none)
    → Handed raw ws sleeping p (hand_over raw ws p)
unfolding hand_over
hand_over-Handed raw [] sl p q a u = record {
  same_open = refl;
  same_holders = refl;
  same_created = refl;
  placed = λ x. omega (arith, count-append x p.free (raw ∷ []));
  fewer = λ w. omega arith;
  unserved = λ w h. absurd (omega arith);
}
hand_over-Handed raw (sync_waiter w ∷ ws) sl p q a u = record {
  same_open = refl;
  same_holders = refl;
  same_created = refl;
  placed = λ x.
      ground (arith, count-promises-update x w raw p.assigned sl (u w (ground arith)), q w, a w);
  fewer = λ v. omega arith;
  unserved = λ v h. elim (Bool-cases (v == w)) [
    | inl k ↦ absurd (ground (arith, k, h, q v, a v))
    | inr k ↦ simp k (u v (omega (arith, h)))
  ];
}
hand_over-Handed raw (async_waiter w ∷ ws) sl p q a u = elim (Bool-cases (p.claimed w)) [
  | inl e ↦
      let r = hand_over-Handed raw ws sl p q a u in
      simp e (record {
        same_open = r.same_open;
        same_holders = r.same_holders;
        same_created = r.same_created;
        placed = r.placed;
        fewer = r.fewer;
        unserved = r.unserved;
      })
  | inr e ↦ simp e (record {
    same_open = refl;
    same_holders = refl;
    same_created = refl;
    placed = λ x. omega (arith, count-successes-append x p.posted ((w, success raw) ∷ []));
    fewer = λ v. omega arith;
    unserved = u;
  })
]

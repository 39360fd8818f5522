-- ===== src/Pool/Blocking/Places.antt =====
-- Where the holders of the pool (blocking_pool.cpp) are, and the sections that move them.
use demiplane.Prelude.{
  ℕ, ◌+◌, ◌≤◌, ◌<◌, ◌≡◌, refl, ap, inl, inr, false, Option, none, some, List, [], ◌∷◌, ◌++◌, length,
  length-append, ltb, ◌==◌, ==_iff, Bool-cases, arith,
}
use demiplane.Pool.Blocking.{
  sync_waiter, async_waiter, Outcome, success, timed_out, operation_aborted, Request, try_now,
  blocking, async, enqueue, room, take_free, enter, adopt, connected, woken,
  on_async_waiter_timeout,
}
use demiplane.Pool.Blocking.Counts.{count, count-append, count-erase}
use demiplane.Pool.Blocking.Promises.{
  promises, successes, queued, count-promises-erase, count-successes-append, queued-append,
  queued-erase_sync, queued-erase_async,
}
use demiplane.Pool.Blocking.Clients.{System, give, end_wait, receive, IsNew, IsFresh}

-- Each holder of the pool is in one place, once: it is free, with a client, assigned to a sleeping
-- waiter, or in a posted handler; the counter is their number. A queued waiter sleeps, once, and has
-- nothing assigned.
pub record Owned (s : System) : Type 0 where
  pub is_open : s.pool.shutdown ≡ false
  pub partition :
      (a : ℕ)
      → count a s.pool.holders
        ≡ count a s.pool.free
          + count a s.lent
          + count a (promises s.pool.assigned s.sleeping)
          + count a (successes s.pool.posted)
  pub once : (a : ℕ) → count a s.pool.holders ≤ 1
  pub counted : s.pool.created ≡ length s.pool.holders
  pub asleep : (w : ℕ) → queued w s.pool.waiters ≤ count w s.sleeping
  pub alone : (w : ℕ) → count w s.sleeping ≤ 1
  pub unserved : (w : ℕ) → 0 < queued w s.pool.waiters → s.pool.assigned w ≡ none

enqueue-Owned :
    (r : Request) (s : System) → IsFresh r s → Owned s → Owned (give r s (enqueue r s.pool))
unfolding enqueue
enqueue-Owned try_now s f o = record {
  is_open = o.is_open;
  partition = o.partition;
  once = o.once;
  counted = o.counted;
  asleep = o.asleep;
  alone = o.alone;
  unserved = o.unserved;
}
enqueue-Owned (blocking w) s f o = record {
  is_open = o.is_open;
  partition = λ a. simp (f.0) (o.partition a);
  once = o.once;
  counted = o.counted;
  asleep = λ v. omega (arith, o.asleep v, queued-append v s.pool.waiters (sync_waiter w ∷ []));
  alone = λ v. ground (arith, o.alone v, f.1);
  unserved = λ v h. elim (Bool-cases (v == w)) [
    | inl k ↦ rw ((==_iff v w).0 k) f.0
    | inr k ↦
        o.unserved v (ground (arith, h, k, queued-append v s.pool.waiters (sync_waiter w ∷ [])))
  ];
}
enqueue-Owned (async w) s f o = record {
  is_open = o.is_open;
  partition = o.partition;
  once = o.once;
  counted = o.counted;
  asleep = λ v. omega (arith, o.asleep v, queued-append v s.pool.waiters (async_waiter w ∷ []));
  alone = o.alone;
  unserved =
      λ v h. o.unserved v (omega (arith, h, queued-append v s.pool.waiters (async_waiter w ∷ [])));
}

room-Owned : (r : Request) (s : System) → IsFresh r s → Owned s → Owned (give r s (room r s.pool))
unfolding room
room-Owned r s f o = elim (Bool-cases (ltb s.pool.created s.pool.capacity)) [
  | inl e ↦ simp e o
  | inr e ↦ simp e (enqueue-Owned r s f o)
]

take_free-Owned :
    (xs : List ℕ) (r : Request) (s : System)
    → s.pool.free ≡ xs
    → IsFresh r s
    → Owned s
    → Owned (give r s (take_free xs r s.pool))
unfolding take_free
take_free-Owned [] r s e f o = room-Owned r s f o
take_free-Owned (h ∷ rest) r s e f o = record {
  is_open = o.is_open;
  partition = λ a. omega (arith, o.partition a, ap (count a) e);
  once = o.once;
  counted = o.counted;
  asleep = o.asleep;
  alone = o.alone;
  unserved = o.unserved;
}

pub enter-Owned :
    (r : Request) (s : System) → IsFresh r s → Owned s → Owned (give r s (enter r s.pool))
unfolding enter
enter-Owned r s f o = simp o.is_open (take_free-Owned s.pool.free r s refl f o)

adopt-Owned :
    (r : Request) (made : Option ℕ) (s : System)
    → IsNew made s.pool.holders
    → IsFresh r s
    → Owned s
    → Owned (give r s (adopt r made s.pool))
unfolding adopt
adopt-Owned r none s new f o = enqueue-Owned r s f o
adopt-Owned r (some h) s new f o = record {
  is_open = o.is_open;
  partition = λ a. omega (arith, o.partition a, count-append a s.pool.holders (h ∷ []));
  once = λ a. ground (arith, o.once a, count-append a s.pool.holders (h ∷ []));
  counted = omega (arith, o.counted, length-append {0} s.pool.holders (h ∷ []));
  asleep = o.asleep;
  alone = o.alone;
  unserved = o.unserved;
}

pub connected-Owned :
    (r : Request) (made : Option ℕ) (s : System)
    → IsNew made s.pool.holders
    → IsFresh r s
    → Owned s
    → Owned (give r s (connected r made s.pool))
unfolding connected
connected-Owned try_now made s new f o = adopt-Owned try_now made s new f o
connected-Owned (blocking w) made s new f o = adopt-Owned (blocking w) made s new f o
connected-Owned (async w) made s new f o = simp o.is_open (adopt-Owned (async w) made s new f o)

pub wakes-Owned :
    (found : Option ℕ) (w : ℕ) (s : System)
    → s.pool.assigned w ≡ found
    → 0 < count w s.sleeping
    → Owned s
    → Owned (end_wait w s (woken found w s.pool))
unfolding woken
wakes-Owned none w s e h o = record {
  is_open = o.is_open;
  partition = λ a.
      omega
        (arith, o.partition a, simp e at (count-promises-erase a w s.pool.assigned s.sleeping h));
  once = o.once;
  counted = o.counted;
  asleep = λ v.
      ground
        (arith, o.asleep v, count-erase v w s.sleeping h, queued-erase_sync v w s.pool.waiters);
  alone = λ v. omega (arith, o.alone v, count-erase v w s.sleeping h);
  unserved = λ v k. o.unserved v (ground (arith, k, queued-erase_sync v w s.pool.waiters));
}
wakes-Owned (some g) w s e h o = record {
  is_open = o.is_open;
  partition = λ a.
      omega
        (arith, o.partition a, simp e at (count-promises-erase a w s.pool.assigned s.sleeping h));
  once = o.once;
  counted = o.counted;
  asleep = λ v. elim (Bool-cases (v == w)) [
    | inl k ↦
        let same : v ≡ w = (==_iff v w).0 k in
        let idle : queued w s.pool.waiters ≡ 0 = ground (arith, o.unserved w, e) in
        rw same (omega (arith, idle))
    | inr k ↦ ground (arith, k, o.asleep v, count-erase v w s.sleeping h)
  ];
  alone = λ v. omega (arith, o.alone v, count-erase v w s.sleeping h);
  unserved = o.unserved;
}

pub timeout-Owned :
    (w : ℕ) (s : System) → Owned s → Owned (record s { pool = on_async_waiter_timeout w s.pool })
unfolding on_async_waiter_timeout
timeout-Owned w s o = elim (Bool-cases (s.pool.claimed w)) [
  | inl e ↦ simp e o
  | inr e ↦ simp e (record {
    is_open = o.is_open;
    partition = λ a.
        omega (arith, o.partition a, count-successes-append a s.pool.posted ((w, timed_out) ∷ []));
    once = o.once;
    counted = o.counted;
    asleep = λ v. omega (arith, o.asleep v, queued-erase_async v w s.pool.waiters);
    alone = o.alone;
    unserved = λ v k. o.unserved v (omega (arith, k, queued-erase_async v w s.pool.waiters));
  })
]

count-receive :
    (a w : ℕ) (out : Outcome) (before after : List (ℕ × Outcome)) (lent : List ℕ)
    → count a (receive out lent) + count a (successes (before ++ after))
      ≡ count a lent + count a (successes (before ++ (w, out) ∷ after))
count-receive a w (success h) before after lent = omega (
  arith,
  count-successes-append a before after,
  count-successes-append a before ((w, success h) ∷ after),
)
count-receive a w timed_out before after lent = omega (
  arith,
  count-successes-append a before after,
  count-successes-append a before ((w, timed_out) ∷ after),
)
count-receive a w operation_aborted before after lent = omega (
  arith,
  count-successes-append a before after,
  count-successes-append a before ((w, operation_aborted) ∷ after),
)

pub runs-Owned :
    (before after : List (ℕ × Outcome)) (w : ℕ) (out : Outcome) (s : System)
    → s.pool.posted ≡ before ++ (w, out) ∷ after
    → Owned s
    → Owned
        (record s { pool = record s.pool { posted = before ++ after }; lent = receive out s.lent })
runs-Owned before after w out s e o = record {
  is_open = o.is_open;
  partition = λ a. omega (
    arith,
    o.partition a,
    count-receive a w out before after s.lent,
    ap (λ (l : List (ℕ × Outcome)). count a (successes l)) e,
  );
  once = o.once;
  counted = o.counted;
  asleep = o.asleep;
  alone = o.alone;
  unserved = o.unserved;
}

-- ===== src/Pool/Blocking/Queue.antt =====
-- Where a released holder goes.
use demiplane.Prelude.{
  ℕ, ◌≡◌, refl, ap, ◌⊎◌, inl, inr, true, false, some, List, [], ◌∷◌, ◌++◌, All, Bool-cases, ==_iff,
}
use demiplane.Pool.Blocking.{
  WaiterEntry, sync_waiter, async_waiter, success, Pool, hand_over, return_holder,
}

-- An async waiter whose handler has been posted already. A blocked thread is never one.
abbrev pub IsClaimed : Pool → WaiterEntry → Type 0
IsClaimed p (sync_waiter w) = ⊥
IsClaimed p (async_waiter w) = p.claimed w ≡ true

-- The waiter has got the holder.
abbrev pub Given : WaiterEntry → ℕ → Pool → Pool → Type 0
Given (sync_waiter w) raw p q = (q.assigned w ≡ some raw) × (q.posted ≡ p.posted)
Given (async_waiter w) raw p q =
    (q.posted ≡ p.posted ++ (w, success raw) ∷ []) × (q.claimed w ≡ true)

-- `skipped`, then `e`, then the rest.
pub record Serves (raw : ℕ) (p q : Pool) (queue : List WaiterEntry) : Type 0 where
  pub skipped : List WaiterEntry
  pub served : WaiterEntry
  pub rest : List WaiterEntry
  pub split : queue ≡ skipped ++ served ∷ rest
  pub all_claimed : All (IsClaimed p) skipped
  pub unclaimed : ¬ IsClaimed p served
  pub waiters_left : q.waiters ≡ rest
  pub free_kept : q.free ≡ p.free
  pub given : Given served raw p q

pub record Parks (raw : ℕ) (p q : Pool) (queue : List WaiterEntry) : Type 0 where
  pub all_claimed : All (IsClaimed p) queue
  pub none_left : q.waiters ≡ []
  pub parked : q.free ≡ p.free ++ raw ∷ []
  pub nothing_posted : q.posted ≡ p.posted

-- A waiter with a posted handler in front is passed over.
pass_over :
    {raw w : ℕ} {p q : Pool} {rest : List WaiterEntry}
    → p.claimed w ≡ true
    → Serves raw p q rest ⊎ Parks raw p q rest
    → Serves raw p q (async_waiter w ∷ rest) ⊎ Parks raw p q (async_waiter w ∷ rest)
pass_over {w = w} e (inl s) = inl (record {
  skipped = async_waiter w ∷ s.skipped;
  served = s.served;
  rest = s.rest;
  split = ap (◌∷◌ (async_waiter w)) s.split;
  all_claimed = (e, s.all_claimed);
  unclaimed = s.unclaimed;
  waiters_left = s.waiters_left;
  free_kept = s.free_kept;
  given = s.given;
})
pass_over e (inr k) = inr (record {
  all_claimed = (e, k.all_claimed);
  none_left = k.none_left;
  parked = k.parked;
  nothing_posted = k.nothing_posted;
})

hand_over_queue :
    (raw : ℕ) (queue : List WaiterEntry) (p : Pool)
    → Serves raw p (hand_over raw queue p) queue ⊎ Parks raw p (hand_over raw queue p) queue
unfolding hand_over
hand_over_queue raw [] p =
    inr (record { all_claimed = tt; none_left = refl; parked = refl; nothing_posted = refl })
hand_over_queue raw (sync_waiter w ∷ rest) p = inl (record {
  skipped = [];
  served = sync_waiter w;
  rest = rest;
  split = refl;
  all_claimed = tt;
  unclaimed = λ h. h;
  waiters_left = refl;
  free_kept = refl;
  given = (rw ((==_iff w w).1 refl), refl);
})
hand_over_queue raw (async_waiter w ∷ rest) p = elim (Bool-cases (p.claimed w)) [
  | inl e ↦ simp e (pass_over e (hand_over_queue raw rest p))
  | inr e ↦ simp e (
      inl (record {
        skipped = [];
        served = async_waiter w;
        rest = rest;
        split = refl;
        all_claimed = tt;
        unclaimed = λ h. cc;
        waiters_left = refl;
        free_kept = refl;
        given = (refl, rw ((==_iff w w).1 refl));
      }))
]

-- When the pool is open, a released holder is given to the first waiter that is not an async waiter
-- with a posted handler: a blocked thread gets it assigned, an async waiter gets its handler posted
-- with it, and the waiters behind stay queued in order. If there is no such waiter, the holder is
-- parked at the back of the free list and the queue is empty.
pub return_holder_queue :
    (raw : ℕ) (p : Pool)
    → p.shutdown ≡ false
    → Serves raw p (return_holder raw p) p.waiters ⊎ Parks raw p (return_holder raw p) p.waiters
unfolding return_holder
return_holder_queue raw p e = simp e (hand_over_queue raw p.waiters p)

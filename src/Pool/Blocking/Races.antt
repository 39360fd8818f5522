-- ===== src/Pool/Blocking/Races.antt =====
-- Interleavings of BlockingPool that its callers would not expect.
use demiplane.Prelude.{
  ap, ◌∙◌, ℕ, ◌+◌, ◌≤◌, ◌<◌, ◌≡◌, ◌≢◌, refl, true, false, Option, none, some, List, [], ◌∷◌, ◌==◌,
  ==_iff, Bool-cases, inl, inr, arith,
}
use demiplane.Pool.Blocking.Counts.{decrement_lem}
use demiplane.Pool.Blocking.{
  WaiterEntry, sync_waiter, async_waiter, Pool, Request, try_now, blocking, async, connecting,
  waiting, holder, enter, connected, wake, return_holder, drop_dead, begin_shutdown,
  finish_shutdown, contains, take_free, room, enqueue, adopt, woken, hand_over, abort_waiters,
}

==-refl : (w : ℕ) → (w == w) ≡ true
==-refl w = (==_iff w w).1 refl

-- In an open pool with no free holder and room for one, two callers of `try_acquire` both find room
-- before either has connected; if both connect, one holder more than the capacity is counted.
pub two_connect :
    (p : Pool) (g h : ℕ)
    → p.shutdown ≡ false
    → p.free ≡ []
    → p.created + 1 ≡ p.capacity
    → let first = enter try_now p in
      let second = enter try_now first.1 in
      let one = connected try_now (some g) second.1 in
      let two = connected try_now (some h) one.1 in
      (first.0 ≡ connecting)
      × (second.0 ≡ connecting)
      × (one.0 ≡ holder g)
      × (two.0 ≡ holder h)
      × (two.1.created ≡ p.capacity + 1)
unfolding enter take_free room connected adopt
two_connect p g h o f c = ground arith

-- In an open pool with room, no free holder and no waiter, a holder that is released while a blocking
-- caller tries to connect is parked; if connecting then fails, the caller goes to sleep beside the
-- free holder.
pub sleeps_beside_free :
    (p : Pool) (w h : ℕ)
    → p.shutdown ≡ false
    → p.free ≡ []
    → p.waiters ≡ []
    → p.created < p.capacity
    → let asked = enter (blocking w) p in
      let released = return_holder h asked.1 in
      let slept = connected (blocking w) none released in
      (asked.0 ≡ connecting)
      × (slept.0 ≡ waiting)
      × (slept.1.free ≡ h ∷ [])
      × (slept.1.waiters ≡ sync_waiter w ∷ [])
unfolding enter take_free room return_holder hand_over connected adopt enqueue
sleeps_beside_free p w h o f q c = ground arith

-- In an open pool that counts at least one holder and no more than its capacity, dropping a dead
-- holder that it owns leaves room for a new one and the queue of waiters as it was.
pub drop_dead_strands :
    (p : Pool) (h : ℕ)
    → p.shutdown ≡ false
    → contains h p.holders ≡ true
    → 0 < p.created
    → p.created ≤ p.capacity
    → ((drop_dead h p).created < (drop_dead h p).capacity) × ((drop_dead h p).waiters ≡ p.waiters)
unfolding drop_dead
drop_dead_strands p h o c pos le =
    let less = decrement_lem p.created pos in simp (o, c) (omega arith, refl)

abort_waiters-assigned :
    (ws : List WaiterEntry) (p : Pool) → (abort_waiters ws p).assigned ≡ p.assigned
unfolding abort_waiters
abort_waiters-assigned [] p = refl
abort_waiters-assigned (sync_waiter w ∷ ws) p = abort_waiters-assigned ws p
abort_waiters-assigned (async_waiter w ∷ ws) p = elim (Bool-cases (p.claimed w)) [
  | inl e ↦ simp (e, abort_waiters-assigned ws)
  | inr e ↦ simp (e, abort_waiters-assigned ws)
]

abort_waiters-shutdown :
    (ws : List WaiterEntry) (p : Pool) → (abort_waiters ws p).shutdown ≡ p.shutdown
unfolding abort_waiters
abort_waiters-shutdown [] p = refl
abort_waiters-shutdown (sync_waiter w ∷ ws) p = abort_waiters-shutdown ws p
abort_waiters-shutdown (async_waiter w ∷ ws) p = elim (Bool-cases (p.claimed w)) [
  | inl e ↦ simp (e, abort_waiters-shutdown ws)
  | inr e ↦ simp (e, abort_waiters-shutdown ws)
]

wake-assigned : (w h : ℕ) (p : Pool) → p.assigned w ≡ some h → (wake w p).0 ≡ holder h
unfolding wake woken
wake-assigned w h p e = simp e

stopped-assigned : (p : Pool) → (finish_shutdown (begin_shutdown p).1).assigned ≡ p.assigned
unfolding begin_shutdown finish_shutdown
stopped-assigned p = abort_waiters-assigned p.waiters _

return_holder-assigned :
    (p : Pool) (w h : ℕ) (rest : List WaiterEntry)
    → p.shutdown ≡ false
    → p.waiters ≡ sync_waiter w ∷ rest
    → (return_holder h p).assigned w ≡ some h
unfolding return_holder hand_over
return_holder-assigned p w h rest o q = simp (o, q, ==-refl w)

-- In an open pool whose first waiter is a blocked thread, a holder is released and then the pool is
-- shut down before the thread runs: the thread is told to use that holder although the pool has
-- dropped all of its holders.
pub wakes_with_dropped :
    (p : Pool) (w h : ℕ) (rest : List WaiterEntry)
    → p.shutdown ≡ false
    → p.waiters ≡ sync_waiter w ∷ rest
    → let stopped = finish_shutdown (begin_shutdown (return_holder h p)).1 in
      ((wake w stopped).0 ≡ holder h) × (stopped.holders ≡ [])
unfolding finish_shutdown
wakes_with_dropped p w h rest o q = (
  wake-assigned w h _ (
      ap (λ (f : ℕ → Option ℕ). f w) (stopped-assigned (return_holder h p))
      ∙ return_holder-assigned p w h rest o q),
  refl,
)

-- A caller of `try_acquire` or `acquire` that connects after the pool was shut down gets the holder,
-- and the closed pool owns it.
pub connects_after_shutdown :
    (p : Pool) (r : Request) (h : ℕ)
    → ((w : ℕ) → r ≢ async w)
    → let stopped = finish_shutdown (begin_shutdown p).1 in
      let late = connected r (some h) stopped in
      (late.0 ≡ holder h) × (late.1.holders ≡ h ∷ []) × (late.1.shutdown ≡ true)
unfolding begin_shutdown finish_shutdown connected adopt
connects_after_shutdown p try_now h n = (refl, refl, abort_waiters-shutdown p.waiters _)
connects_after_shutdown p (blocking w) h n = (refl, refl, abort_waiters-shutdown p.waiters _)
connects_after_shutdown p (async w) h n = absurd (n w refl)

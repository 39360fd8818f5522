-- ===== src/Pool/Blocking/Invariant.antt =====
-- Calls that run one after the other, against the capacity and the queue.
use demiplane.Pool.Blocking.Counts.{count-contains, decrement_lem, length-erase}
use demiplane.Prelude.{
  length-append, ℕ, ◌+◌, ◌≤◌, ◌<◌, ◌≡◌, refl, ◌⊎◌, inl, inr, Bool, true, false, Option, none, some,
  List, [], ◌∷◌, length, ltb, Bool-cases, arith,
}
use demiplane.Pool.Blocking.{
  WaiterEntry, sync_waiter, async_waiter, Pool, Request, try_now, blocking, async, erase_if,
  same_sync, same_async, enqueue, room, take_free, adopt, connected, resume, acquire, woken, wake,
  on_async_waiter_timeout, hand_over, return_holder, drop_dead, reset, construct, start_with,
  contains, refusal,
}

-- A whole call, with what connecting gives, or the health of the connection.
pub data Call : Type 0 where
  acquires : Request → Option ℕ → Call
  wakes times_out : ℕ → Call
  resets : Bool → ℕ → Call

unfoldable pub step : Call → Pool → Pool
step (acquires r made) p = (acquire r made p).1
step (wakes w) p = (wake w p).1
step (times_out w) p = on_async_waiter_timeout w p
step (resets healthy h) p = reset healthy h p

unfoldable pub run : List Call → Pool → Pool
run [] p = p
run (c ∷ cs) p = run cs (step c p)

-- No more holders than were counted, and no more counted than the capacity.
abbrev pub Sized : Pool → Type 0
Sized p = (p.created ≤ p.capacity) × (length p.holders ≤ p.created)

pub record IsSettled (p : Pool) : Type 0 where
  pub within : Sized p
  pub idle : (p.free ≡ []) ⊎ (p.waiters ≡ [])

enqueue-IsSettled : (r : Request) (p : Pool) → Sized p → p.free ≡ [] → IsSettled (enqueue r p).1
unfolding enqueue
enqueue-IsSettled try_now p h e = record { within = h; idle = inl e }
enqueue-IsSettled (blocking w) p h e = record { within = h; idle = inl e }
enqueue-IsSettled (async w) p h e = record { within = h; idle = inl e }

adopt-IsSettled :
    (r : Request) (made : Option ℕ) (p : Pool)
    → p.created < p.capacity
    → length p.holders ≤ p.created
    → p.free ≡ []
    → IsSettled (adopt r made p).1
unfolding adopt
adopt-IsSettled r none p h k e = enqueue-IsSettled r p (omega arith, k) e
adopt-IsSettled r (some x) p h k e = record {
  within = (omega arith, omega (arith, length-append {0} p.holders (x ∷ [])));
  idle = inl e;
}

connected-IsSettled :
    (r : Request) (made : Option ℕ) (p : Pool)
    → p.created < p.capacity
    → length p.holders ≤ p.created
    → p.free ≡ []
    → IsSettled (connected r made p).1
unfolding connected
connected-IsSettled try_now made p h k e = adopt-IsSettled try_now made p h k e
connected-IsSettled (blocking w) made p h k e = adopt-IsSettled (blocking w) made p h k e
connected-IsSettled (async w) made p h k e = elim (Bool-cases p.shutdown) [
  | inl sd ↦ simp sd (record { within = (omega arith, k); idle = inl e })
  | inr sd ↦ simp sd (adopt-IsSettled (async w) made p h k e)
]

resume-enqueue :
    (r : Request) (made : Option ℕ) (p : Pool) → (resume r made (enqueue r p)).1 ≡ (enqueue r p).1
unfolding enqueue resume
resume-enqueue try_now made p = refl
resume-enqueue (blocking w) made p = refl
resume-enqueue (async w) made p = refl

resume-room-IsSettled :
    (r : Request) (made : Option ℕ) (p : Pool)
    → p.free ≡ []
    → IsSettled p
    → IsSettled (resume r made (room r p)).1
unfolding room
resume-room-IsSettled r made p e s = elim (Bool-cases (ltb p.created p.capacity)) [
  | inl lt ↦ simp lt (unfold resume in connected-IsSettled r made p (ground arith) s.within.1 e)
  | inr ge ↦ simp (ge, resume-enqueue) (enqueue-IsSettled r p s.within e)
]

entered-IsSettled :
    (xs : List ℕ) (r : Request) (made : Option ℕ) (p : Pool)
    → p.free ≡ xs
    → IsSettled p
    → IsSettled (resume r made (take_free xs r p)).1
unfolding take_free
entered-IsSettled [] r made p e s = resume-room-IsSettled r made p e s
entered-IsSettled (h ∷ rest) r made p e s =
    unfold resume in record { within = s.within; idle = inr (settled s.idle) }
  where
    settled : (p.free ≡ []) ⊎ (p.waiters ≡ []) → p.waiters ≡ []
    settled (inl none_free) = cc
    settled (inr none_wait) = none_wait

refused-IsSettled :
    (r : Request) (made : Option ℕ) (p : Pool)
    → IsSettled p
    → IsSettled (resume r made (refusal r, p)).1
unfolding resume
refused-IsSettled try_now made p s = s
refused-IsSettled (blocking w) made p s = s
refused-IsSettled (async w) made p s = s

acquire-IsSettled :
    (r : Request) (made : Option ℕ) (p : Pool) → IsSettled p → IsSettled (acquire r made p).1
unfolding acquire
acquire-IsSettled r made p s = elim (Bool-cases p.shutdown) [
  | inl sd ↦ simp sd (refused-IsSettled r made p s)
  | inr sd ↦ simp sd (entered-IsSettled p.free r made p refl s)
]

erase_if-nil : (test : WaiterEntry → Bool) (ws : List WaiterEntry) → ws ≡ [] → erase_if test ws ≡ []
unfolding erase_if
erase_if-nil test ws e = rw e

fewer_waiters :
    (test : WaiterEntry → Bool) (p : Pool)
    → IsSettled p
    → (p.free ≡ []) ⊎ (erase_if test p.waiters ≡ [])
fewer_waiters test p s = settled s.idle
  where
    settled : (p.free ≡ []) ⊎ (p.waiters ≡ []) → (p.free ≡ []) ⊎ (erase_if test p.waiters ≡ [])
    settled (inl none_free) = inl none_free
    settled (inr none_wait) = inr (erase_if-nil test p.waiters none_wait)

woken-IsSettled :
    (found : Option ℕ) (w : ℕ) (p : Pool) → IsSettled p → IsSettled (woken found w p).1
unfolding woken
woken-IsSettled (some h) w p s = s
woken-IsSettled none w p s = record { within = s.within; idle = fewer_waiters (same_sync w) p s }

timeout-IsSettled : (w : ℕ) (p : Pool) → IsSettled p → IsSettled (on_async_waiter_timeout w p)
unfolding on_async_waiter_timeout
timeout-IsSettled w p s = elim (Bool-cases (p.claimed w)) [
  | inl e ↦ simp e s
  | inr e ↦ simp e (record { within = s.within; idle = fewer_waiters (same_async w) p s })
]

hand_over-IsSettled :
    (raw : ℕ) (ws : List WaiterEntry) (p : Pool)
    → Sized p
    → (p.free ≡ []) ⊎ (ws ≡ [])
    → IsSettled (hand_over raw ws p)
unfolding hand_over
hand_over-IsSettled raw [] p h i = record { within = h; idle = inr refl }
hand_over-IsSettled raw (sync_waiter w ∷ ws) p h (inl e) = record { within = h; idle = inl e }
hand_over-IsSettled raw (sync_waiter w ∷ ws) p h (inr e) = cc
hand_over-IsSettled raw (async_waiter w ∷ ws) p h (inr e) = cc
hand_over-IsSettled raw (async_waiter w ∷ ws) p h (inl e) = elim (Bool-cases (p.claimed w)) [
  | inl c ↦ simp c (hand_over-IsSettled raw ws p h (inl e))
  | inr c ↦ simp c (record { within = h; idle = inl e })
]

reset-IsSettled : (healthy : Bool) (h : ℕ) (p : Pool) → IsSettled p → IsSettled (reset healthy h p)
unfolding reset return_holder drop_dead
reset-IsSettled true h p s = elim (Bool-cases p.shutdown) [
  | inl sd ↦ simp sd s
  | inr sd ↦ simp sd (hand_over-IsSettled h p.waiters p s.within s.idle)
]
reset-IsSettled false h p s = elim (Bool-cases p.shutdown) [
  | inl sd ↦ simp sd s
  | inr sd ↦ elim (Bool-cases (contains h p.holders)) [
    | inl c ↦
        let some_left = count-contains h p.holders c in
        let fewer = length-erase h p.holders some_left in
        let less = decrement_lem p.created (omega (arith, s.within.1)) in
        simp (sd, c)
          (record {
            within = (omega (arith, s.within.0), omega (arith, s.within.1));
            idle = s.idle;
          })
    | inr c ↦ simp (sd, c) s
  ]
]

step-IsSettled : (c : Call) (p : Pool) → IsSettled p → IsSettled (step c p)
unfolding step wake
step-IsSettled (acquires r made) p s = acquire-IsSettled r made p s
step-IsSettled (wakes w) p s = woken-IsSettled (p.assigned w) w p s
step-IsSettled (times_out w) p s = timeout-IsSettled w p s
step-IsSettled (resets healthy h) p s = reset-IsSettled healthy h p s

run-IsSettled : (cs : List Call) (p : Pool) → IsSettled p → IsSettled (run cs p)
unfolding run
run-IsSettled [] p s = s
run-IsSettled (c ∷ cs) p s = run-IsSettled cs (step c p) (step-IsSettled c p s)

start_with-IsSettled :
    (attempts : List (Option ℕ)) (p : Pool)
    → p.created + length attempts ≤ p.capacity
    → length p.holders ≤ p.created
    → p.waiters ≡ []
    → IsSettled (start_with attempts p)
unfolding start_with
start_with-IsSettled [] p h k e = record { within = (omega arith, k); idle = inr e }
start_with-IsSettled (none ∷ rest) p h k e = start_with-IsSettled rest p (omega arith) k e
start_with-IsSettled (some x ∷ rest) p h k e =
    start_with-IsSettled rest _ (omega arith) (omega (arith, length-append {0} p.holders (x ∷ [])))
      e

-- Built with at most `capacity` connections, and with calls that run one after the other, the pool
-- never counts more holders than its capacity, nor owns more than it counts, and never has both a free holder and a waiter.
pub run-construct-IsSettled :
    (capacity : ℕ) (attempts : List (Option ℕ)) (cs : List Call)
    → length attempts ≤ capacity
    → IsSettled (run cs (construct capacity attempts))
unfolding construct
run-construct-IsSettled capacity attempts cs h =
    run-IsSettled cs _ (start_with-IsSettled attempts _ (omega arith) (omega arith) refl)

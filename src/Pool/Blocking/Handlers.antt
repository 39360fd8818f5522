-- ===== src/Pool/Blocking/Handlers.antt =====
-- The handlers of async waiters: a release, the timer or shutdown posts them.
use demiplane.Prelude.{
  ℕ, ◌+◌, ◌≡◌, refl, Bool, true, false, Option, none, some, List, [], ◌∷◌, ◌++◌, ltb, ◌==◌,
  if◌then◌else◌, Bool-cases, inl, inr, arith,
}
use demiplane.Pool.Blocking.{
  WaiterEntry, sync_waiter, async_waiter, Outcome, Pool, Request, try_now, blocking, async, enqueue,
  room, take_free, enter, adopt, connected, woken, wake, on_async_waiter_timeout, hand_over,
  return_holder, drop_dead, reset, begin_shutdown, abort_waiters, finish_shutdown, construct,
  start_with, contains,
}

-- Any section of any call, shutdown included.
pub data Section : Type 0 where
  enters : Request → Section
  connects : Request → Option ℕ → Section
  wakes times_out : ℕ → Section
  resets : Bool → ℕ → Section
  begins_shutdown finishes_shutdown : Section

unfoldable pub execute : Section → Pool → Pool
execute (enters r) p = (enter r p).1
execute (connects r made) p = (connected r made p).1
execute (wakes w) p = (wake w p).1
execute (times_out w) p = on_async_waiter_timeout w p
execute (resets healthy h) p = reset healthy h p
execute begins_shutdown p = (begin_shutdown p).1
execute finishes_shutdown p = finish_shutdown p

unfoldable pub execute_all : List Section → Pool → Pool
execute_all [] p = p
execute_all (s ∷ ss) p = execute_all ss (execute s p)

-- How often the handler of a waiter has been posted.
abbrev pub posts : ℕ → List (ℕ × Outcome) → ℕ
posts w [] = 0
posts w ((v, o) ∷ rest) = (if w == v then 1 else 0) + posts w rest

posts-append : (w : ℕ) (xs ys : List (ℕ × Outcome)) → posts w (xs ++ ys) ≡ posts w xs + posts w ys
posts-append w [] ys = omega arith
posts-append w ((v, o) ∷ xs) ys = omega (arith, posts-append w xs ys)

abbrev pub PostedOnce : Pool → Type 0
PostedOnce p = (w : ℕ) → posts w p.posted ≡ (if p.claimed w then 1 else 0)

enqueue-PostedOnce : (r : Request) (p : Pool) → PostedOnce p → PostedOnce (enqueue r p).1
unfolding enqueue
enqueue-PostedOnce try_now p h = h
enqueue-PostedOnce (blocking w) p h = h
enqueue-PostedOnce (async w) p h = h

take_free-PostedOnce :
    (xs : List ℕ) (r : Request) (p : Pool) → PostedOnce p → PostedOnce (take_free xs r p).1
unfolding take_free room
take_free-PostedOnce (x ∷ xs) r p h = h
take_free-PostedOnce [] r p h = elim (Bool-cases (ltb p.created p.capacity)) [
  | inl e ↦ simp e h
  | inr e ↦ simp e (enqueue-PostedOnce r p h)
]

enter-PostedOnce : (r : Request) (p : Pool) → PostedOnce p → PostedOnce (enter r p).1
unfolding enter
enter-PostedOnce r p h = elim (Bool-cases p.shutdown) [
  | inl e ↦ simp e h
  | inr e ↦ simp e (take_free-PostedOnce p.free r p h)
]

adopt-PostedOnce :
    (r : Request) (made : Option ℕ) (p : Pool) → PostedOnce p → PostedOnce (adopt r made p).1
unfolding adopt
adopt-PostedOnce r none p h = enqueue-PostedOnce r p h
adopt-PostedOnce r (some x) p h = h

connected-PostedOnce :
    (r : Request) (made : Option ℕ) (p : Pool) → PostedOnce p → PostedOnce (connected r made p).1
unfolding connected
connected-PostedOnce try_now made p h = adopt-PostedOnce try_now made p h
connected-PostedOnce (blocking w) made p h = adopt-PostedOnce (blocking w) made p h
connected-PostedOnce (async w) made p h = elim (Bool-cases p.shutdown) [
  | inl e ↦ simp e h
  | inr e ↦ simp e (adopt-PostedOnce (async w) made p h)
]

woken-PostedOnce :
    (found : Option ℕ) (w : ℕ) (p : Pool) → PostedOnce p → PostedOnce (woken found w p).1
unfolding woken
woken-PostedOnce none w p h = h
woken-PostedOnce (some x) w p h = h

-- An unclaimed handler that is posted and claimed in one go.
claim-posts :
    (claimed : ℕ → Bool) (posted : List (ℕ × Outcome)) (v : ℕ) (o : Outcome)
    → ((w : ℕ) → posts w posted ≡ (if claimed w then 1 else 0))
    → claimed v ≡ false
    → (w : ℕ)
    → posts w (posted ++ (v, o) ∷ []) ≡ (if (if w == v then true else claimed w) then 1 else 0)
claim-posts claimed posted v o h e w = elim (Bool-cases (w == v)) [
  | inl same ↦ ground (arith, posts-append w posted ((v, o) ∷ []), h w, h v)
  | inr other ↦ ground (arith, posts-append w posted ((v, o) ∷ []), h w)
]

timeout-PostedOnce : (w : ℕ) (p : Pool) → PostedOnce p → PostedOnce (on_async_waiter_timeout w p)
unfolding on_async_waiter_timeout
timeout-PostedOnce w p h = elim (Bool-cases (p.claimed w)) [
  | inl e ↦ simp e h
  | inr e ↦ simp e (claim-posts p.claimed p.posted w _ h e)
]

hand_over-PostedOnce :
    (raw : ℕ) (ws : List WaiterEntry) (p : Pool) → PostedOnce p → PostedOnce (hand_over raw ws p)
unfolding hand_over
hand_over-PostedOnce raw [] p h = h
hand_over-PostedOnce raw (sync_waiter w ∷ ws) p h = h
hand_over-PostedOnce raw (async_waiter w ∷ ws) p h = elim (Bool-cases (p.claimed w)) [
  | inl e ↦ simp e (hand_over-PostedOnce raw ws p h)
  | inr e ↦ simp e (claim-posts p.claimed p.posted w _ h e)
]

reset-PostedOnce :
    (healthy : Bool) (raw : ℕ) (p : Pool) → PostedOnce p → PostedOnce (reset healthy raw p)
unfolding reset return_holder drop_dead
reset-PostedOnce true raw p h = elim (Bool-cases p.shutdown) [
  | inl e ↦ simp e h
  | inr e ↦ simp e (hand_over-PostedOnce raw p.waiters p h)
]
reset-PostedOnce false raw p h = elim (Bool-cases p.shutdown) [
  | inl e ↦ simp e h
  | inr e ↦ elim (Bool-cases (contains raw p.holders)) [
    | inl c ↦ simp (e, c) h
    | inr c ↦ simp (e, c) h
  ]
]

abort_waiters-PostedOnce :
    (ws : List WaiterEntry) (p : Pool) → PostedOnce p → PostedOnce (abort_waiters ws p)
unfolding abort_waiters
abort_waiters-PostedOnce [] p h = h
abort_waiters-PostedOnce (sync_waiter w ∷ ws) p h = abort_waiters-PostedOnce ws p h
abort_waiters-PostedOnce (async_waiter w ∷ ws) p h = elim (Bool-cases (p.claimed w)) [
  | inl e ↦ simp e (abort_waiters-PostedOnce ws p h)
  | inr e ↦ simp e (abort_waiters-PostedOnce ws _ (claim-posts p.claimed p.posted w _ h e))
]

execute-PostedOnce : (s : Section) (p : Pool) → PostedOnce p → PostedOnce (execute s p)
unfolding execute wake begin_shutdown finish_shutdown
execute-PostedOnce (enters r) p h = enter-PostedOnce r p h
execute-PostedOnce (connects r made) p h = connected-PostedOnce r made p h
execute-PostedOnce (wakes w) p h = woken-PostedOnce (p.assigned w) w p h
execute-PostedOnce (times_out w) p h = timeout-PostedOnce w p h
execute-PostedOnce (resets healthy raw) p h = reset-PostedOnce healthy raw p h
execute-PostedOnce begins_shutdown p h = h
execute-PostedOnce finishes_shutdown p h = abort_waiters-PostedOnce p.waiters p h

execute_all-PostedOnce :
    (ss : List Section) (p : Pool) → PostedOnce p → PostedOnce (execute_all ss p)
unfolding execute_all
execute_all-PostedOnce [] p h = h
execute_all-PostedOnce (s ∷ ss) p h =
    execute_all-PostedOnce ss (execute s p) (execute-PostedOnce s p h)

start_with-PostedOnce :
    (attempts : List (Option ℕ)) (p : Pool) → PostedOnce p → PostedOnce (start_with attempts p)
unfolding start_with
start_with-PostedOnce [] p h = h
start_with-PostedOnce (none ∷ rest) p h = start_with-PostedOnce rest p h
start_with-PostedOnce (some x ∷ rest) p h = start_with-PostedOnce rest _ h

-- After any sequence of sections of any calls, releases, timers and shutdown included, the handler
-- of each async waiter has been posted exactly once if its `claimed` flag is set, and not at all
-- otherwise.
pub execute_all-construct-PostedOnce :
    (capacity : ℕ) (attempts : List (Option ℕ)) (ss : List Section)
    → PostedOnce (execute_all ss (construct capacity attempts))
unfolding construct
execute_all-construct-PostedOnce capacity attempts ss =
    execute_all-PostedOnce ss _ (start_with-PostedOnce attempts _ (λ w. refl))

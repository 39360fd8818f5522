-- ===== src/Pool/Blocking/Clients.antt =====
-- The sections of concurrent calls on the pool (blocking_pool.cpp), as steps of it and its clients.
use demiplane.Prelude.{ℕ, ◌<◌, ◌≡◌, Bool, Option, none, some, List, ◌∷◌, ◌++◌}
use demiplane.Pool.Blocking.{
  Outcome, success, timed_out, operation_aborted, Pool, Request, try_now, blocking, async, Reply,
  empty, aborted, connecting, waiting, holder, erase, enter, connected, wake,
  on_async_waiter_timeout, reset,
}
use demiplane.Pool.Blocking.Counts.{count}

-- `lent` are the holders in the hands of clients: replied, found after a wait, or passed to a handler
-- that has run. `sleeping` are the waiters of the threads that are in their wait. A posted handler is
-- in `posted` until it runs.
pub record System : Type 0 where
  pub pool : Pool
  pub lent : List ℕ
  pub sleeping : List ℕ

abbrev pub sleep : Request → List ℕ → List ℕ
sleep try_now sleeping = sleeping
sleep (blocking w) sleeping = w ∷ sleeping
sleep (async w) sleeping = sleeping

-- The client gets what a section replies, or begins its wait.
abbrev pub give : Request → System → Reply × Pool → System
give r s (holder h, p) = record s { pool = p; lent = h ∷ s.lent }
give r s (empty, p) = record s { pool = p }
give r s (aborted, p) = record s { pool = p }
give r s (connecting, p) = record s { pool = p }
give r s (waiting, p) = record s { pool = p; sleeping = sleep r s.sleeping }

-- The thread of a waiter goes on with what the section after its wait replies.
abbrev pub end_wait : ℕ → System → Reply × Pool → System
end_wait w s (holder h, p) = record { pool = p; lent = h ∷ s.lent; sleeping = erase w s.sleeping }
end_wait w s (empty, p) = record s { pool = p; sleeping = erase w s.sleeping }
end_wait w s (aborted, p) = record s { pool = p; sleeping = erase w s.sleeping }
end_wait w s (connecting, p) = record s { pool = p; sleeping = erase w s.sleeping }
end_wait w s (waiting, p) = record s { pool = p; sleeping = erase w s.sleeping }

abbrev pub receive : Outcome → List ℕ → List ℕ
receive (success h) lent = h ∷ lent
receive timed_out lent = lent
receive operation_aborted lent = lent

-- A client gives a holder back.
abbrev pub give_back : Bool → ℕ → System → System
give_back healthy h s = record s { pool = reset healthy h s.pool; lent = erase h s.lent }

abbrev pub IsNew : Option ℕ → List ℕ → Type 0
IsNew none hs = Unit {0}
IsNew (some h) hs = count h hs ≡ 0

-- The `Waiter` of a blocking call is a new object, with no holder assigned.
abbrev pub IsFresh : Request → System → Type 0
IsFresh try_now s = Unit {0}
IsFresh (blocking w) s = (s.pool.assigned w ≡ none) × (count w s.sleeping ≡ 0)
IsFresh (async w) s = Unit {0}

-- One section of one call, or a handler that an executor runs, in any order. A connection that is
-- made is a new object, only a lent holder is reset, and only a sleeping waiter wakes.
pub data Step : System → System → Type 0 where
  enters : (r : Request) (s : System) → IsFresh r s → Step s (give r s (enter r s.pool))
  connects :
      (r : Request) (made : Option ℕ) (s : System)
      → IsNew made s.pool.holders
      → IsFresh r s
      → Step s (give r s (connected r made s.pool))
  wakes : (w : ℕ) (s : System) → 0 < count w s.sleeping → Step s (end_wait w s (wake w s.pool))
  times_out : (w : ℕ) (s : System) → Step s (record s { pool = on_async_waiter_timeout w s.pool })
  runs :
      (before after : List (ℕ × Outcome)) (w : ℕ) (o : Outcome) (s : System)
      → s.pool.posted ≡ before ++ (w, o) ∷ after
      → Step s
          (record s { pool = record s.pool { posted = before ++ after }; lent = receive o s.lent })
  gives_back :
      (healthy : Bool) (h : ℕ) (s : System) → 0 < count h s.lent → Step s (give_back healthy h s)

pub data Reach (s : System) : System → Type 0 where
  here : Reach s s
  next : {t u : System} → Reach s t → Step t u → Reach s u

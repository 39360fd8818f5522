-- ===== src/Pool/Blocking.antt =====
-- BlockingPool (components/database/providers/postgresql/session/blocking/pool). Each function is
-- one critical section under `mtx_`, or one atomic access: a call that unlocks to connect is split
-- there, so that calls can be interleaved. A holder, a waiter and an async waiter are numbers, as
-- addresses; what the objects contain stands in `assigned` and `claimed`. What the handler of a
-- queued async waiter is posted with is logged in `posted`. Connecting (`PQconnectdb`) is an argument: the new holder, or none.
pub mod Counts
pub mod Handlers
pub mod Invariant
pub mod Promises
pub mod Queue
pub mod Races
pub mod Stats
pub mod Clients
pub mod Places
pub mod System
pub mod Tests
use demiplane.Prelude.{
  ℕ, zero, suc, ◌^◌, ◌+◌, ◌-◌, Bool, true, false, not, Option, none, some, List, [], ◌∷◌, ◌++◌,
  length, ltb, ◌==◌, if◌then◌else◌, update,
}

pub data WaiterEntry : Type 0 where
  sync_waiter async_waiter : ℕ → WaiterEntry

-- What a posted handler is called with.
pub data Outcome : Type 0 where
  success : ℕ → Outcome
  timed_out operation_aborted : Outcome

pub record Pool : Type 0 where
  pub capacity : ℕ
  pub holders : List ℕ
  pub free : List ℕ
  pub waiters : List WaiterEntry
  pub created : ℕ
  pub shutdown : Bool
  pub assigned : ℕ → Option ℕ
  pub claimed : ℕ → Bool
  pub posted : List (ℕ × Outcome)

-- Who asks: `try_acquire`, `acquire` with its `Waiter`, `async_acquire` with its `AsyncWaiter`.
pub data Request : Type 0 where
  try_now : Request
  blocking async : ℕ → Request

-- What a section ends with: an empty `weak_ptr`, a holder, an aborted handler; or it goes on to
-- connect, or to wait.
pub data Reply : Type 0 where
  empty aborted connecting waiting : Reply
  holder : ℕ → Reply

abbrev pub refusal : Request → Reply
refusal try_now = empty
refusal (blocking w) = empty
refusal (async w) = aborted

-- No holder and no room: queue up, or give up.
unfoldable pub enqueue : Request → Pool → Reply × Pool
enqueue try_now p = (empty, p)
enqueue (blocking w) p = (waiting, record p { waiters = p.waiters ++ sync_waiter w ∷ [] })
enqueue (async w) p = (waiting, record p { waiters = p.waiters ++ async_waiter w ∷ [] })

-- `if (created_ < capacity) { lk.unlock(); ...`, otherwise the slow path.
unfoldable pub room : Request → Pool → Reply × Pool
unfolding enqueue
room r p = if ltb p.created p.capacity then (connecting, p) else enqueue r p

take_free : List ℕ → Request → Pool → Reply × Pool
unfolding room
take_free [] r p = room r p
take_free (h ∷ rest) r p = (holder h, record p { free = rest })

-- The first critical section of an acquire.
unfoldable pub enter : Request → Pool → Reply × Pool
unfolding take_free
enter r p = if p.shutdown then (refusal r, p) else take_free p.free r p

adopt : Request → Option ℕ → Pool → Reply × Pool
unfolding enqueue
adopt r none p = enqueue r p
adopt r (some h) p = (holder h, record p { created = p.created + 1; holders = p.holders ++ h ∷ [] })

-- The section after the attempt to connect. Only the asynchronous one looks at `shutdown_` again.
unfoldable pub connected : Request → Option ℕ → Pool → Reply × Pool
unfolding adopt
connected (async w) made p = if p.shutdown then (aborted, p) else adopt (async w) made p
connected r made p = adopt r made p

-- A whole acquire up to its wait, with nothing else in between.
resume : Request → Option ℕ → Reply × Pool → Reply × Pool
unfolding connected
resume r made (connecting, p) = connected r made p
resume r made (reply, p) = (reply, p)

unfoldable pub acquire : Request → Option ℕ → Pool → Reply × Pool
unfolding enter resume
acquire r made p = resume r made (enter r p)

pub same_sync : ℕ → WaiterEntry → Bool
same_sync w (sync_waiter v) = v == w
same_sync w (async_waiter v) = false

pub same_async : ℕ → WaiterEntry → Bool
same_async w (sync_waiter v) = false
same_async w (async_waiter v) = v == w

-- `std::erase_if`.
unfoldable pub erase_if {ℓ} : {A : Type ℓ} → (A → Bool) → List A → List A
erase_if test [] = []
erase_if test (x ∷ xs) = if test x then erase_if test xs else x ∷ erase_if test xs

pub woken : Option ℕ → ℕ → Pool → Reply × Pool
unfolding erase_if same_sync
woken (some h) w p = (holder h, p)
woken none w p = (empty, record p { waiters = erase_if (same_sync w) p.waiters })

-- `acquire` after its wait: the holder that a release assigned, or nothing.
unfoldable pub wake : ℕ → Pool → Reply × Pool
unfolding woken
wake w p = woken (p.assigned w) w p

unfoldable pub on_async_waiter_timeout : ℕ → Pool → Pool
unfolding erase_if same_async
on_async_waiter_timeout w p = if p.claimed w then p else record p {
  claimed = update p.claimed w true;
  waiters = erase_if (same_async w) p.waiters;
  posted = p.posted ++ (w, timed_out) ∷ [];
}

-- The loop of `return_holder` over the waiters.
unfoldable pub hand_over : ℕ → List WaiterEntry → Pool → Pool
hand_over raw [] p = record p { waiters = []; free = p.free ++ raw ∷ [] }
hand_over raw (sync_waiter w ∷ rest) p = record p {
  waiters = rest;
  assigned = update p.assigned w (some raw);
}
hand_over raw (async_waiter w ∷ rest) p =
    let next = hand_over raw rest p in
    if p.claimed w then next else record p {
      waiters = rest;
      claimed = update p.claimed w true;
      posted = p.posted ++ (w, success raw) ∷ [];
    }

unfoldable pub return_holder : ℕ → Pool → Pool
unfolding hand_over
return_holder raw p = if p.shutdown then p else hand_over raw p.waiters p

abbrev pub contains : ℕ → List ℕ → Bool
contains x [] = false
contains x (y ∷ ys) = if y == x then true else contains x ys

abbrev pub erase : ℕ → List ℕ → List ℕ
erase x [] = []
erase x (y ∷ ys) = if y == x then ys else y ∷ erase x ys

-- `--created_` of a `std::size_t`.
unfoldable pub decrement : ℕ → ℕ
decrement zero = 2 ^ 64 - 1
decrement (suc n) = n

-- `created_ - free_.size()` of `std::size_t`s.
unfoldable pub difference : ℕ → ℕ → ℕ
difference m n = if ltb m n then m + 2 ^ 64 - n else m - n

unfoldable pub drop_dead : ℕ → Pool → Pool
unfolding decrement
drop_dead raw p =
    if p.shutdown
    then p
    else if contains raw p.holders
    then record p { holders = erase raw p.holders; created = decrement p.created }
    else p

-- `QueuedHolder::reset`: `healthy` says that the cleanup worked and the connection is still good.
unfoldable pub reset : Bool → ℕ → Pool → Pool
unfolding return_holder drop_dead
reset healthy raw p = if healthy then return_holder raw p else drop_dead raw p

-- The `shutdown_` flag is exchanged before the mutex is taken.
unfoldable pub begin_shutdown : Pool → Bool × Pool
begin_shutdown p = (not p.shutdown, record p { shutdown = true })

abort_waiters : List WaiterEntry → Pool → Pool
abort_waiters [] p = p
abort_waiters (sync_waiter w ∷ rest) p = abort_waiters rest p
abort_waiters (async_waiter w ∷ rest) p = abort_waiters rest (
    if p.claimed w then p else record p {
      claimed = update p.claimed w true;
      posted = p.posted ++ (w, operation_aborted) ∷ [];
    })

unfoldable pub finish_shutdown : Pool → Pool
unfolding abort_waiters
finish_shutdown p = record (abort_waiters p.waiters p) { waiters = []; free = []; holders = [] }

unfoldable pub free_count : Pool → ℕ
free_count p = length p.free

unfoldable pub active_count : Pool → ℕ
unfolding difference
active_count p = difference p.created (length p.free)

unfoldable pub waiter_count : Pool → ℕ
waiter_count p = length p.waiters

start_with : List (Option ℕ) → Pool → Pool
start_with [] p = p
start_with (none ∷ rest) p = start_with rest p
start_with (some h ∷ rest) p =
    start_with rest
      (record p { created = p.created + 1; free = p.free ++ h ∷ []; holders = p.holders ++ h ∷ [] })

-- The constructor; the list has an attempt to connect for each of the `min_connections`.
unfoldable pub construct : ℕ → List (Option ℕ) → Pool
unfolding start_with
construct capacity attempts = start_with attempts (record {
  capacity = capacity;
  holders = [];
  free = [];
  waiters = [];
  created = 0;
  shutdown = false;
  assigned = λ w. none;
  claimed = λ w. false;
  posted = [];
})

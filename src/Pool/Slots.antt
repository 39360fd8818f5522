-- ===== src/Pool/Slots.antt =====
-- ConnectionPool, SlotHolder and PoolJanitor (components/database/providers/postgresql/session/
-- free_lock/pool). A slot is its index; `status` and `conn` are functions of it, since the indices
-- are masked to the fixed capacity. Each function but the scans is one atomic access with the work
-- on the slot that it makes exclusive. Connecting is an argument: the new connection, or none.
pub mod Borrow
pub mod Steps
pub mod Exclusive
pub mod Exhaustion
pub mod Tests
use Prim.Native.Nat.{bit_and}
use demiplane.Prelude.{
  ℕ, zero, suc, ◌+◌, ◌-◌, Bool, true, false, not, Option, none, some, ltb, ◌==◌, if◌then◌else◌,
}

pub data SlotStatus : Type 0 where
  free used waiting dead inactive : SlotStatus

pub record SlotPool : Type 0 where
  pub capacity : ℕ
  pub status : ℕ → SlotStatus
  pub conn : ℕ → Option ℕ
  pub hint_cursor : ℕ
  pub shutdown : Bool

abbrev pub put {ℓ} : {A : Type ℓ} → (ℕ → A) → ℕ → A → ℕ → A
put f k x j = if j == k then x else f j

abbrev pub is_free : SlotStatus → Bool
is_free free = true
is_free used = false
is_free waiting = false
is_free dead = false
is_free inactive = false

abbrev pub is_inactive : SlotStatus → Bool
is_inactive free = false
is_inactive used = false
is_inactive waiting = false
is_inactive dead = false
is_inactive inactive = true

abbrev pub is_dead : SlotStatus → Bool
is_dead free = false
is_dead used = false
is_dead waiting = false
is_dead dead = true
is_dead inactive = false

-- USED or WAITING.
abbrev pub is_active : SlotStatus → Bool
is_active free = false
is_active used = true
is_active waiting = true
is_active dead = false
is_active inactive = false

abbrev pub mask : SlotPool → ℕ
mask p = p.capacity - 1

abbrev pub with_status : ℕ → SlotStatus → SlotPool → SlotPool
with_status i x p = record p { status = put p.status i x }

-- The two exchanges of `acquire_slot`, from FREE and from INACTIVE to USED.
unfoldable pub claim_free : ℕ → SlotPool → Bool × SlotPool
claim_free i p = if is_free (p.status i) then (true, with_status i used p) else (false, p)

unfoldable pub claim_inactive : ℕ → SlotPool → Bool × SlotPool
claim_inactive i p = if is_inactive (p.status i) then (true, with_status i used p) else (false, p)

abbrev pub replace_conn : ℕ → Option ℕ → SlotPool → SlotPool
replace_conn i c p = record p { conn = put p.conn i c }

-- What follows a slot's exchange from INACTIVE: it is dead, or it gets its connection.
unfoldable pub promote : ℕ → Option ℕ → SlotPool → SlotPool
promote i none p = with_status i dead p
promote i (some c) p = replace_conn i (some c) p

abbrev pub advance : ℕ → SlotPool → SlotPool
advance idx p = record p { hint_cursor = bit_and (idx + 1) (mask p) }

-- The loops of `acquire_slot` with no other thread in between; the first argument counts the rounds
-- that are left.
unfoldable pub scan_free : ℕ → ℕ → SlotPool → Option ℕ × SlotPool
unfolding claim_free
scan_free zero at p = (none, p)
scan_free (suc left) at p =
    let idx = bit_and at (mask p) in
    let rest = scan_free left (at + 1) p in
    let (won, q) = claim_free idx p in if won then (some idx, advance idx q) else rest

settle : Option ℕ → ℕ → SlotPool → Option ℕ × SlotPool → Option ℕ × SlotPool
settle (some c) idx p rest = (some idx, advance idx p)
settle none idx p rest = rest

unfoldable pub scan_inactive : (ℕ → Option ℕ) → ℕ → ℕ → SlotPool → Option ℕ × SlotPool
unfolding claim_inactive promote settle
scan_inactive connect zero at p = (none, p)
scan_inactive connect (suc left) at p =
    let idx = bit_and at (mask p) in
    let (won, q) = claim_inactive idx p in
    let made = promote idx (connect idx) q in
    let passed = scan_inactive connect left (at + 1) p in
    let failed = scan_inactive connect left (at + 1) made in
    if won then settle (connect idx) idx made failed else passed

or_inactive : (ℕ → Option ℕ) → SlotPool → Option ℕ × SlotPool → Option ℕ × SlotPool
unfolding scan_inactive
or_inactive connect p (some idx, q) = (some idx, q)
or_inactive connect p (none, q) = scan_inactive connect p.capacity p.hint_cursor q

-- `connect idx` is what connecting for the slot gives.
unfoldable pub acquire_slot : (ℕ → Option ℕ) → SlotPool → Option ℕ × SlotPool
unfolding scan_free or_inactive
acquire_slot connect p =
    if p.shutdown then (none, p) else or_inactive connect p (scan_free p.capacity p.hint_cursor p)

-- `SlotHolder::reset`: `cleaned` says that the cleanup worked.
unfoldable pub release : Bool → ℕ → SlotPool → SlotPool
release cleaned i p = with_status i (if cleaned then free else dead) p

-- The janitor takes a slot that is dead, or that is free with a bad connection.
unfoldable pub inspect : Bool → ℕ → SlotPool → Bool × SlotPool
inspect healthy i p =
    if is_dead (p.status i)
    then (true, p)
    else if is_free (p.status i)
    then (if healthy then (false, p) else (true, with_status i dead p))
    else (false, p)

-- The janitor's stores after its attempt to connect.
unfoldable pub repair : ℕ → Option ℕ → SlotPool → SlotPool
repair i none p = with_status i inactive (replace_conn i none p)
repair i (some c) p = with_status i free (replace_conn i (some c) p)

fill_slot : ℕ → Option ℕ → SlotPool → SlotPool
fill_slot i none p = with_status i dead p
fill_slot i (some c) p = with_status i free (replace_conn i (some c) p)

fill : (ℕ → Option ℕ) → ℕ → SlotPool → SlotPool
unfolding fill_slot
fill connect zero p = p
fill connect (suc i) p = fill_slot i (connect i) (fill connect i p)

-- The constructor, with `min_connections` attempts to connect.
unfoldable pub construct_slots : ℕ → ℕ → (ℕ → Option ℕ) → SlotPool
unfolding fill
construct_slots capacity min_connections connect = fill connect min_connections (record {
  capacity = capacity;
  status = λ i. inactive;
  conn = λ i. none;
  hint_cursor = 0;
  shutdown = false;
})

-- `shutdown`: the flag, then for each slot a load and a store.
unfoldable pub close : SlotPool → SlotPool
close p = record p { shutdown = true }

unfoldable pub load_status : ℕ → SlotPool → SlotStatus
load_status i p = p.status i

unfoldable pub store_inactive : SlotStatus → ℕ → SlotPool → SlotPool
store_inactive seen i p = if is_active seen then p else with_status i inactive p

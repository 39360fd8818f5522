-- ===== src/Pool/Slots/Steps.antt =====
-- The accesses of clients, connecting acquires and the janitor to the slots, as steps.
use demiplane.Prelude.{ℕ, ◌<◌, ◌≡◌, Bool, Option, none, some, List, ◌∷◌, if◌then◌else◌}
use demiplane.Pool.Blocking.{erase}
use demiplane.Pool.Blocking.Counts.{count}
use demiplane.Pool.Slots.{SlotPool, claim_free, claim_inactive, promote, release, inspect, repair}

-- `lent` are the slots in the hands of clients, `connecting` those that an acquire is connecting,
-- `janitor` the slot that the janitor is repairing.
pub record Slots : Type 0 where
  pub pool : SlotPool
  pub lent : List ℕ
  pub connecting : List ℕ
  pub janitor : Option ℕ

abbrev pub borrow : ℕ → Slots → Bool × SlotPool → Slots
borrow i s (won, p) = record s { pool = p; lent = if won then i ∷ s.lent else s.lent }

abbrev pub begin_connect : ℕ → Slots → Bool × SlotPool → Slots
begin_connect i s (won, p) = record s {
  pool = p;
  connecting = if won then i ∷ s.connecting else s.connecting;
}

abbrev pub end_connect : ℕ → Option ℕ → Slots → Slots
end_connect i none s = record s { pool = promote i none s.pool; connecting = erase i s.connecting }
end_connect i (some c) s = record s {
  pool = promote i (some c) s.pool;
  connecting = erase i s.connecting;
  lent = i ∷ s.lent;
}

abbrev pub begin_repair : ℕ → Slots → Bool × SlotPool → Slots
begin_repair i s (taken, p) = record s { pool = p; janitor = if taken then some i else none }

-- One access of one thread; the janitor repairs one slot at a time.
pub data SlotStep : Slots → Slots → Type 0 where
  borrows : (i : ℕ) (s : Slots) → SlotStep s (borrow i s (claim_free i s.pool))
  starts : (i : ℕ) (s : Slots) → SlotStep s (begin_connect i s (claim_inactive i s.pool))
  connects :
      (i : ℕ) (made : Option ℕ) (s : Slots)
      → 0 < count i s.connecting
      → SlotStep s (end_connect i made s)
  releases :
      (i : ℕ) (cleaned : Bool) (s : Slots)
      → 0 < count i s.lent
      → SlotStep s (record s { pool = release cleaned i s.pool; lent = erase i s.lent })
  inspects :
      (i : ℕ) (healthy : Bool) (s : Slots)
      → s.janitor ≡ none
      → SlotStep s (begin_repair i s (inspect healthy i s.pool))
  repairs :
      (i : ℕ) (made : Option ℕ) (s : Slots)
      → s.janitor ≡ some i
      → SlotStep s (record s { pool = repair i made s.pool; janitor = none })

pub data SlotReach (s : Slots) : Slots → Type 0 where
  here : SlotReach s s
  next : {t u : Slots} → SlotReach s t → SlotStep t u → SlotReach s u

-- ===== src/Nexus/Calls.antt =====
-- The steps of calls of `get` for one key from several threads, section by section.
use demiplane.Prelude.{ℕ, ◌≡◌, Bool, true, false, Option, update}
use demiplane.Nexus.{
  Key, Slot, Services, same_key, put, Phase, calling, missed, fetched, locked, building, built,
  returned, section, sweep,
}

-- The calls, by number, that run on the slots.
pub record Calls : Type 0 where
  pub slots : Services
  pub phase : ℕ → Phase

-- A call in one of these phases has the construction mutex, one in the last two the factory to run.
abbrev pub holds : Phase → Bool
holds calling = false
holds missed = false
holds (fetched f) = false
holds (locked f) = true
holds (building f) = true
holds (built o) = true
holds (returned g) = false

abbrev pub makes : Phase → Bool
makes calling = false
makes missed = false
makes (fetched f) = false
makes (locked f) = false
makes (building f) = true
makes (built o) = true
makes (returned g) = false

abbrev pub waits : Phase → Bool
waits calling = false
waits missed = false
waits (fetched f) = true
waits (locked f) = false
waits (building f) = false
waits (built o) = false
waits (returned g) = false

abbrev pub move : ℕ → Calls → Phase × Services → Calls
move i c (p, m) = record { slots = m; phase = update c.phase i p }

-- A section of a call, for which the factory may give another object each time; a call that waits
-- gets the mutex when no call has it. Between them the janitor sweeps and others write other keys.
pub data CallStep (k : Key) : Calls → Calls → Type 0 where
  runs :
      (i now : ℕ) (made : Option ℕ) (c : Calls)
      → (waits (c.phase i) ≡ true → (j : ℕ) → holds (c.phase j) ≡ false)
      → CallStep k c (move i c (section now made k (c.phase i) c.slots))
  sweeps :
      (now : ℕ) (use_count : ℕ → ℕ) (c : Calls)
      → CallStep k c (record c { slots = sweep now use_count c.slots })
  writes :
      (j : Key) (s : Slot) (c : Calls)
      → same_key j k ≡ false
      → CallStep k c (record c { slots = put j s c.slots })

pub data CallReach (k : Key) (c : Calls) : Calls → Type 0 where
  here : CallReach k c c
  next : {d e : Calls} → CallReach k c d → CallStep k d e → CallReach k c e

-- ===== src/Nexus.antt =====
-- Nexus, the registry of shared services (common/nexus/core/source/nexus.inl and nexus.cpp). A
-- function is one section under the lock of the map; `get` is up to four of them, and between the
-- second and the third it takes the construction mutex of the slot. A key is a type with an id, an
-- object and a factory are known by a number; a factory gives no null pointer. The clock and the use
-- counts are arguments.
pub mod Calls
pub mod Keeping
pub mod Lifetimes
pub mod Single
mod Tests
use demiplane.Prelude.{
  ℕ, zero, suc, ◌-◌, Bool, true, false, ◌&&◌, Option, none, some, List, [], ◌∷◌, ltb, ◌==◌,
  if◌then◌else◌,
}

pub record Key : Type 0 where
  pub type : ℕ
  pub id : ℕ

pub data Lifetime : Type 0 where
  resettable scoped immortal : Lifetime
  timed : ℕ → Lifetime

pub record Slot : Type 0 where
  pub obj : Option ℕ
  pub factory : Option ℕ
  pub lt : Lifetime
  pub last_touch : ℕ
  pub expired_flag : Option Bool

abbrev pub Services : Type 0
Services = List (Key × Slot)

abbrev pub same_key : Key → Key → Bool
same_key k j = k.type == j.type && k.id == j.id

unfoldable pub find : Key → Services → Option Slot
find k [] = none
find k ((j, s) ∷ rest) = if same_key j k then some s else find k rest

-- `map_[k] = s`, and a write to the slot of `k`.
unfoldable pub put : Key → Slot → Services → Services
put k s [] = (k, s) ∷ []
put k s ((j, t) ∷ rest) = if same_key j k then (k, s) ∷ rest else (j, t) ∷ put k s rest

abbrev is_some : Option Slot → Bool
is_some none = false
is_some (some s) = true

unfoldable pub erase : Key → Services → Services
erase k [] = []
erase k ((j, s) ∷ rest) = if same_key j k then rest else (j, s) ∷ erase k rest

abbrev pub is_timed : Lifetime → Bool
is_timed resettable = false
is_timed scoped = false
is_timed immortal = false
is_timed (timed idle) = true

-- What `map_[k]` makes of a key that is not there; the lifetime is assigned next.
abbrev blank : Slot
blank = record { obj = none; factory = none; lt = resettable; last_touch = 0; expired_flag = none }

abbrev slot_of : Option Slot → Slot
slot_of none = blank
slot_of (some s) = s

unfoldable pub register_factory : Key → ℕ → Lifetime → Services → Services
register_factory k f lt m =
    put k (record (slot_of (find k m)) { obj = none; factory = some f; lt = lt }) m

unfoldable pub register_object : ℕ → Key → ℕ → Lifetime → Services → Services
register_object now k o lt m =
    put k (record (slot_of (find k m)) { obj = some o; factory = none; lt = lt; last_touch = now })
      m

abbrev pub is_true : Option Bool → Bool
is_true none = false
is_true (some b) = b

-- The object of the slot, unless it is a timed one whose flag says that it has expired.
abbrev pub ready : Slot → Option ℕ
ready s = if is_timed s.lt && is_true s.expired_flag then none else s.obj

-- build_handle: the object, and the time of the access to a timed one.
unfoldable pub touch : ℕ → Slot → Slot
touch now s = if is_timed s.lt then record s { last_touch = now } else s

-- What a section of `get` finds.
pub data Look : Type 0 where
  hit : ℕ → Services → Look
  miss absent : Look

abbrev pub look_in : ℕ → Key → Services → Slot → Option ℕ → Look
look_in now k m s none = miss
look_in now k m s (some o) = hit o (put k (touch now s) m)

abbrev pub look_at : ℕ → Key → Services → Option Slot → Look
look_at now k m none = absent
look_at now k m (some s) = look_in now k m s (ready s)

-- The fast path, and the check that is made again under the construction mutex.
unfoldable pub look : ℕ → Key → Services → Look
look now k m = look_at now k m (find k m)

-- The copy of the factory; `none` is a key that is not registered.
abbrev pub fetch_at : Option Slot → Option (Option ℕ)
fetch_at none = none
fetch_at (some s) = some s.factory

unfoldable pub fetch : Key → Services → Option (Option ℕ)
fetch k m = fetch_at (find k m)

abbrev pub stored : ℕ → ℕ → Slot → Slot
stored now o s = record s {
  obj = some o;
  last_touch = now;
  expired_flag = if is_timed s.lt then some false else s.expired_flag;
}

abbrev pub store_at : ℕ → ℕ → Key → Services → Option Slot → Option Services
store_at now o k m none = none
store_at now o k m (some s) = some (put k (touch now (stored now o s)) m)

-- The last section; `none` is a registration that was removed during the construction.
unfoldable pub store : ℕ → ℕ → Key → Services → Option Services
store now o k m = store_at now o k m (find k m)

-- What `get` returns, or its exception.
pub data Got : Type 0 where
  handle : ℕ → Got
  not_registered no_factory factory_threw registration_removed : Got

-- Where a call of `get` is: before its first section, before the second, with the copy of the
-- factory before the construction mutex, with the mutex before the check that is made again, before
-- the factory, before the last section, and over.
pub data Phase : Type 0 where
  calling missed : Phase
  fetched locked building : Option ℕ → Phase
  built : ℕ → Phase
  returned : Got → Phase

abbrev pub after_fast_path : Services → Look → Phase × Services
after_fast_path m (hit o m') = (returned (handle o), m')
after_fast_path m miss = (missed, m)
after_fast_path m absent = (returned not_registered, m)

abbrev pub after_fetch : Option (Option ℕ) → Phase
after_fetch none = returned not_registered
after_fetch (some f) = fetched f

-- A key that has gone by then is found missing by the last section.
abbrev pub after_check : Option ℕ → Services → Look → Phase × Services
after_check f m (hit o m') = (returned (handle o), m')
after_check f m miss = (building f, m)
after_check f m absent = (building f, m)

abbrev pub after_factory : Option ℕ → Phase
after_factory none = returned factory_threw
after_factory (some o) = built o

abbrev pub after_store : ℕ → Services → Option Services → Phase × Services
after_store o m none = (returned registration_removed, m)
after_store o m (some m') = (returned (handle o), m')

-- The next section of a call; `made` is what the factory gives, `none` where it throws. The mutex is
-- taken from `fetched` to `locked`.
unfoldable pub section : ℕ → Option ℕ → Key → Phase → Services → Phase × Services
section now made k calling m = after_fast_path m (look now k m)
section now made k missed m = (after_fetch (fetch k m), m)
section now made k (fetched f) m = (locked f, m)
section now made k (locked f) m = after_check f m (look now k m)
section now made k (building none) m = (returned no_factory, m)
section now made k (building (some f)) m = (after_factory made, m)
section now made k (built o) m = after_store o m (store now o k m)
section now made k (returned g) m = (returned g, m)

unfoldable pub sections : ℕ → ℕ → Option ℕ → Key → Phase × Services → Phase × Services
sections zero now made k c = c
sections (suc n) now made k (p, m) = sections n now made k (section now made k p m)

-- A call of `get` that no other call comes between has six sections at most.
unfoldable pub get : ℕ → Option ℕ → Key → Services → Phase × Services
get now made k m = sections 6 now made k (calling, m)

pub data Reset : Type 0 where
  done : Services → Reset
  no_such_object only_resettable : Reset

abbrev is_resettable : Lifetime → Bool
is_resettable resettable = true
is_resettable scoped = false
is_resettable immortal = false
is_resettable (timed idle) = false

unfoldable pub reset : Key → Services → Reset
unfolding find erase
reset k m = elim (find k m) [
  | none ↦ no_such_object
  | some s ↦ if is_resettable s.lt then done (erase k m) else only_resettable
]

-- What the janitor does to a slot; `none` erases it.
unfoldable pub sweep_slot : ℕ → (ℕ → ℕ) → Slot → Option Slot
sweep_slot now use_count s = elim s.lt [
  | resettable ↦ some s
  | immortal ↦ some s
  | scoped ↦ elim s.obj [ none ↦ some s | some o ↦ if use_count o == 1 then none else some s ]
  | timed idle ↦ if ltb idle (now - s.last_touch) then some (record s { obj = none }) else some s
]

abbrev pub swept : Key → Option Slot → Services → Services
swept k none rest = rest
swept k (some s) rest = (k, s) ∷ rest

unfoldable pub sweep : ℕ → (ℕ → ℕ) → Services → Services
sweep now use_count [] = []
sweep now use_count ((k, s) ∷ rest) =
    swept k (sweep_slot now use_count s) (sweep now use_count rest)

unfoldable pub has : Key → Services → Bool
has k m = is_some (find k m)

unfoldable pub clear : Services → Services
clear m = []

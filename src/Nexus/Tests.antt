-- ===== src/Nexus/Tests.antt =====
-- Runs of the registry of services, and the theorems at concrete inputs.
use demiplane.Prelude.{ℕ, ◌+◌, ◌≡◌, refl, true, false, Option, none, some, [], ◌∷◌, arith}
use demiplane.Nexus.{
  Key, Slot, Services, immortal, timed, scoped, find, put, touch, look, fetch, store, calling,
  returned, handle, no_factory, section, sections, get, has, clear, sweep_slot, sweep,
  register_factory, register_object, reset, only_resettable, no_such_object,
}
use demiplane.Nexus.Calls.{Calls, CallStep, runs, CallReach, here, next, move, waits, holds}
use demiplane.Nexus.Single.{gets_agree}
use demiplane.Nexus.Lifetimes.{get-sweep-get, get-sweep_expired}

abbrev logger : Key
logger = record { type = 3; id = 0 }

abbrev cache : Key
cache = record { type = 4; id = 1 }

abbrev log_slot : Slot
log_slot = record {
  obj = none;
  factory = some 5;
  lt = immortal;
  last_touch = 0;
  expired_flag = none;
}

abbrev services : Services
services = (logger, log_slot) ∷ []

-- Call i, whose factory would give 40 + i.
abbrev by : ℕ → Calls → Calls
by i c = move i c (section 9 (some (40 + i)) logger (c.phase i) c.slots)

abbrev start : Calls
start = record { slots = services; phase = λ i. calling }

abbrev waiting : Calls
waiting = by 2 (by 1 (by 2 (by 1 start)))

abbrev first_done : Calls
first_done = by 1 (by 1 (by 1 (by 1 waiting)))

abbrev both_done : Calls
both_done = by 2 (by 2 first_done)

unlocked : (i : ℕ) (c : Calls) → waits (c.phase i) ≡ false → CallStep logger c (by i c)
unlocked i c h = runs i 9 (some (40 + i)) c (λ e. ground (arith, h, e))

locking : (i : ℕ) (c : Calls) → ((j : ℕ) → holds (c.phase j) ≡ false) → CallStep logger c (by i c)
locking i c h = runs i 9 (some (40 + i)) c (λ e. h)

reach_waiting : CallReach logger start waiting
unfolding find section put touch look fetch
reach_waiting =
    next (next (next (next here (unlocked 1 _ refl)) (unlocked 2 _ refl)) (unlocked 1 _ refl))
      (unlocked 2 _ refl)

reach_first : CallReach logger start first_done
unfolding find section put touch look fetch store
reach_first =
    next
      (next (next (next reach_waiting (locking 1 _ (λ j. ground arith))) (unlocked 1 _ refl))
        (unlocked 1 _ refl))
      (unlocked 1 _ refl)

reach_both : CallReach logger start both_done
unfolding find section put touch look fetch store
reach_both = next (next reach_first (locking 2 _ (λ j. ground arith))) (unlocked 2 _ refl)

gets_agree_example :
    (◌≡◌ {A = ℕ} 41 41) × ((t : Slot) × (find logger both_done.slots ≡ some t) × (t.obj ≡ some 41))
unfolding find section put touch look fetch store
gets_agree_example =
    gets_agree logger services log_slot both_done refl refl reach_both 1 2 41 41 refl refl

abbrev timed_slot : Option ℕ → Slot
timed_slot f = record {
  obj = some 8;
  factory = f;
  lt = timed 30;
  last_touch = 10;
  expired_flag = none;
}

abbrev cached : Services
cached = (logger, log_slot) ∷ (cache, timed_slot none) ∷ []

get-sweep-get_example :
    (get 60 (some 9) cache (sweep 50 (λ o. 1) (get 20 none cache cached).1)).0 ≡ returned (handle 8)
unfolding find section sections get put touch look fetch store
get-sweep-get_example =
    get-sweep-get 20 50 60 8 none (some 9) (λ o. 1) cache cached refl (λ s e. ground (arith, e))

get-sweep_expired_example : (get 60 none cache (sweep 50 (λ o. 1) cached)).0 ≡ returned no_factory
unfolding find
get-sweep_expired_example =
    get-sweep_expired 50 60 30 none (λ o. 1) cache cached (timed_slot none) refl refl (omega arith)

-- A registration replaces the object; a slot with another lifetime is not reset.
registered :
    find cache (register_object 70 cache 6 scoped cached)
    ≡ some
        (record { obj = some 6; factory = none; lt = scoped; last_touch = 70; expired_flag = none })
unfolding register_object find put
registered = refl

not_reset : reset logger (register_factory logger 2 immortal cached) ≡ only_resettable
unfolding reset register_factory find put
not_reset = refl

unknown : reset cache services ≡ no_such_object
unfolding reset find
unknown = refl

-- The janitor erases a scoped slot that nobody else has.
scoped_swept : find cache (sweep 80 (λ o. 1) (register_object 70 cache 6 scoped cached)) ≡ none
unfolding sweep sweep_slot register_object find put
scoped_swept = refl

cleared : has logger (clear services) ≡ false
unfolding has clear find
cleared = refl

present : has logger services ≡ true
unfolding has find
present = refl

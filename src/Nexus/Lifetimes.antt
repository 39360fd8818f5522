-- ===== src/Nexus/Lifetimes.antt =====
-- A call of `get` that no other call comes between, and the janitor after it.
use demiplane.Prelude.{
  ℕ, ◌+◌, ◌<◌, ◌≡◌, refl, ap, ◌∙◌, Bool, true, Option, none, some, ltb, ◌==◌, not, Option-cases,
  inl, inr, arith,
}
use demiplane.Nexus.{
  Key, Slot, Services, Lifetime, resettable, scoped, immortal, timed, find, put, is_timed,
  sweep_slot, ready, touch, stored, sweep, Got, handle, no_factory, not_registered, factory_threw,
  Phase, building, returned, section, sections, get,
}
use demiplane.Nexus.Keeping.{
  find-put, find-sweep, look_miss, look_hit, look_absent, fetch_found, store_found,
}

-- When the slot keeps an object until `later` that a call returned at `now`: a scoped one while
-- somebody else has it too, a timed one for the idle time.
abbrev pub outlasts : ℕ → ℕ → ℕ → Lifetime → Bool
outlasts now later uses resettable = true
outlasts now later uses scoped = not (uses == 1)
outlasts now later uses immortal = true
outlasts now later uses (timed idle) = not (ltb (now + idle) later)

-- What a slot is after a call returned its object.
record IsServed (now o : ℕ) (s : Slot) : Type 0 where
  object : ready s ≡ some o
  touched : is_timed s.lt ≡ true → s.last_touch ≡ now

touch-IsServed : (now o : ℕ) (s : Slot) → ready s ≡ some o → IsServed now o (touch now s)
unfolding touch
touch-IsServed now o s r = record { object = ground (arith, r); touched = λ e. ground (arith, e) }

stored-ready : (now o : ℕ) (s : Slot) → ready (stored now o s) ≡ some o
stored-ready now o s = ground arith

served_object : (now o : ℕ) (s : Slot) → IsServed now o s → s.obj ≡ some o
served_object now o s v = ground (arith, v.object)

served_swept :
    (now later o : ℕ) (uc : ℕ → ℕ) (s : Slot)
    → IsServed now o s
    → outlasts now later (uc o) s.lt ≡ true
    → sweep_slot later uc s ≡ some s
unfolding sweep_slot
served_swept now later o uc s v h = ground (arith, h, served_object now o s v, v.touched)

get_served :
    (now o : ℕ) (made : Option ℕ) (k : Key) (m : Services) (s : Slot)
    → find k m ≡ some s
    → ready s ≡ some o
    → get now made k m ≡ (returned (handle o), put k (touch now s) m)
unfolding get sections section
get_served now o made k m s f r = simp (look_hit now k m s o f r) refl

-- What a call that makes the object returns, of the factory of the slot and of what it gives.
abbrev pub made_by : Option ℕ → Option ℕ → Got
made_by none made = no_factory
made_by (some f) none = factory_threw
made_by (some f) (some o) = handle o

-- The slots after it.
abbrev slots_by : ℕ → Key → Services → Slot → Option ℕ → Option ℕ → Services
slots_by now k m s none made = m
slots_by now k m s (some f) none = m
slots_by now k m s (some f) (some o) = put k (touch now (stored now o s)) m

built_by :
    (now : ℕ) (made factory : Option ℕ) (k : Key) (m : Services) (s : Slot)
    → find k m ≡ some s
    → sections 2 now made k (building factory, m)
      ≡ (returned (made_by factory made), slots_by now k m s factory made)
unfolding sections section
built_by now made none k m s f = refl
built_by now none (some g) k m s f = refl
built_by now (some o) (some g) k m s f = simp (store_found now o k m s f) refl

get_empty :
    (now : ℕ) (made : Option ℕ) (k : Key) (m : Services) (s : Slot)
    → find k m ≡ some s
    → ready s ≡ none
    → get now made k m ≡ (returned (made_by s.factory made), slots_by now k m s s.factory made)
unfolding get sections section
get_empty now made k m s f r =
    simp (look_miss now k m s f r, fetch_found k m s f) (built_by now made s.factory k m s f)

get_absent :
    (now : ℕ) (made : Option ℕ) (k : Key) (m : Services)
    → find k m ≡ none
    → get now made k m ≡ (returned not_registered, m)
unfolding get sections section
get_absent now made k m f = simp (look_absent now k m f) refl

-- The slots by a call that made an object have it.
slots_by-IsServed :
    (now o : ℕ) (made factory : Option ℕ) (k : Key) (m : Services) (s : Slot)
    → made_by factory made ≡ handle o
    → (t : Slot) × (find k (slots_by now k m s factory made) ≡ some t) × IsServed now o t
slots_by-IsServed now o made none k m s h = ground (arith, h)
slots_by-IsServed now o none (some g) k m s h = ground (arith, h)
slots_by-IsServed now o (some x) (some g) k m s h = (
  touch now (stored now x s),
  find-put k _ m,
  touch-IsServed now o (stored now x s) (stored-ready now x s ∙ ground (arith, h)),
)

abbrev got : Phase × Services → Phase
got c = c.0

get-IsServed :
    (now o : ℕ) (made : Option ℕ) (k : Key) (m : Services)
    → (get now made k m).0 ≡ returned (handle o)
    → (t : Slot) × (find k (get now made k m).1 ≡ some t) × IsServed now o t
get-IsServed now o made k m h = elim (Option-cases (find k m)) [
  | inl n ↦ ground (arith, simp (get_absent now made k m n) at h)
  | inr (s, f) ↦ elim (Option-cases (ready s)) [
    | inl r ↦ simp (get_empty now made k m s f r) (
        slots_by-IsServed now o made s.factory k m s
          (ground (arith, simp (get_empty now made k m s f r) at h)))
    | inr (x, r) ↦ simp (get_served now x made k m s f r) (
        (
          touch now s,
          find-put k _ m,
          touch-IsServed now o s (r ∙ ground (arith, simp (get_served now x made k m s f r) at h)),
        ))
  ]
]

-- After a call of `get` returned an object, a sweep of the janitor and another call, which no
-- other calls come between, the second call returns the same object, whatever a factory would make,
-- if the lifetime of the slot keeps it until the sweep: a scoped object has another owner then, and
-- at most the idle time has gone by for a timed one.
pub get-sweep-get :
    (now later last o : ℕ) (made again : Option ℕ) (use_count : ℕ → ℕ) (k : Key) (m : Services)
    → (get now made k m).0 ≡ returned (handle o)
    → ((s : Slot)
        → find k (get now made k m).1 ≡ some s
        → outlasts now later (use_count o) s.lt ≡ true)
    → (get last again k (sweep later use_count (get now made k m).1)).0 ≡ returned (handle o)
get-sweep-get now later last o made again uc k m h l =
    let served = get-IsServed now o made k m h in
    let found =
      find-sweep later uc k served.0 served.0 _ served.1
        (served_swept now later o uc served.0 served.2 (l served.0 served.1)) in
    ap got (get_served last o again k _ served.0 found served.2.object)

expired_swept :
    (later idle : ℕ) (uc : ℕ → ℕ) (s : Slot)
    → s.lt ≡ timed idle
    → s.last_touch + idle < later
    → sweep_slot later uc s ≡ some (record s { obj = none })
unfolding sweep_slot
expired_swept later idle uc s h l = ground (arith, h, l)

-- After the janitor found a timed slot idle for longer than its time, whoever else has its object, a
-- call of `get` returns what the factory makes then, and throws where the slot has no factory: an
-- object that was registered without one cannot be had again, and one that is in use is made twice.
pub get-sweep_expired :
    (later last idle : ℕ) (made : Option ℕ) (use_count : ℕ → ℕ) (k : Key) (m : Services) (s : Slot)
    → find k m ≡ some s
    → s.lt ≡ timed idle
    → s.last_touch + idle < later
    → (get last made k (sweep later use_count m)).0 ≡ returned (made_by s.factory made)
get-sweep_expired later last idle made uc k m s f h l =
    let found = find-sweep later uc k s _ m f (expired_swept later idle uc s h l) in
    ap got (get_empty last made k _ _ found (ground arith))

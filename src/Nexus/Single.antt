-- ===== src/Nexus/Single.antt =====
-- The calls of `get` for one key agree on its object (common/nexus/core/source/nexus.inl).
use demiplane.Prelude.{
  ℕ, ◌≡◌, ◌≢◌, refl, sym, ap, ◌∙◌, Bool, true, false, Option, none, some, inl, inr, ◌==◌, ==_iff,
  Bool-cases, Option-cases, arith,
}
use demiplane.Nexus.{
  Key, Lifetime, resettable, scoped, immortal, timed, Slot, Services, find, put, ready, touch,
  no_factory, factory_threw, stored, handle, Phase, calling, missed, fetched, locked, building,
  built, returned, section, sweep_slot,
}
use demiplane.Nexus.Calls.{
  Calls, holds, makes, waits, move, CallStep, runs, sweeps, writes, CallReach, here, next,
}
use demiplane.Nexus.Keeping.{
  find-put, find-put_other, find-sweep, look_miss, look_hit, fetch_found, store_found,
}

abbrev pub is_permanent : Lifetime → Bool
is_permanent resettable = true
is_permanent scoped = false
is_permanent immortal = true
is_permanent (timed idle) = false

-- The slot of the key is permanent and has the object of each call that returned one, none while a
-- call makes it; one call at most has the mutex.
record IsSingle (k : Key) (c : Calls) : Type 0 where
  slot : Slot
  found : find k c.slots ≡ some slot
  kept : is_permanent slot.lt ≡ true
  agreed : (i o : ℕ) → c.phase i ≡ returned (handle o) → slot.obj ≡ some o
  unmade : (i : ℕ) → makes (c.phase i) ≡ true → slot.obj ≡ none
  alone : (i j : ℕ) → holds (c.phase i) ≡ true → holds (c.phase j) ≡ true → i ≡ j

making_holds : (p : Phase) → makes p ≡ true → holds p ≡ true
making_holds p h = ground arith

permanent_ready : (s : Slot) → is_permanent s.lt ≡ true → ready s ≡ s.obj
permanent_ready s h = ground arith

permanent_touch : (now : ℕ) (s : Slot) → is_permanent s.lt ≡ true → touch now s ≡ s
unfolding touch
permanent_touch now s h = ground arith

permanent_sweep :
    (now : ℕ) (uc : ℕ → ℕ) (s : Slot) → is_permanent s.lt ≡ true → sweep_slot now uc s ≡ some s
unfolding sweep_slot
permanent_sweep now uc s h = ground arith

-- A section that leaves the slot as it is.
leave :
    (k : Key) (i : ℕ) (p : Phase) (m : Services) (c : Calls) (v : IsSingle k c)
    → find k m ≡ some v.slot
    → ((o : ℕ) → p ≡ returned (handle o) → v.slot.obj ≡ some o)
    → (makes p ≡ true → v.slot.obj ≡ none)
    → (holds p ≡ true → (j : ℕ) → holds (c.phase j) ≡ true → i ≡ j)
    → IsSingle k (move i c (p, m))
leave k i p m c v f r u a = record {
  slot = v.slot;
  found = f;
  kept = v.kept;
  agreed = λ j o e. elim (Bool-cases (j == i)) [
    | inl g ↦ r o (simp g at e)
    | inr g ↦ v.agreed j o (simp g at e)
  ];
  unmade = λ j e. elim (Bool-cases (j == i)) [
    | inl g ↦ u (simp g at e)
    | inr g ↦ v.unmade j (simp g at e)
  ];
  alone = λ j l e h. elim (Bool-cases (j == i)) [
    | inl g ↦ elim (Bool-cases (l == i)) [
      | inl q ↦ (==_iff j i).0 g ∙ sym ((==_iff l i).0 q)
      | inr q ↦ (==_iff j i).0 g ∙ a (simp g at e) l (simp q at h)
    ]
    | inr g ↦ elim (Bool-cases (l == i)) [
      | inl q ↦ sym (a (simp q at h) j (simp g at e)) ∙ sym ((==_iff l i).0 q)
      | inr q ↦ v.alone j l (simp g at e) (simp q at h)
    ]
  ];
}

-- The section that stores the object.
keep :
    (k : Key) (i now o : ℕ) (c : Calls) (v : IsSingle k c)
    → c.phase i ≡ built o
    → IsSingle k (move i c (section now none k (built o) c.slots))
unfolding section
keep k i now o c v e =
    let empty = v.unmade i (simp e refl) in
    simp (store_found now o k c.slots v.slot v.found) (record {
      slot = stored now o v.slot;
      found = find-put k _ c.slots ∙ ap some (permanent_touch now (stored now o v.slot) v.kept);
      kept = v.kept;
      agreed = λ j x h. elim (Bool-cases (j == i)) [
        | inl g ↦ ground (arith, simp g at h)
        | inr g ↦ ground (arith, sym empty ∙ v.agreed j x (simp g at h))
      ];
      unmade = λ j h. elim (Bool-cases (j == i)) [
        | inl g ↦ ground (arith, simp g at h)
        | inr g ↦
            ground (arith, g, v.alone j i (making_holds (c.phase j) (simp g at h)) (ap holds e))
      ];
      alone = λ j l g h. elim (Bool-cases (j == i)) [
        | inl q ↦ ground (arith, simp q at g)
        | inr q ↦ elim (Bool-cases (l == i)) [
          | inl r ↦ ground (arith, simp r at h)
          | inr r ↦ v.alone j l (simp q at g) (simp r at h)
        ]
      ];
    })

-- A section after which the call holds no mutex, or held it before.
rest :
    (k : Key) (i : ℕ) (p : Phase) (c : Calls) (v : IsSingle k c)
    → ((o : ℕ) → p ≢ returned (handle o))
    → (makes p ≡ true → v.slot.obj ≡ none)
    → (holds p ≡ true → holds (c.phase i) ≡ true)
    → IsSingle k (move i c (p, c.slots))
rest k i p c v r u a =
    leave k i p c.slots c v v.found (λ o e. absurd (r o e)) u (λ h j g. v.alone i j (a h) g)

hits :
    (k : Key) (i now : ℕ) (c : Calls) (v : IsSingle k c) (o : ℕ)
    → v.slot.obj ≡ some o
    → IsSingle k (move i c (returned (handle o), put k (touch now v.slot) c.slots))
hits k i now c v o e =
    leave k i _ _ c v (find-put k _ c.slots ∙ ap some (permanent_touch now v.slot v.kept))
      (λ x h. e ∙ ground (arith, h)) (λ h. ground (arith, h)) (λ h. ground (arith, h))

section-IsSingle :
    (k : Key) (i now : ℕ) (made : Option ℕ) (c : Calls) (p : Phase)
    → c.phase i ≡ p
    → (waits p ≡ true → (j : ℕ) → holds (c.phase j) ≡ false)
    → IsSingle k c
    → IsSingle k (move i c (section now made k p c.slots))
unfolding section
section-IsSingle k i now made c calling e w v = elim (Option-cases v.slot.obj) [
  | inl n ↦ simp (look_miss now k c.slots v.slot v.found (permanent_ready v.slot v.kept ∙ n)) (
      rest k i missed c v (λ o h. ground (arith, h)) (λ h. ground (arith, h))
        (λ h. ground (arith, h)))
  | inr (o, y) ↦
      simp (look_hit now k c.slots v.slot o v.found (permanent_ready v.slot v.kept ∙ y))
        (hits k i now c v o y)
]
section-IsSingle k i now made c missed e w v = simp (fetch_found k c.slots v.slot v.found) (
    rest k i (fetched v.slot.factory) c v (λ o h. ground (arith, h)) (λ h. ground (arith, h))
      (λ h. ground (arith, h)))
section-IsSingle k i now made c (fetched f) e w v =
    leave k i (locked f) c.slots c v v.found (λ o h. ground (arith, h)) (λ h. ground (arith, h))
      (λ h j g. ground (arith, g, w refl j))
section-IsSingle k i now made c (locked f) e w v = elim (Option-cases v.slot.obj) [
  | inl n ↦
      simp (look_miss now k c.slots v.slot v.found (permanent_ready v.slot v.kept ∙ n))
        (rest k i (building f) c v (λ o h. ground (arith, h)) (λ h. n) (λ h. ap holds e))
  | inr (o, y) ↦
      simp (look_hit now k c.slots v.slot o v.found (permanent_ready v.slot v.kept ∙ y))
        (hits k i now c v o y)
]
section-IsSingle k i now made c (building none) e w v =
    rest k i (returned no_factory) c v (λ o h. ground (arith, h)) (λ h. ground (arith, h))
      (λ h. ground (arith, h))
section-IsSingle k i now none c (building (some f)) e w v =
    rest k i (returned factory_threw) c v (λ o h. ground (arith, h)) (λ h. ground (arith, h))
      (λ h. ground (arith, h))
section-IsSingle k i now (some o) c (building (some f)) e w v =
    rest k i (built o) c v (λ o h. ground (arith, h)) (λ h. v.unmade i (ap makes e))
      (λ h. ap holds e)
section-IsSingle k i now made c (built o) e w v = keep k i now o c v e
section-IsSingle k i now made c (returned g) e w v =
    leave k i (returned g) c.slots c v v.found (λ o h. v.agreed i o (e ∙ h))
      (λ h. ground (arith, h)) (λ h. ground (arith, h))

step-IsSingle : (k : Key) (c d : Calls) → CallStep k c d → IsSingle k c → IsSingle k d
step-IsSingle k c _ (runs i now made _ w) v = section-IsSingle k i now made c (c.phase i) refl w v
step-IsSingle k c _ (sweeps now uc _) v = record {
  slot = v.slot;
  found = find-sweep now uc k v.slot v.slot c.slots v.found (permanent_sweep now uc v.slot v.kept);
  kept = v.kept;
  agreed = v.agreed;
  unmade = v.unmade;
  alone = v.alone;
}
step-IsSingle k c _ (writes j s _ n) v = record {
  slot = v.slot;
  found = find-put_other k j s c.slots n ∙ v.found;
  kept = v.kept;
  agreed = v.agreed;
  unmade = v.unmade;
  alone = v.alone;
}

CallReach-IsSingle : (k : Key) (c d : Calls) → CallReach k c d → IsSingle k c → IsSingle k d
CallReach-IsSingle k c _ here v = v
CallReach-IsSingle k c _ (next {d} {e} r s) v = step-IsSingle k d e s (CallReach-IsSingle k c d r v)

-- The calls of `get` for a key of a resettable or an immortal registration, from any number of
-- threads, section by section, all return the same object, whatever their factories make, while the
-- janitor sweeps and others write other keys, and it is the object of the slot.
pub gets_agree :
    (k : Key) (m : Services) (s : Slot) (c : Calls)
    → find k m ≡ some s
    → is_permanent s.lt ≡ true
    → CallReach k (record { slots = m; phase = λ i. calling }) c
    → (i j o p : ℕ) → c.phase i ≡ returned (handle o)
    → c.phase j ≡ returned (handle p)
    → (o ≡ p) × ((t : Slot) × (find k c.slots ≡ some t) × (t.obj ≡ some o))
gets_agree k m s c f l r i j o p g h =
    let v = CallReach-IsSingle k _ c r (record {
      slot = s;
      found = f;
      kept = l;
      agreed = λ i o e. ground (arith, e);
      unmade = λ i e. ground (arith, e);
      alone = λ i j e. ground (arith, e);
    }) in
    (ground (arith, sym (v.agreed i o g) ∙ v.agreed j p h), (v.slot, v.found, v.agreed i o g))

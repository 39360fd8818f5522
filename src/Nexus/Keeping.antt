-- ===== src/Nexus/Keeping.antt =====
-- What the functions of Nexus keep of the slot of a key.
use demiplane.Prelude.{
  ℕ, ◌≡◌, refl, ap, ◌∙◌, true, false, none, some, [], ◌∷◌, Bool-cases, Option-cases, inl, inr,
  arith,
}
use demiplane.Nexus.{
  Key, Slot, Services, same_key, find, ready, touch, hit, miss, absent, look, look_at, look_in,
  fetch, fetch_at, store_at, stored, store, put, sweep_slot, sweep,
}

same_key_self : (k : Key) → same_key k k ≡ true
same_key_self k = ground arith

some_eq : (s t : Slot) → some s ≡ some t → s ≡ t
some_eq s t e = ground arith

-- The slot of a key is what was put there.
pub find-put : (k : Key) (s : Slot) (m : Services) → find k (put k s m) ≡ some s
unfolding find put
find-put k s [] = simp (same_key_self k) refl
find-put k s ((j, t) ∷ m) = elim (Bool-cases (same_key j k)) [
  | inl e ↦ simp (e, same_key_self k) refl
  | inr e ↦ simp e (find-put k s m)
]

same_key_other : (i j k : Key) → same_key i j ≡ true → same_key j k ≡ false → same_key i k ≡ false
same_key_other i j k g h = ground arith

-- A write to another key leaves the slot alone.
pub find-put_other :
    (k j : Key) (s : Slot) (m : Services) → same_key j k ≡ false → find k (put j s m) ≡ find k m
unfolding find put
find-put_other k j s [] h = simp h refl
find-put_other k j s ((i, t) ∷ m) h = elim (Bool-cases (same_key i j)) [
  | inl e ↦ simp (e, h, same_key_other i j k e h) refl
  | inr e ↦ simp e (simp (find-put_other k j s m h) refl)
]

-- The janitor does to the slot of a key what it does to a slot, unless it erases it.
pub find-sweep :
    (now : ℕ) (use_count : ℕ → ℕ) (k : Key) (s t : Slot) (m : Services)
    → find k m ≡ some s
    → sweep_slot now use_count s ≡ some t
    → find k (sweep now use_count m) ≡ some t
unfolding find sweep
find-sweep now uc k s t [] h d = ground arith
find-sweep now uc k s t ((j, u) ∷ m) h d = elim (Bool-cases (same_key j k)) [
  | inl e ↦ simp (some_eq u s (simp e at h), d, e) refl
  | inr e ↦
      let rest = find-sweep now uc k s t m (simp e at h) d in
      elim (Option-cases (sweep_slot now uc u)) [
        | inl n ↦ simp (n, e) rest
        | inr (v, y) ↦ simp (y, e) rest
      ]
]

-- A section on a key that is there.
pub look_miss :
    (now : ℕ) (k : Key) (m : Services) (s : Slot)
    → find k m ≡ some s
    → ready s ≡ none
    → look now k m ≡ miss
unfolding look
look_miss now k m s f r = ap (look_at now k m) f ∙ ap (look_in now k m s) r

pub look_hit :
    (now : ℕ) (k : Key) (m : Services) (s : Slot) (o : ℕ)
    → find k m ≡ some s
    → ready s ≡ some o
    → look now k m ≡ hit o (put k (touch now s) m)
unfolding look
look_hit now k m s o f r = ap (look_at now k m) f ∙ ap (look_in now k m s) r

pub look_absent : (now : ℕ) (k : Key) (m : Services) → find k m ≡ none → look now k m ≡ absent
unfolding look
look_absent now k m f = ap (look_at now k m) f

pub fetch_found :
    (k : Key) (m : Services) (s : Slot) → find k m ≡ some s → fetch k m ≡ some s.factory
unfolding fetch
fetch_found k m s f = ap fetch_at f

pub store_found :
    (now o : ℕ) (k : Key) (m : Services) (s : Slot)
    → find k m ≡ some s
    → store now o k m ≡ some (put k (touch now (stored now o s)) m)
unfolding store
store_found now o k m s f = ap (store_at now o k m) f

-- ===== src/Sorter/Order.antt =====
-- What sliding_window_sorter.hpp takes from `<algorithm>` and from its user: the comparator, and
-- the four routines it calls, with what their documentation promises.
use Prim.Native.Nat.{ℕ, zero, suc, ◌-◌, ◌≤◌}
use mathlib.Core.List.{List, [], ◌∷◌, ◌++◌, Mem, Perm, Pairwise}
use demiplane.Prelude.{◌≡◌, refl, ap, Bool, true, false, length, arith}

module _ {ℓ} {A : Type ℓ} where
  -- The half-open ranges `[begin, begin + n)` and `[begin + n, end)`.
  unfoldable pub take : ℕ → List A → List A
  take (suc n) (x ∷ xs) = x ∷ take n xs
  take _ _ = []

  unfoldable pub drop : ℕ → List A → List A
  drop (suc n) (x ∷ xs) = drop n xs
  drop _ l = l

  pub take-append-drop : (n : ℕ) (l : List A) → take n l ++ drop n l ≡ l
  unfolding take drop
  take-append-drop (suc n) (x ∷ xs) = ap (◌∷◌ x) (take-append-drop n xs)
  take-append-drop _ _ = refl

  pub length-drop : (n : ℕ) (l : List A) → length (drop n l) ≡ length l - n
  unfolding drop
  length-drop (suc n) (x ∷ xs) = omega (arith, length-drop n xs)
  length-drop _ _ = omega arith

  pub length-take : (n : ℕ) (l : List A) → n ≤ length l → length (take n l) ≡ n
  unfolding take
  length-take (suc n) (x ∷ xs) h = omega (arith, length-take n xs)
  length-take (suc n) [] h = omega arith
  length-take zero [] h = refl
  length-take zero (x ∷ xs) h = refl

  -- Ascending by a comparator: no element stands after one that it is less than.
  abbrev pub IsSorted : (A → A → Bool) → List A → Type ℓ
  IsSorted less = Pairwise λ a b. less b a ≡ false

  -- The requirement of the standard on a comparator: irreflexive and asymmetric, and "not less"
  -- transitive, which makes it a strict weak ordering.
  pub record IsOrdering (less : A → A → Bool) : Type ℓ where
    pub asymmetric : (a b : A) → less a b ≡ true → less b a ≡ false
    pub transitive : (a b c : A) → less b a ≡ false → less c b ≡ false → less c a ≡ false

-- `std::sort`, `std::merge`, `std::inplace_merge` and `std::upper_bound`, on whole ranges; the last
-- two by the offset of `middle` and of the result.
pub record Routines {ℓ} (A : Type ℓ) : Type ℓ where
  pub sort : (A → A → Bool) → List A → List A
  pub merge : (A → A → Bool) → List A → List A → List A
  pub inplace_merge : (A → A → Bool) → List A → ℕ → List A
  pub upper_bound : (A → A → Bool) → List A → A → ℕ

-- The documented behaviour of upper_bound, for an ordering and a sorted range.
pub record IsUpperBound {ℓ} {A : Type ℓ} (std : Routines A) : Type ℓ where
  pub before_bound :
      (less : A → A → Bool)
      → IsOrdering less
      → (l : List A) (key : A) → IsSorted less l
      → (x : A) → Mem x (take (std.upper_bound less l key) l)
      → less key x ≡ false
  pub after_bound :
      (less : A → A → Bool)
      → IsOrdering less
      → (l : List A) (key : A) → IsSorted less l
      → (x : A) → Mem x (drop (std.upper_bound less l key) l)
      → less key x ≡ true

-- The documented behaviour of all four, for an ordering and for ranges that are sorted where the
-- documentation asks for it.
pub record IsStandard {ℓ} {A : Type ℓ} (std : Routines A) : Type ℓ where
  pub sort_sorts :
      (less : A → A → Bool) → IsOrdering less → (l : List A) → IsSorted less (std.sort less l)
  pub sort_keeps : (less : A → A → Bool) → IsOrdering less → (l : List A) → Perm (std.sort less l) l
  pub merge_sorts :
      (less : A → A → Bool)
      → IsOrdering less
      → (l r : List A) → IsSorted less l
      → IsSorted less r
      → IsSorted less (std.merge less l r)
  pub merge_keeps :
      (less : A → A → Bool)
      → IsOrdering less
      → (l r : List A) → IsSorted less l
      → IsSorted less r
      → Perm (std.merge less l r) (l ++ r)
  pub inplace_sorts :
      (less : A → A → Bool)
      → IsOrdering less
      → (l r : List A) → IsSorted less l
      → IsSorted less r
      → IsSorted less (std.inplace_merge less (l ++ r) (length l))
  pub inplace_keeps :
      (less : A → A → Bool)
      → IsOrdering less
      → (l r : List A) → IsSorted less l
      → IsSorted less r
      → Perm (std.inplace_merge less (l ++ r) (length l)) (l ++ r)
  pub bounds : IsUpperBound std

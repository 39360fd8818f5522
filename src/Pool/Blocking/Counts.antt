-- ===== src/Pool/Blocking/Counts.antt =====
-- How often a holder stands in a list, under the list operations of the pool.
use demiplane.Prelude.{
  ℕ, zero, suc, ◌+◌, ◌≤◌, ◌<◌, ◌≡◌, true, List, [], ◌∷◌, ◌++◌, length, ◌==◌, if◌then◌else◌, arith,
}
use demiplane.Pool.Blocking.{contains, erase, decrement}

abbrev pub count : ℕ → List ℕ → ℕ
count h [] = 0
count h (k ∷ ks) = (if h == k then 1 else 0) + count h ks

pub count-append : (h : ℕ) (ks hs : List ℕ) → count h (ks ++ hs) ≡ count h ks + count h hs
count-append h [] hs = omega arith
count-append h (k ∷ ks) hs = omega (arith, count-append h ks hs)

pub count-erase :
    (a x : ℕ) (xs : List ℕ)
    → 0 < count x xs
    → count a (erase x xs) + (if a == x then 1 else 0) ≡ count a xs
count-erase a x [] h = absurd (omega arith)
count-erase a x (y ∷ xs) h = ground (arith, count-erase a x xs)

pub contains-count : (x : ℕ) (xs : List ℕ) → 0 < count x xs → contains x xs ≡ true
contains-count x [] h = absurd (omega arith)
contains-count x (y ∷ xs) h = ground (arith, contains-count x xs)

pub count-contains : (x : ℕ) (xs : List ℕ) → contains x xs ≡ true → 0 < count x xs
count-contains x [] h = absurd cc
count-contains x (y ∷ xs) h = ground (arith, count-contains x xs)

pub decrement_lem : (n : ℕ) → 0 < n → decrement n + 1 ≡ n
unfolding decrement
decrement_lem zero h = absurd (omega arith)
decrement_lem (suc n) h = omega arith

pub length-erase : (x : ℕ) (xs : List ℕ) → 0 < count x xs → length (erase x xs) + 1 ≡ length xs
length-erase x [] h = absurd (omega arith)
length-erase x (y ∷ xs) h = ground (arith, length-erase x xs)

-- With each element counted at most as often as in another list, the list is no longer than it.
pub count_self : (x : ℕ) (xs : List ℕ) → 0 < count x (x ∷ xs)
count_self x xs = ground arith

pub length_le_of_count :
    (xs ys : List ℕ) → ((a : ℕ) → count a xs ≤ count a ys) → length xs ≤ length ys
length_le_of_count [] ys h = omega arith
length_le_of_count (x ∷ xs) ys h =
    let present : 0 < count x ys = ground (arith, h x, count_self x xs) in
    let fewer : (a : ℕ) → count a xs ≤ count a (erase x ys) =
      λ a. ground (arith, h a, count-erase a x ys present) in
    omega (arith, length_le_of_count xs (erase x ys) fewer, length-erase x ys present)

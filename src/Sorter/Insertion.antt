-- ===== src/Sorter/Insertion.antt =====
-- insertion_sort: the sorted prefix stays sorted, and no entry is lost.
use mathlib.Core.List.{
  List, [], ◌∷◌, ◌++◌, Mem, Perm, Pairwise, Pairwise-append, Pairwise-singleton, perm_middle,
  append-nil, forall_mem-cons, append_assoc,
}
use mathlib.Core.List.Perm
use demiplane.Prelude.{◌≡◌, Bool, false}
use demiplane.Sorter.{insert_key, insert_rest, insertion_sort}
use demiplane.Sorter.Order.{
  Routines, IsUpperBound, IsOrdering, IsSorted, take, drop, take-append-drop,
}

pub is_false : (b : Bool) → IsProp (b ≡ false)
is_false b = hlevel

module _ {ℓ} {A : Type ℓ} (less : A → A → Bool) where
  -- What stands between two sorted halves that it fits.
  between-IsSorted :
      (l r : List A) (key : A)
      → IsSorted less (l ++ r)
      → ((x : A) → Mem x l → less key x ≡ false)
      → ((x : A) → Mem x r → less x key ≡ false)
      → IsSorted less (l ++ key ∷ r)
  between-IsSorted l r key s below above =
      let (left, right, across) = (Pairwise-append (λ a b. is_false (less b a))).0 s in
      (Pairwise-append (λ a b. is_false (less b a))).1 (
        left,
        Pairwise.cons above right,
        λ a m. (forall_mem-cons (λ b. is_false (less b a))).1 (below a m, across a m),
      )

module _ {ℓ} {A : Type ℓ} (std : Routines A) (h : IsUpperBound std) (less : A → A → Bool)
    (o : IsOrdering less) where
  insert_key-perm : (l : List A) (key : A) → Perm (insert_key std less l key) (l ++ key ∷ [])
  unfolding insert_key
  insert_key-perm l key =
      let p = std.upper_bound less l key in
      Perm.trans (perm_middle (take p l) (drop p l))
        (rw (take-append-drop p l) (Perm.symm (rw append-nil at (perm_middle {a = key} l []))))

  insert_key-IsSorted :
      (l : List A) (key : A) → IsSorted less l → IsSorted less (insert_key std less l key)
  unfolding insert_key
  insert_key-IsSorted l key s =
      let p = std.upper_bound less l key in
      between-IsSorted less (take p l) (drop p l) key (rw (take-append-drop p l) s)
        (h.before_bound less o l key s) λ x m. o.asymmetric key x (h.after_bound less o l key s x m)

  insert_rest-perm : (done rest : List A) → Perm (insert_rest std less done rest) (done ++ rest)
  unfolding insert_rest
  insert_rest-perm done [] = rw (append-nil done) Perm.rfl
  insert_rest-perm done (key ∷ rest) =
      Perm.trans (insert_rest-perm (insert_key std less done key) rest) (
        rw (append_assoc done (key ∷ []) rest) at
          (Perm.append_right rest (insert_key-perm done key)))

  insert_rest-IsSorted :
      (done rest : List A) → IsSorted less done → IsSorted less (insert_rest std less done rest)
  unfolding insert_rest
  insert_rest-IsSorted done [] s = s
  insert_rest-IsSorted done (key ∷ rest) s =
      insert_rest-IsSorted (insert_key std less done key) rest (insert_key-IsSorted done key s)

  -- insertion_sort returns the entries of its range, sorted by the comparator.
  pub insertion_sort-IsSorted :
      (l : List A) → IsSorted less (insertion_sort std less l) × Perm (insertion_sort std less l) l
  unfolding insertion_sort
  insertion_sort-IsSorted [] = (Pairwise.nil, Perm.rfl)
  insertion_sort-IsSorted (x ∷ rest) =
      (insert_rest-IsSorted (x ∷ []) rest (Pairwise-singleton _ x), insert_rest-perm (x ∷ []) rest)

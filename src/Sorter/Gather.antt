-- ===== src/Sorter/Gather.antt =====
-- sort_and_merge: the new entries go into the window, whichever way they are sorted and merged.
use mathlib.Core.List.{List, [], ◌∷◌, ◌++◌, Perm, append-nil}
use mathlib.Core.List.Perm
use demiplane.Prelude.{ℕ, ◌≡◌, refl, true, false, ◌&&◌, length, Bool-cases, ◌⊎◌, inl, inr, leb}
use demiplane.Sorter.{
  SlidingWindowSorter, is_empty, merge_with_window, perform_inplace_merge, perform_standard_merge,
  can_use_inplace_merge, sort_new, take_in, sort_and_merge, gather,
}
use demiplane.Sorter.Order.{Routines, IsStandard, IsOrdering, IsSorted}
use demiplane.Sorter.Insertion.{insertion_sort-IsSorted}

pub is_empty-cases {ℓ} :
    {A : Type ℓ} (l : List A) → ((is_empty l ≡ true) × (l ≡ [])) ⊎ (is_empty l ≡ false)
is_empty-cases [] = inl (refl, refl)
is_empty-cases (x ∷ xs) = inr refl

module _ {ℓ} {A : Type ℓ} where
  -- `t` is `s` with its new entries in the window.
  pub record IsGathered (s t : SlidingWindowSorter A) : Type ℓ where
    pub config : t.config ≡ s.config
    pub consumed : t.consumed ≡ s.consumed
    pub total : t.total_processed ≡ s.total_processed
    pub emptied : t.new_entries ≡ []
    pub kept : Perm t.sorted_window (s.sorted_window ++ s.new_entries)

module _ {ℓ} {A : Type ℓ} (std : Routines A) (h : IsStandard std) (s : SlidingWindowSorter A)
    (o : IsOrdering s.config.comparator) where
  sort_new-IsSorted :
      IsSorted s.config.comparator (sort_new std s).new_entries
      × Perm (sort_new std s).new_entries s.new_entries
  unfolding sort_new
  sort_new-IsSorted = elim (Bool-cases (leb (length s.new_entries) s.config.merge_threshold)) [
    | inl e ↦ simp e (insertion_sort-IsSorted std h.bounds s.config.comparator o s.new_entries)
    | inr e ↦ simp e (
      h.sort_sorts s.config.comparator o s.new_entries,
      h.sort_keeps s.config.comparator o s.new_entries,
    )
  ]

  module _ (window : IsSorted s.config.comparator s.sorted_window)
      (new : IsSorted s.config.comparator s.new_entries) where
    merge_with_window-IsSorted :
        (capacity : ℕ)
        → IsSorted s.config.comparator (merge_with_window std capacity s).sorted_window
          × IsGathered s (merge_with_window std capacity s)
    unfolding merge_with_window perform_inplace_merge perform_standard_merge
    merge_with_window-IsSorted capacity =
        let less = s.config.comparator in
        elim (Bool-cases (s.config.use_inplace_merge && can_use_inplace_merge capacity s)) [
          | inl e ↦ simp e (
            h.inplace_sorts less o s.sorted_window s.new_entries window new,
            record {
              config = refl;
              consumed = refl;
              total = refl;
              emptied = refl;
              kept = h.inplace_keeps less o s.sorted_window s.new_entries window new;
            },
          )
          | inr e ↦ simp e (
            h.merge_sorts less o s.sorted_window s.new_entries window new,
            record {
              config = refl;
              consumed = refl;
              total = refl;
              emptied = refl;
              kept = h.merge_keeps less o s.sorted_window s.new_entries window new;
            },
          )
        ]

    take_in-IsSorted :
        (capacity : ℕ)
        → IsSorted s.config.comparator (take_in std capacity s).sorted_window
          × IsGathered s (take_in std capacity s)
    unfolding take_in
    take_in-IsSorted capacity = elim (is_empty-cases s.sorted_window) [
      | inl e ↦ simp e.0 (
        new,
        record {
          config = refl;
          consumed = refl;
          total = refl;
          emptied = refl;
          kept = rw e.1 Perm.rfl;
        },
      )
      | inr e ↦
          let (sorted, g) = merge_with_window-IsSorted capacity in
          simp e (
            sorted,
            record {
              config = g.config;
              consumed = g.consumed;
              total = g.total;
              emptied = g.emptied;
              kept = g.kept;
            },
          )
    ]

module _ {ℓ} {A : Type ℓ} (std : Routines A) (h : IsStandard std) (s : SlidingWindowSorter A)
    (o : IsOrdering s.config.comparator) where
  sort_and_merge-IsSorted :
      (capacity : ℕ)
      → IsSorted s.config.comparator s.sorted_window
      → IsSorted s.config.comparator (sort_and_merge std capacity s).sorted_window
        × IsGathered s (sort_and_merge std capacity s)
  unfolding sort_and_merge sort_new
  sort_and_merge-IsSorted capacity window = elim (is_empty-cases s.new_entries) [
    | inl e ↦ simp e.0 (
      window,
      record {
        config = refl;
        consumed = refl;
        total = refl;
        emptied = e.1;
        kept = rw (e.1, append-nil s.sorted_window) Perm.rfl;
      },
    )
    | inr e ↦
        let (new, perm) = sort_new-IsSorted std h s o in
        let (sorted, g) = take_in-IsSorted std h (sort_new std s) o window new capacity in
        simp e (
          sorted,
          record {
            config = g.config;
            consumed = g.consumed;
            total = g.total;
            emptied = g.emptied;
            kept = Perm.trans g.kept (Perm.append_left s.sorted_window perm);
          },
        )
  ]

  -- Before any output process_batch has moved every new entry into the window, which is sorted
  -- where sorting is enabled.
  pub gather-IsGathered :
      (capacity : ℕ)
      → (s.config.enable_sorting ≡ true → IsSorted s.config.comparator s.sorted_window)
      → (s.config.enable_sorting ≡ true
          → IsSorted s.config.comparator (gather std capacity s).sorted_window)
        × IsGathered s (gather std capacity s)
  unfolding gather
  gather-IsGathered capacity window = elim (Bool-cases s.config.enable_sorting) [
    | inl e ↦
        let (sorted, g) = sort_and_merge-IsSorted capacity (window e) in
        simp e ((λ (_ : true ≡ true). sorted), g)
    | inr e ↦ simp e (
      (λ (absurd_ : false ≡ true). cc),
      record { config = refl; consumed = refl; total = refl; emptied = refl; kept = Perm.rfl },
    )
  ]

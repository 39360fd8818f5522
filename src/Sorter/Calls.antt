-- ===== src/Sorter/Calls.antt =====
-- Any sequence of calls of the public methods.
use mathlib.Core.List.{List, [], ◌∷◌, ◌++◌, Perm, append-nil, append_assoc, Pairwise}
use mathlib.Core.List.Perm
use demiplane.Prelude.{
  not, ◌||◌, ℕ, ◌≡◌, ◌≤◌, ◌<◌, refl, Bool, true, false, length, arith, Bool-cases, ◌⊎◌, inl, inr,
  leb,
}
use demiplane.Sorter.{
  SlidingWindowSorter, SlidingWindowConfig, Call, entries, entry, flush_all, configure, create,
  apply, add_entries, add_entry, flush, reconfigure, process_if_ready, should_process,
  process_batch, is_empty,
}
use demiplane.Sorter.Order.{Routines, IsStandard, IsOrdering}
use demiplane.Sorter.Gather.{is_empty-cases}
use demiplane.Sorter.Output.{delivered, held, stream, IsCounted}
use demiplane.Sorter.Batch.{
  HasOrder, process_batch-IsProcessed, process_batch-window, process_batch_drains,
}

module _ {ℓ} {A : Type ℓ} where
  -- The entries that a call brings.
  abbrev pub given_by : Call A → List A
  given_by (entries l) = l
  given_by (entry a) = a ∷ []
  given_by flush_all = []
  given_by (configure c) = []

  -- A new comparator must be an ordering.
  abbrev pub Fits : Call A → Type ℓ
  Fits (entries l) = Unit
  Fits (entry a) = Unit
  Fits flush_all = Unit
  Fits (configure c) = IsOrdering c.comparator

  -- The sorters that calls lead to, with all the entries that the calls have brought.
  pub data SorterReach (std : Routines A) : List A → SlidingWindowSorter A → Type ℓ where
    start : (c : SlidingWindowConfig A) → IsOrdering c.comparator → SorterReach std [] (create c)
    call :
        {l : List A} {s : SlidingWindowSorter A}
        → SorterReach std l s
        → (capacity : ℕ) (c : Call A) → Fits c
        → SorterReach std (l ++ given_by c) (apply std capacity c s)

  -- What holds of a sorter that was given `l`, also while a call is running.
  pub record IsSound (l : List A) (s : SlidingWindowSorter A) : Type ℓ where
    pub comparator : IsOrdering s.config.comparator
    pub kept : Perm (held s) l
    pub ordered : HasOrder s
    pub window : length s.sorted_window ≤ s.config.window_size
    pub counted : IsCounted s

  -- Between two calls less than a batch is pending.
  abbrev pub IsSettled : SlidingWindowSorter A → Type ℓ
  IsSettled s = (s.new_entries ≡ []) ⊎ (length s.new_entries < s.config.batch_size)

  IsSound-start : (c : SlidingWindowConfig A) → IsOrdering c.comparator → IsSound [] (create c)
  unfolding create delivered
  IsSound-start c o = record {
    comparator = o;
    kept = Perm.rfl;
    ordered = λ _. Pairwise.nil;
    window = omega arith;
    counted = refl;
  }

  -- `new_entries_.insert(new_entries_.end(), ...)`
  IsSound-append :
      {l : List A} {s : SlidingWindowSorter A} (g : List A)
      → IsSound l s
      → IsSound (l ++ g) (record s { new_entries = s.new_entries ++ g })
  IsSound-append {s} g i = record {
    comparator = i.comparator;
    kept = rw (append_assoc (stream s) s.new_entries g) at (Perm.append_right g i.kept);
    ordered = i.ordered;
    window = i.window;
    counted = i.counted;
  }

  nothing_held :
      {l r : List A} → (not (is_empty l) || not (is_empty r)) ≡ false → (l ≡ []) × (r ≡ [])
  nothing_held {l = []} {r = []} e = (refl, refl)
  nothing_held {l = []} {r = x ∷ r} e = cc
  nothing_held {l = x ∷ l} e = cc

module _ {ℓ} {A : Type ℓ} (std : Routines A) (h : IsStandard std) (capacity : ℕ) where
  process_batch-IsSound :
      {l : List A} {s : SlidingWindowSorter A} (force_all : Bool)
      → IsSound l s
      → IsSound l (process_batch std capacity force_all s)
  process_batch-IsSound {s} force_all i =
      let p = process_batch-IsProcessed std h capacity s i.comparator i.ordered force_all in
      record {
        comparator = rw p.config i.comparator;
        kept = Perm.trans p.kept i.kept;
        ordered = p.ordered;
        window =
            rw p.config
              (process_batch-window std h capacity s i.comparator i.ordered force_all i.window);
        counted = p.counted i.counted;
      }

  process_if_ready-IsSound :
      {l : List A} (s : SlidingWindowSorter A)
      → IsSound l s
      → IsSound l (process_if_ready std capacity s) × IsSettled (process_if_ready std capacity s)
  unfolding process_if_ready should_process
  process_if_ready-IsSound s i =
      elim (Bool-cases (leb s.config.batch_size (length s.new_entries))) [
        | inl e ↦
            let p = process_batch-IsProcessed std h capacity s i.comparator i.ordered false in
            rw e (process_batch-IsSound false i, inl p.pending)
        | inr e ↦ rw e (i, inr (ground arith))
      ]

  -- After flush the sorter holds nothing.
  flush-IsSound :
      {l : List A} (s : SlidingWindowSorter A)
      → IsSound l s
      → IsSound l (flush std capacity s)
        × ((flush std capacity s).new_entries ≡ [])
        × ((flush std capacity s).sorted_window ≡ [])
  unfolding flush
  flush-IsSound s i =
      elim (Bool-cases (not (is_empty s.new_entries) || not (is_empty s.sorted_window))) [
        | inl e ↦
            let p = process_batch-IsProcessed std h capacity s i.comparator i.ordered true in
            rw e (
              process_batch-IsSound true i,
              p.pending,
              process_batch_drains std h capacity s i.comparator i.ordered,
            )
        | inr e ↦ let (new, window) = nothing_held e in rw e (i, new, window)
      ]

  apply-IsSound :
      (l : List A) (s : SlidingWindowSorter A) (c : Call A)
      → Fits c
      → IsSound l s
      → IsSettled s
      → IsSound (l ++ given_by c) (apply std capacity c s) × IsSettled (apply std capacity c s)
  unfolding apply add_entries add_entry reconfigure
  apply-IsSound l s (entries g) f i d = elim (is_empty-cases g) [
    | inl e ↦ rw e.0 (rw e.1 (rw (append-nil l) i), d)
    | inr e ↦ rw e (process_if_ready-IsSound _ (IsSound-append g i))
  ]
  apply-IsSound l s (entry a) f i d = process_if_ready-IsSound _ (IsSound-append (a ∷ []) i)
  apply-IsSound l s flush_all f i d =
      let (sound, new, _) = flush-IsSound s i in (rw (append-nil l) sound, inl new)
  apply-IsSound l s (configure c) f i d =
      let (sound, new, window) = flush-IsSound s i in
      (
        record {
          comparator = f;
          kept = rw (append-nil l) sound.kept;
          ordered = λ _. rw window Pairwise.nil;
          window = rw window (omega arith);
          counted = sound.counted;
        },
        inl new,
      )

module _ {ℓ} {A : Type ℓ} (std : Routines A) (h : IsStandard std) where
  -- Whatever calls are made, at whatever capacities of the window's vector, no entry is lost or
  -- doubled: what was handed over, the window and the pending entries are together the
  -- entries given. The window is in order if sorting is enabled and not longer than window_size,
  -- less than a batch is pending, and total_processed counts, modulo 2^64, what was handed over.
  pub SorterReach-IsSound :
      {l : List A} {s : SlidingWindowSorter A} → SorterReach std l s → IsSound l s × IsSettled s
  unfolding create
  SorterReach-IsSound (start c o) = (IsSound-start c o, inl refl)
  SorterReach-IsSound (call {l} {s} r capacity c f) =
      let (sound, settled) = SorterReach-IsSound r in
      apply-IsSound std h capacity l s c f sound settled

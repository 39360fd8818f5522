-- ===== src/Sorter/Batch.antt =====
-- process_batch as a whole: what goes in is kept, comes out in sorted batches, and what stays
-- fits in the window.
use mathlib.Core.List.{List, [], ◌∷◌, Perm, append-nil, append_assoc}
use mathlib.Core.List.Perm
use demiplane.Prelude.{
  ℕ, ◌≡◌, ◌≤◌, refl, sym, ap, ◌∙◌, Bool, true, false, ◌&&◌, length, arith, Bool-cases, inl, inr,
  if◌then◌else◌,
}
use demiplane.Sorter.{
  SlidingWindowSorter, is_empty, emit, maintain_window_size, calculate_output_count, gather,
  process_batch,
}
use demiplane.Sorter.Order.{Routines, IsStandard, IsOrdering, IsSorted}
use demiplane.Sorter.Gather.{IsGathered, gather-IsGathered}
use demiplane.Sorter.Output.{
  delivered, held, stream, Adds, IsCounted, emit-IsEmitted, emit-IsSorted, length-emit,
  maintain_window_size_idle, calculate_output_count_enough,
}

module _ {ℓ} {A : Type ℓ} where
  -- The window is in order wherever the configuration asks for it.
  abbrev pub HasOrder : SlidingWindowSorter A → Type ℓ
  HasOrder s = s.config.enable_sorting ≡ true → IsSorted s.config.comparator s.sorted_window

  -- What process_batch owes, `s` before and `u` after it.
  pub record IsProcessed (s u : SlidingWindowSorter A) : Type ℓ where
    pub config : u.config ≡ s.config
    pub kept : Perm (held u) (held s)
    pub pending : u.new_entries ≡ []
    pub counted : IsCounted s → IsCounted u
    pub ordered : HasOrder u
    pub batches : s.config.enable_sorting ≡ true → Adds (IsSorted s.config.comparator) s u

  -- How many entries process_batch hands over.
  unfoldable pub quota : Bool → SlidingWindowSorter A → ℕ
  quota force_all t = if force_all then length t.sorted_window else calculate_output_count t

  quota_fits :
      (force_all : Bool) (t : SlidingWindowSorter A)
      → length (emit (quota force_all t) t).sorted_window ≤ t.config.window_size
  unfolding quota
  quota_fits true t = omega (arith, length-emit (length t.sorted_window) t)
  quota_fits false t =
      omega (arith, length-emit (calculate_output_count t) t, calculate_output_count_enough t)

  -- maintain_window_size never finds an entry to erase.
  maintain_window_size-emit :
      (force_all : Bool) (t : SlidingWindowSorter A)
      → maintain_window_size (emit (quota force_all t) t) ≡ emit (quota force_all t) t
  maintain_window_size-emit force_all t =
      maintain_window_size_idle (emit (quota force_all t) t)
        (rw (emit-IsEmitted (quota force_all t) t).config (quota_fits force_all t))

  length-eq-zero : (l : List A) → length l ≡ 0 → l ≡ []
  length-eq-zero [] h = refl
  length-eq-zero (x ∷ xs) h = absurd (omega arith)

  HasOrder-IsGathered :
      {s t : SlidingWindowSorter A}
      → IsGathered s t
      → (s.config.enable_sorting ≡ true → IsSorted s.config.comparator t.sorted_window)
      → HasOrder t
  HasOrder-IsGathered g k = rw g.config k

  held-stream : (s : SlidingWindowSorter A) → s.new_entries ≡ [] → held s ≡ stream s
  held-stream s e = rw e (append-nil (stream s))

  stream-IsGathered : {s t : SlidingWindowSorter A} → IsGathered s t → Perm (stream t) (held s)
  stream-IsGathered {s} g = rw g.consumed (
      rw (← append_assoc (delivered s.consumed) s.sorted_window s.new_entries) at
        (Perm.append_left (delivered s.consumed) g.kept))

  -- A batch out of a window that was just gathered.
  emit-IsProcessed :
      {s t : SlidingWindowSorter A} (n : ℕ) → IsGathered s t → HasOrder t → IsProcessed s (emit n t)
  emit-IsProcessed {s} {t} n g h =
      let m = emit-IsEmitted n t in
      record {
        config = m.config ∙ g.config;
        kept =
            rw (held-stream (emit n t) (m.pending ∙ g.emptied)) (rw m.same (stream-IsGathered g));
        pending = m.pending ∙ g.emptied;
        counted = λ c. m.counted (rw g.total (rw g.consumed c));
        ordered =
            rw m.config λ (e : t.config.enable_sorting ≡ true).
              (emit-IsSorted t.config.comparator n t (h e)).0;
        batches = rw (← g.config) (
            rw (← g.consumed) λ (e : t.config.enable_sorting ≡ true).
              (emit-IsSorted t.config.comparator n t (h e)).1);
      }

  empty_both : {l r : List A} → (is_empty l && is_empty r) ≡ true → (l ≡ []) × (r ≡ [])
  empty_both {l = []} {r = []} e = (refl, refl)
  empty_both {l = []} {r = x ∷ r} e = cc
  empty_both {l = x ∷ l} e = cc

  -- Without a pending entry and a window there is nothing to do.
  idle-IsProcessed : (s : SlidingWindowSorter A) → s.new_entries ≡ [] → HasOrder s → IsProcessed s s
  idle-IsProcessed s e h = record {
    config = refl;
    kept = Perm.rfl;
    pending = e;
    counted = λ c. c;
    ordered = h;
    batches = λ _. ([], sym (append-nil s.consumed), tt);
  }

module _ {ℓ} {A : Type ℓ} (std : Routines A) (h : IsStandard std) (capacity : ℕ)
    (s : SlidingWindowSorter A) (o : IsOrdering s.config.comparator) (w : HasOrder s) where
  pub process_batch_idle :
      (force_all : Bool)
      → (is_empty s.new_entries && is_empty s.sorted_window) ≡ true
      → process_batch std capacity force_all s ≡ s
  unfolding process_batch
  process_batch_idle force_all e = rw e

  pub process_batch-emit :
      (force_all : Bool)
      → (is_empty s.new_entries && is_empty s.sorted_window) ≡ false
      → process_batch std capacity force_all s
        ≡ emit (quota force_all (gather std capacity s)) (gather std capacity s)
  unfolding process_batch quota
  process_batch-emit force_all e =
      rw e (unfold quota in maintain_window_size-emit force_all (gather std capacity s))

  -- process_batch keeps every entry, leaves none pending and the window in order, hands over
  -- only sorted batches if sorting is enabled, and counts what it hands over.
  pub process_batch-IsProcessed :
      (force_all : Bool) → IsProcessed s (process_batch std capacity force_all s)
  process_batch-IsProcessed force_all =
      elim (Bool-cases (is_empty s.new_entries && is_empty s.sorted_window)) [
        | inl e ↦
            let (new, window) = empty_both e in
            rw (process_batch_idle force_all e) (idle-IsProcessed s new w)
        | inr e ↦
            let t = gather std capacity s in
            let (sorted, g) = gather-IsGathered std h s o capacity w in
            rw (process_batch-emit force_all e)
              (emit-IsProcessed (quota force_all t) g (HasOrder-IsGathered g sorted))
      ]

  -- What stays after process_batch fits in the window.
  pub process_batch-window :
      (force_all : Bool)
      → length s.sorted_window ≤ s.config.window_size
      → length (process_batch std capacity force_all s).sorted_window ≤ s.config.window_size
  process_batch-window force_all fits =
      elim (Bool-cases (is_empty s.new_entries && is_empty s.sorted_window)) [
        | inl e ↦ rw (process_batch_idle force_all e) fits
        | inr e ↦
            let (_, g) = gather-IsGathered std h s o capacity w in
            rw (process_batch-emit force_all e) (
              omega (
                arith,
                quota_fits force_all (gather std capacity s),
                ap (λ c. c.window_size) g.config,
              ))
      ]

  -- With force_all nothing stays in the window.
  pub process_batch_drains : (process_batch std capacity true s).sorted_window ≡ []
  unfolding quota
  process_batch_drains = elim (Bool-cases (is_empty s.new_entries && is_empty s.sorted_window)) [
    | inl e ↦ rw (process_batch_idle true e) (empty_both e).1
    | inr e ↦
        let t = gather std capacity s in
        rw (process_batch-emit true e)
          (length-eq-zero _ (omega (arith, length-emit (length t.sorted_window) t)))
  ]

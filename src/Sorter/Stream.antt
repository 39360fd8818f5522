-- ===== src/Sorter/Stream.antt =====
-- The order across batches: entries that come in late but not too late still leave in order.
use mathlib.Core.List.{List, Mem, Pairwise-append, mem-append}
use mathlib.Core.List.Perm
use mathlib.Core.Logic.Or
use demiplane.Prelude.{ℕ, ◌≡◌, Bool, true, false, ◌&&◌, Bool-cases, inl, inr}
use demiplane.Sorter.{SlidingWindowSorter, is_empty, gather, process_batch}
use demiplane.Sorter.Order.{Routines, IsStandard, IsOrdering, IsSorted}
use demiplane.Sorter.Insertion.{is_false}
use demiplane.Sorter.Gather.{IsGathered, gather-IsGathered}
use demiplane.Sorter.Output.{delivered, stream, emit-IsEmitted}
use demiplane.Sorter.Batch.{quota, process_batch_idle, process_batch-emit}

module _ {ℓ} {A : Type ℓ} (less : A → A → Bool) where
  -- No entry of `l` is less than one that the consumer has had.
  abbrev pub InTime : List A → SlidingWindowSorter A → Type ℓ
  InTime l s = (a : A) → Mem a (delivered s.consumed) → (b : A) → Mem b l → less b a ≡ false

  stream-IsSorted :
      {s t : SlidingWindowSorter A}
      → IsGathered s t
      → IsSorted less t.sorted_window
      → IsSorted less (stream s)
      → InTime s.new_entries s
      → IsSorted less (stream t)
  stream-IsSorted {s} {t} g w sorted late =
      let (done, _, across) = (Pairwise-append (λ a b. is_false (less b a))).0 sorted in
      rw g.consumed (
        (Pairwise-append (λ a b. is_false (less b a))).1 (
          done,
          w,
          λ a m b n.
              Or.elim (is_false (less b a)) (mem-append.0 ((Perm.mem_iff g.kept).0 n))
                (across a m b) (late a m b),
        ))

module _ {ℓ} {A : Type ℓ} (std : Routines A) (h : IsStandard std) (capacity : ℕ)
    (s : SlidingWindowSorter A) (o : IsOrdering s.config.comparator)
    (enabled : s.config.enable_sorting ≡ true) where
  -- If sorting is enabled, what the consumer has had and then the window is one sorted sequence,
  -- and no pending entry is less than one the consumer has had, then process_batch keeps it one:
  -- each later batch continues the earlier ones in order.
  pub process_batch-stream-IsSorted :
      (force_all : Bool)
      → IsSorted s.config.comparator (stream s)
      → InTime s.config.comparator s.new_entries s
      → IsSorted s.config.comparator (stream (process_batch std capacity force_all s))
  process_batch-stream-IsSorted force_all sorted late =
      let (_, window, _) = (Pairwise-append (λ a b. is_false (s.config.comparator b a))).0 sorted in
      elim (Bool-cases (is_empty s.new_entries && is_empty s.sorted_window)) [
        | inl e ↦ rw (process_batch_idle std h capacity s o (λ _. window) force_all e) sorted
        | inr e ↦
            let t = gather std capacity s in
            let (w, g) = gather-IsGathered std h s o capacity (λ _. window) in
            rw (process_batch-emit std h capacity s o (λ _. window) force_all e) (
              rw (emit-IsEmitted (quota force_all t) t).same
                (stream-IsSorted s.config.comparator g (w enabled) sorted late))
      ]

-- ===== src/Sorter/Tests.antt =====
-- Witnesses, with `<algorithm>` by plain insertion, and a run.
use mathlib.Core.List.{
  Mem, Pairwise, Pairwise-cons, Pairwise-singleton, forall_mem-cons, not-mem-nil,
}
use demiplane.Prelude.{
  ℕ, ◌≡◌, suc, refl, Bool, true, false, List, [], ◌∷◌, ◌++◌, arith, Bool-cases, inl, inr,
  if◌then◌else◌, ltb,
}
use demiplane.Sorter.{
  SlidingWindowConfig, SlidingWindowSorter, entries, entry, create, apply, insertion_sort,
  process_batch, add_entry, add_entries, process_if_ready, should_process, maintain_window_size,
  emit, calculate_output_count, gather, sort_and_merge, take_in, sort_new, insert_rest, insert_key,
  can_use_inplace_merge, merge_with_window, output_entries, perform_inplace_merge,
  perform_standard_merge,
}
use demiplane.Sorter.Order.{Routines, IsUpperBound, IsStandard, IsOrdering, IsSorted, take, drop}
use demiplane.Sorter.Insertion.{insertion_sort-IsSorted, is_false}
use demiplane.Sorter.Output.{delivered, stream}
use demiplane.Sorter.Batch.{IsProcessed, process_batch-IsProcessed}
use demiplane.Sorter.Calls.{IsSound, IsSettled, SorterReach, start, call, SorterReach-IsSound}
use demiplane.Sorter.Stream.{InTime, process_batch-stream-IsSorted}

ltb-IsOrdering : IsOrdering ltb
ltb-IsOrdering = record {
  asymmetric = λ a b h. ground arith;
  transitive = λ a b c h k. ground arith;
}

-- upper_bound by a scan; the other three are filled in from it.
linear_bound : (ℕ → ℕ → Bool) → List ℕ → ℕ → ℕ
linear_bound less [] key = 0
linear_bound less (x ∷ l) key =
    let rest = linear_bound less l key in if less key x then 0 else suc rest

abbrev scanning : Routines ℕ
scanning = record {
  sort = λ less l. l;
  merge = λ less l r. l ++ r;
  inplace_merge = λ less l n. l;
  upper_bound = linear_bound;
}

module _ (less : ℕ → ℕ → Bool) (key : ℕ) where
  before_lem :
      (l : List ℕ) → (x : ℕ) → Mem x (take (linear_bound less l key) l) → less key x ≡ false
  unfolding linear_bound take
  before_lem [] = λ x m. absurd (not-mem-nil m)
  before_lem (y ∷ l) = elim (Bool-cases (less key y)) [
    | inl e ↦ rw e λ x m. absurd (not-mem-nil m)
    | inr e ↦ rw e ((forall_mem-cons (λ x. is_false (less key x))).1 (e, before_lem l))
  ]

  is_true : (b : Bool) → IsProp (b ≡ true)
  is_true b = hlevel

  above_lem :
      (o : IsOrdering less) (x y : ℕ) → less key y ≡ true → less x y ≡ false → less key x ≡ true
  above_lem o x y p q = elim (Bool-cases (less key x)) [
    | inl e ↦ e
    | inr e ↦ cc (o.transitive y x key q e)
  ]

  after_lem :
      (o : IsOrdering less) (l : List ℕ)
      → IsSorted less l
      → (x : ℕ) → Mem x (drop (linear_bound less l key) l)
      → less key x ≡ true
  unfolding linear_bound drop
  after_lem o [] s = λ x m. absurd (not-mem-nil m)
  after_lem o (y ∷ l) s =
      let (below, rest) = Pairwise-cons.0 s in
      elim (Bool-cases (less key y)) [
        | inl e ↦ rw e (
            (forall_mem-cons (λ x. is_true (less key x))).1
              (e, λ x m. above_lem o x y e (below x m)))
        | inr e ↦ rw e (after_lem o l rest)
      ]

scanning-IsUpperBound : IsUpperBound scanning
scanning-IsUpperBound = record {
  before_bound = λ less o l key s. before_lem less key l;
  after_bound = λ less o l key s. after_lem less key o l s;
}

-- All four by insertion.
abbrev std : Routines ℕ
std = record {
  sort = insertion_sort scanning;
  merge = λ less l r. insertion_sort scanning less (l ++ r);
  inplace_merge = λ less l n. insertion_sort scanning less l;
  upper_bound = linear_bound;
}

std-IsStandard : IsStandard std
std-IsStandard = record {
  sort_sorts = λ less o l. (insertion_sort-IsSorted scanning scanning-IsUpperBound less o l).0;
  sort_keeps = λ less o l. (insertion_sort-IsSorted scanning scanning-IsUpperBound less o l).1;
  merge_sorts =
      λ less o l r _ _. (insertion_sort-IsSorted scanning scanning-IsUpperBound less o (l ++ r)).0;
  merge_keeps =
      λ less o l r _ _. (insertion_sort-IsSorted scanning scanning-IsUpperBound less o (l ++ r)).1;
  inplace_sorts =
      λ less o l r _ _. (insertion_sort-IsSorted scanning scanning-IsUpperBound less o (l ++ r)).0;
  inplace_keeps =
      λ less o l r _ _. (insertion_sort-IsSorted scanning scanning-IsUpperBound less o (l ++ r)).1;
  bounds = record {
    before_bound = λ less o l key s. before_lem less key l;
    after_bound = λ less o l key s. after_lem less key o l s;
  };
}

abbrev small : SlidingWindowConfig ℕ
small = record {
  window_size = 3;
  batch_size = 2;
  enable_sorting = true;
  comparator = ltb;
  use_inplace_merge = true;
  merge_threshold = 64;
}

abbrev given : List ℕ
given = (([] ++ 5 ∷ 1 ∷ []) ++ 4 ∷ 2 ∷ []) ++ 3 ∷ []

-- Two batches and a single entry.
used : SlidingWindowSorter ℕ
used =
    apply std 3 (entry 3)
      (apply std 5 (entries (4 ∷ 2 ∷ [])) (apply std 3 (entries (5 ∷ 1 ∷ [])) (create small)))

reached : SorterReach std given used
unfolding used
reached =
    let first = call (start small ltb-IsOrdering) 3 (entries (5 ∷ 1 ∷ [])) tt in
    call (call first 5 (entries (4 ∷ 2 ∷ [])) tt) 3 (entry 3) tt

-- The second batch makes the window longer than 3: two entries leave it, and 3 is still pending.
handed_over : used.consumed ≡ (1 ∷ 2 ∷ []) ∷ []
unfolding used apply create linear_bound add_entry add_entries process_if_ready should_process
    process_batch maintain_window_size emit calculate_output_count gather sort_and_merge take_in
    sort_new insertion_sort insert_rest insert_key take drop can_use_inplace_merge merge_with_window
    output_entries perform_inplace_merge perform_standard_merge
handed_over = refl

SorterReach-IsSound_example : IsSound given used × IsSettled used
SorterReach-IsSound_example = SorterReach-IsSound std std-IsStandard reached

-- Four entries for a window of three that already holds two.
abbrev filled : SlidingWindowSorter ℕ
filled = record {
  config = small;
  sorted_window = 3 ∷ 7 ∷ [];
  new_entries = 9 ∷ 2 ∷ [];
  consumed = (1 ∷ 2 ∷ []) ∷ [];
  total_processed = 2;
  merge_operations = 0;
  sort_operations = 2;
}

in_order :
    (x y : ℕ) (l : List ℕ) → IsSorted ltb (y ∷ l) → ltb y x ≡ false → IsSorted ltb (x ∷ y ∷ l)
in_order x y l s e =
    Pairwise.cons
      ((forall_mem-cons (λ a. is_false (ltb a x))).1
        (e, λ a m. ltb-IsOrdering.transitive x y a e ((Pairwise-cons.0 s).0 a m)))
      s

starts_in_order : IsSorted ltb (stream filled)
unfolding delivered
starts_in_order =
    in_order 1 2 (3 ∷ 7 ∷ [])
      (in_order 2 3 (7 ∷ []) (in_order 3 7 [] (Pairwise-singleton _ 7) refl) refl) refl

process_batch-IsProcessed_example : IsProcessed filled (process_batch std 4 false filled)
process_batch-IsProcessed_example =
    process_batch-IsProcessed std std-IsStandard 4 filled ltb-IsOrdering
      (λ _. in_order 3 7 [] (Pairwise-singleton _ 7) refl) false

late_enough : InTime ltb (9 ∷ 2 ∷ []) filled
unfolding delivered
late_enough a m b n =
    ltb-IsOrdering.transitive a 2 b
      ((forall_mem-cons (λ x. is_false (ltb 2 x))).1
        (refl, (forall_mem-cons (λ x. is_false (ltb 2 x))).1 (refl, λ x k. absurd (not-mem-nil k)))
        a m)
      ((forall_mem-cons (λ x. is_false (ltb x 2))).1
        (refl, (forall_mem-cons (λ x. is_false (ltb x 2))).1 (refl, λ x k. absurd (not-mem-nil k)))
        b n)

process_batch-stream-IsSorted_example : IsSorted ltb (stream (process_batch std 4 false filled))
process_batch-stream-IsSorted_example =
    process_batch-stream-IsSorted std std-IsStandard 4 filled ltb-IsOrdering refl false
      starts_in_order late_enough

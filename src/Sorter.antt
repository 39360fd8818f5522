-- ===== src/Sorter.antt =====
-- common/algorithms/sliding_window_sorter/sliding_window_sorter.hpp: entries are collected, each
-- batch is sorted and merged into a window, and the front of the window goes to the consumer.
-- `sorted_window_.capacity()` is the vector's own business: each call is given the value that
-- it reads. The calls of the consumer are a log in the state, oldest first; it returns normally.
-- The two counters wrap as `size_t` does.
pub mod Order
mod Insertion
mod Gather
pub mod Output
pub mod Batch
pub mod Calls
pub mod Stream
mod Tests
use Prim.Native.Nat.{max, min}
use demiplane.Prelude.{
  ℕ, ◌+◌, ◌-◌, ◌%◌, Bool, true, false, not, ◌&&◌, ◌||◌, List, [], ◌∷◌, ◌++◌, if◌then◌else◌, leb,
  ltb, length, ◌==◌,
}
use demiplane.Sorter.Order.{Routines, take, drop}

abbrev pub size_t : ℕ → ℕ
size_t n = n % 18446744073709551616

-- `empty()`
abbrev pub is_empty {ℓ} : {A : Type ℓ} → List A → Bool
is_empty [] = true
is_empty (x ∷ xs) = false

-- SlidingWindowConfig
pub record SlidingWindowConfig {ℓ} (A : Type ℓ) : Type ℓ where
  pub window_size : ℕ
  pub batch_size : ℕ
  pub enable_sorting : Bool
  pub comparator : A → A → Bool
  pub use_inplace_merge : Bool
  pub merge_threshold : ℕ

-- SlidingWindowSorter, and what its consumer was called with.
pub record SlidingWindowSorter {ℓ} (A : Type ℓ) : Type ℓ where
  pub config : SlidingWindowConfig A
  pub sorted_window : List A
  pub new_entries : List A
  pub consumed : List (List A)
  pub total_processed : ℕ
  pub merge_operations : ℕ
  pub sort_operations : ℕ

-- One call of a public method that changes the sorter.
pub data Call {ℓ} (A : Type ℓ) : Type ℓ where
  entries : List A → Call A
  entry : A → Call A
  flush_all : Call A
  configure : SlidingWindowConfig A → Call A

module _ {ℓ} {A : Type ℓ} where
  unfoldable pub create : SlidingWindowConfig A → SlidingWindowSorter A
  create c = record {
    config = c;
    sorted_window = [];
    new_entries = [];
    consumed = [];
    total_processed = 0;
    merge_operations = 0;
    sort_operations = 0;
  }

  unfoldable pub should_process : SlidingWindowSorter A → Bool
  should_process s = leb s.config.batch_size (length s.new_entries)

  unfoldable pub can_use_inplace_merge : ℕ → SlidingWindowSorter A → Bool
  can_use_inplace_merge capacity s = leb (length s.sorted_window + length s.new_entries) capacity

  unfoldable pub calculate_output_count : SlidingWindowSorter A → ℕ
  calculate_output_count s =
      let size = length s.sorted_window in
      if ltb size s.config.window_size
      then 0
      else max (size - s.config.window_size) s.config.batch_size

  unfoldable pub output_entries : ℕ → SlidingWindowSorter A → SlidingWindowSorter A
  output_entries count s =
      if count == 0
      then s
      else if is_empty s.sorted_window
      then s
      else let n = min count (length s.sorted_window) in
        let output = take n s.sorted_window in
        record s {
          sorted_window = drop n s.sorted_window;
          consumed = s.consumed ++ output ∷ [];
          total_processed = size_t (s.total_processed + length output);
        }

  unfoldable pub maintain_window_size : SlidingWindowSorter A → SlidingWindowSorter A
  maintain_window_size s =
      if ltb s.config.window_size (length s.sorted_window)
      then record s {
        sorted_window = drop (length s.sorted_window - s.config.window_size) s.sorted_window;
      }
      else s

  -- `if (output_count > 0) output_entries(output_count)`
  unfoldable pub emit : ℕ → SlidingWindowSorter A → SlidingWindowSorter A
  emit n s = if ltb 0 n then output_entries n s else s

  module _ (std : Routines A) where
    -- One round of the loop of insertion_sort: `sorted` is `[first, it)`, `key` is `*it`.
    unfoldable pub insert_key : (A → A → Bool) → List A → A → List A
    insert_key comp sorted key =
        let pos = std.upper_bound comp sorted key in take pos sorted ++ key ∷ drop pos sorted

    unfoldable pub insert_rest : (A → A → Bool) → List A → List A → List A
    insert_rest comp sorted [] = sorted
    insert_rest comp sorted (key ∷ rest) = insert_rest comp (insert_key comp sorted key) rest

    -- The loop starts at `first + 1`; its one caller has checked that the range is not empty.
    unfoldable pub insertion_sort : (A → A → Bool) → List A → List A
    insertion_sort comp [] = []
    insertion_sort comp (x ∷ rest) = insert_rest comp (x ∷ []) rest

    unfoldable pub perform_inplace_merge : SlidingWindowSorter A → SlidingWindowSorter A
    perform_inplace_merge s =
        let old_size = length s.sorted_window in
        record s {
          sorted_window =
              std.inplace_merge s.config.comparator (s.sorted_window ++ s.new_entries) old_size;
        }

    unfoldable pub perform_standard_merge : SlidingWindowSorter A → SlidingWindowSorter A
    perform_standard_merge s = record s {
      sorted_window = std.merge s.config.comparator s.sorted_window s.new_entries;
    }

    unfoldable pub merge_with_window : ℕ → SlidingWindowSorter A → SlidingWindowSorter A
    merge_with_window capacity s =
        let merged =
          if s.config.use_inplace_merge && can_use_inplace_merge capacity s
          then perform_inplace_merge s
          else perform_standard_merge s in
        record merged { new_entries = [] }

    -- The first half of sort_and_merge: the new entries in order.
    unfoldable pub sort_new : SlidingWindowSorter A → SlidingWindowSorter A
    sort_new s = record s {
      new_entries =
          if leb (length s.new_entries) s.config.merge_threshold
          then insertion_sort s.config.comparator s.new_entries
          else std.sort s.config.comparator s.new_entries;
      sort_operations = size_t (s.sort_operations + 1);
    }

    -- The second half: into an empty window they move, into another they are merged.
    unfoldable pub take_in : ℕ → SlidingWindowSorter A → SlidingWindowSorter A
    take_in capacity s =
        if is_empty s.sorted_window
        then record s { sorted_window = s.new_entries; new_entries = [] }
        else let merged = merge_with_window capacity s in
          record merged { merge_operations = size_t (merged.merge_operations + 1) }

    unfoldable pub sort_and_merge : ℕ → SlidingWindowSorter A → SlidingWindowSorter A
    sort_and_merge capacity s = if is_empty s.new_entries then s else take_in capacity (sort_new s)

    -- What process_batch does to the window before any output.
    unfoldable pub gather : ℕ → SlidingWindowSorter A → SlidingWindowSorter A
    gather capacity s =
        if s.config.enable_sorting
        then sort_and_merge capacity s
        else record s { sorted_window = s.sorted_window ++ s.new_entries; new_entries = [] }

    unfoldable pub process_batch : ℕ → Bool → SlidingWindowSorter A → SlidingWindowSorter A
    process_batch capacity force_all s =
        if is_empty s.new_entries && is_empty s.sorted_window
        then s
        else let t = gather capacity s in
          maintain_window_size
            (emit (if force_all then length t.sorted_window else calculate_output_count t) t)

    -- `if (should_process()) process_batch();`
    unfoldable pub process_if_ready : ℕ → SlidingWindowSorter A → SlidingWindowSorter A
    process_if_ready capacity s = if should_process s then process_batch capacity false s else s

    unfoldable pub add_entries : ℕ → List A → SlidingWindowSorter A → SlidingWindowSorter A
    add_entries capacity given s =
        if is_empty given
        then s
        else process_if_ready capacity (record s { new_entries = s.new_entries ++ given })

    unfoldable pub add_entry : ℕ → A → SlidingWindowSorter A → SlidingWindowSorter A
    add_entry capacity given s =
        process_if_ready capacity (record s { new_entries = s.new_entries ++ given ∷ [] })

    unfoldable pub flush : ℕ → SlidingWindowSorter A → SlidingWindowSorter A
    flush capacity s =
        if not (is_empty s.new_entries) || not (is_empty s.sorted_window)
        then process_batch capacity true s
        else s

    unfoldable pub reconfigure :
        ℕ → SlidingWindowConfig A → SlidingWindowSorter A → SlidingWindowSorter A
    reconfigure capacity c s = let t = flush capacity s in record t { config = c }

    -- A call, at the capacity that the window has then.
    unfoldable pub apply : ℕ → Call A → SlidingWindowSorter A → SlidingWindowSorter A
    apply capacity (entries given) s = add_entries capacity given s
    apply capacity (entry given) s = add_entry capacity given s
    apply capacity flush_all s = flush capacity s
    apply capacity (configure c) s = reconfigure capacity c s

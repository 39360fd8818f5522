-- ===== src/Disruptor.antt =====
-- common/multithread/disruptor: DynamicMultiProducerSequencer (multi_producer_sequencer/
-- dynamic_multi_producer_sequencer.hpp) and DynamicRingBuffer. A counter that starts at -1 is
-- counted from 0: `cursor` and `gating_sequence` are the source's values plus one, that is, how
-- many sequences are claimed and how many are consumed, and `get_highest_published` gives its
-- result plus one. Sequences themselves are as in the source, and none reaches 2 ^ 63.
-- A method is one step here where it makes one atomic access; Disruptor/Logger interleaves `next`.
pub mod Scan
pub mod Waiting
mod Tests
use Prim.Native.Nat.{bit_and}
use demiplane.Prelude.{
  ℕ, zero, suc, ◌+◌, ◌-◌, Bool, true, false, not, ◌&&◌, Option, none, some, ltb, leb, ◌==◌,
  if◌then◌else◌, update,
}
use demiplane.Prelude.Powers.{place}

pub record Sequencer : Type 0 where
  pub cursor : ℕ
  pub gating_sequence : ℕ
  pub buffer_size : ℕ
  pub available_flags : ℕ → Bool

-- `std::has_single_bit`
abbrev pub has_single_bit : ℕ → Bool
has_single_bit n = not (n == 0) && (bit_and n (n - 1) == 0)

-- The constructor; `none` is the invalid_argument it throws.
unfoldable pub open_sequencer : ℕ → ℕ → Option Sequencer
open_sequencer size initial =
    if has_single_bit size
    then some record {
      cursor = initial;
      gating_sequence = initial;
      buffer_size = size;
      available_flags = λ i. false;
    }
    else none

-- `wrap_point > gating_sequence`, where `next` is `n` past `current`.
unfoldable pub would_wrap : ℕ → ℕ → Sequencer → Bool
would_wrap current n s = ltb (s.gating_sequence + s.buffer_size) (current + n)

-- compare_and_set of the cursor: a weak exchange may also fail where it need not (`spurious`).
unfoldable pub compare_and_set : Bool → ℕ → ℕ → Sequencer → Bool × Sequencer
compare_and_set spurious current next s =
    if not spurious && (s.cursor == current) then (true, record s { cursor = next }) else (false, s)

-- try_next, with no access of another thread in between; `none` is -1.
unfoldable pub try_next : Bool → Sequencer → Option ℕ × Sequencer
try_next spurious s =
    if would_wrap s.cursor 1 s
    then (none, s)
    else let (won, t) = compare_and_set spurious s.cursor (s.cursor + 1) s in
      if won then (some s.cursor, t) else (none, s)

unfoldable pub is_available : ℕ → Sequencer → Bool
is_available sequence s = s.available_flags (place s.buffer_size sequence)

-- The store that publish makes; the signal to waiting consumers has no effect on the sequencer.
unfoldable pub publish : ℕ → Sequencer → Sequencer
publish sequence s = record s {
  available_flags = update s.available_flags (place s.buffer_size sequence) true;
}

-- The loop of publish_batch over `count` sequences from `lo`.
unfoldable pub publish_batch : ℕ → ℕ → Sequencer → Sequencer
publish_batch lo zero s = s
publish_batch lo (suc count) s = publish_batch (lo + 1) count (publish lo s)

-- The loop of get_highest_published with `count` sequences left.
unfoldable pub scan_published : ℕ → ℕ → ℕ → Sequencer → ℕ
scan_published available sequence zero s = available
scan_published available sequence (suc count) s =
    let rest = scan_published available (sequence + 1) count s in
    if not (is_available sequence s) then sequence else rest

unfoldable pub get_highest_published : ℕ → ℕ → Sequencer → ℕ
get_highest_published lower_bound available s =
    scan_published available lower_bound (available - lower_bound) s

unfoldable pub mark_consumed : ℕ → Sequencer → Sequencer
mark_consumed sequence s = record s {
  available_flags = update s.available_flags (place s.buffer_size sequence) false;
}

unfoldable pub update_gating_sequence : ℕ → Sequencer → Sequencer
update_gating_sequence sequence s = record s { gating_sequence = sequence }

-- `buffer_size_ - (produced - consumed)`; at most buffer_size_ sequences are claimed and not consumed.
unfoldable pub remaining_capacity : Sequencer → ℕ
remaining_capacity s = s.buffer_size - (s.cursor - s.gating_sequence)

-- ===== src/Pool/Slots/Tests.antt =====
-- Slots at work.
use demiplane.Prelude.{
  ◌≢◌, if◌then◌else◌, ◌==◌, ℕ, ◌≡◌, refl, true, false, Option, none, some, [], arith,
}
use demiplane.Pool.Slots.Exhaustion.{acquire_slot_exhausted}
use demiplane.Pool.Slots.{
  used, inactive, free, SlotPool, acquire_slot, construct_slots, claim_free, claim_inactive,
  promote, load_status, store_inactive, close, release,
}
use demiplane.Pool.Slots.Borrow.{Borrows, acquire_slot-Borrows}
use demiplane.Pool.Slots.Exclusive.{
  IsExclusive, opened, construct_slots-SlotReach-IsExclusive, shutdown_lends_twice,
}
use demiplane.Pool.Slots.Steps.{SlotStep, SlotReach, borrow}

-- Four slots, one of them connected.
abbrev connection : ℕ → Option ℕ
connection i = some 70

abbrev four : SlotPool
four = record {
  capacity = 4;
  status = λ i. free;
  conn = λ i. some 70;
  hint_cursor = 3;
  shutdown = false;
}

-- The hint wraps around.
wrapped : (acquire_slot connection four).0 ≡ some 3
unfolding acquire_slot
wrapped = refl

-- One slot in use, and one that cannot connect.
abbrev nothing_left : SlotPool
nothing_left = record {
  capacity = 2;
  status = λ i. if i == 0 then used else inactive;
  conn = λ i. none;
  hint_cursor = 1;
  shutdown = false;
}

acquire_slot_exhausted_example :
    (nothing_left.status 1 ≢ free) × ((acquire_slot (λ i. none) nothing_left).1.status 1 ≢ inactive)
unfolding acquire_slot
acquire_slot_exhausted_example =
    acquire_slot_exhausted (λ i. none) nothing_left 1 refl refl refl 1 (omega arith)

acquire_slot-Borrows_example :
    Borrows four (acquire_slot connection four)
    × (false ≡ true → acquire_slot connection four ≡ (none, four))
acquire_slot-Borrows_example = acquire_slot-Borrows connection four

construct_slots-SlotReach-IsExclusive_example :
    IsExclusive
      (record (borrow 0
        (opened (construct_slots 4 1 connection))
        (claim_free 0 (construct_slots 4 1 connection))) {
          pool = release true 0 (claim_free 0 (construct_slots 4 1 connection)).1;
          lent = [];
        })
unfolding construct_slots claim_free
construct_slots-SlotReach-IsExclusive_example =
    construct_slots-SlotReach-IsExclusive 4 1 connection (
      SlotReach.next
        (SlotReach.next SlotReach.here
          (SlotStep.borrows 0 (opened (construct_slots 4 1 connection))))
        (SlotStep.releases 0 true _ (omega arith)))

shutdown_lends_twice_example :
    let seen = load_status 2 (close four) in
    let one = claim_free 2 (close four) in
    let stored = store_inactive seen 2 one.1 in
    let two = claim_inactive 2 stored in
    (one.0 ≡ true)
    × (one.1.conn 2 ≡ some 70)
    × (two.0 ≡ true)
    × ((promote 2 (some 71) two.1).conn 2 ≡ some 71)
shutdown_lends_twice_example = shutdown_lends_twice four 2 70 71 refl refl

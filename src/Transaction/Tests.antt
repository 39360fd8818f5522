-- ===== src/Transaction/Tests.antt =====
-- Witnesses on a transaction whose BEGIN the server accepts and whose COMMIT it refuses.
use demiplane.Prelude.{◌≡◌, ◌↔◌, refl, Bool, true, false, List, [], ◌∷◌, codes}
use demiplane.Transaction.{
  TransactionOptions, read_committed, read_write, Control, begin_with, commit_it, roll_it_back,
  save, rollback_to, release, Event, Transaction, new_transaction, begin, begin_sql, conclude,
  execute_control, to_begin_sql, sent, returned, release_savepoint, refused, ok, commit, savepoint,
  is_valid_identifier, move_assign, active,
}
use demiplane.Transaction.Auto.{
  IsClean, terminated, begin_auto_transaction, commit_auto, savepoint_auto, destroy_savepoint,
  move_assign_savepoint, begin_auto_transaction-IsClean,
}
use demiplane.Transaction.Lifecycle.{
  TransactionReach, fresh, began, inside_after, returns, move_assign_leaves_open,
}

answers : List Event → Control → Bool
answers log (begin_with t) = true
answers log commit_it = false
answers log roll_it_back = true
answers log (save n) = true
answers log (rollback_to n) = true
answers log (release n) = true

abbrev standard : TransactionOptions
standard = record { isolation = read_committed; access = read_write; deferrable = false }

under_way : Transaction
under_way = (begin answers (new_transaction true standard)).1

reached : TransactionReach answers under_way
unfolding under_way
reached = began (fresh true standard)

is_live : under_way.live ≡ true
unfolding under_way begin begin_sql to_begin_sql conclude execute_control answers new_transaction
is_live = refl

is_running : under_way.status ≡ active
unfolding under_way begin begin_sql to_begin_sql conclude execute_control answers new_transaction
is_running = refl

move_assign_leaves_open_run :
    (inside_after false (move_assign under_way (new_transaction true standard)).0 ≡ true)
    × (returns (move_assign under_way (new_transaction true standard)).0 ≡ 1)
move_assign_leaves_open_run =
    move_assign_leaves_open answers reached is_live is_running (new_transaction true standard)

abbrev deferred : TransactionOptions
deferred = record { isolation = read_committed; access = read_write; deferrable = true }

begin_auto_transaction-IsClean_example :
    IsClean answers (begin_auto_transaction answers true deferred)
    × ((begin_auto_transaction answers true deferred ≡ terminated) ↔ (true ≡ true))
begin_auto_transaction-IsClean_example = begin_auto_transaction-IsClean answers true deferred

-- A savepoint that outlives its transaction sends its RELEASE after the connection was returned.
late :
    destroy_savepoint answers (record { name = codes "a"; is_open = true }) (returned ∷ [])
    ≡ returned ∷ sent (release (codes "a")) true ∷ []
unfolding destroy_savepoint release_savepoint execute_control answers
late = refl

-- One that is assigned over is released.
assigned :
    (move_assign_savepoint answers
      (record { name = codes "a"; is_open = true })
      (record { name = codes "b"; is_open = true })
      []).0
    ≡ sent (release (codes "a")) true ∷ []
unfolding move_assign_savepoint destroy_savepoint release_savepoint execute_control answers
assigned = refl

-- An auto transaction commits, and makes savepoints, as the transaction in it does.
auto_commit_refused : (commit_auto answers (record { tx = under_way })).0 ≡ refused
unfolding commit_auto under_way commit conclude begin begin_sql to_begin_sql execute_control answers
    new_transaction
auto_commit_refused = refl

auto_savepoint :
    (savepoint_auto answers (codes "a") (record { tx = under_way })).0
    ≡ ok (record { name = codes "a"; is_open = true })
unfolding savepoint_auto under_way savepoint conclude begin begin_sql to_begin_sql execute_control
    answers new_transaction is_valid_identifier codes
auto_savepoint = refl

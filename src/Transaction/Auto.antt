-- ===== src/Transaction/Auto.antt =====
-- AutoTransaction (transaction/auto_transaction/auto_transaction.cpp), and how a session begins one
-- (session/blocking/postgres_blocking_session.cpp).
use demiplane.Prelude.{
  ◌≡◌, ◌≢◌, refl, ap, Bool, true, false, not, ◌&&◌, Option, none, some, List, [], Text, Bool-cases,
  Option-cases, inl, inr, arith, ◌↔◌, if◌then◌else◌,
}
use demiplane.Transaction.{
  TransactionOptions, active, Control, begin_with, Event, Transaction, Savepoint, Outcome, ok,
  invalid_state, invalid_argument, refused, thrown, new_transaction, execute_control, conclude,
  begin_sql, begin, commit, savepoint, destroy, release_savepoint, to_begin_sql, is_serializable,
  is_read_only,
}
use demiplane.Transaction.Lifecycle.{inside_after, returns}

pub record AutoTransaction : Type 0 where
  pub tx : Transaction

-- What begin_auto_transaction ends with: the object, an error with what was done on the connection,
-- an error of the pool, or a call of std::terminate, since the function is noexcept.
pub data Begun : Type 0 where
  running : AutoTransaction → Begun
  not_begun : List Event → Begun
  no_connection terminated : Begun

module _ (answers : List Event → Control → Bool) where
  abbrev pub begun : Outcome Unit × Transaction → Begun
  begun (ok done, t) = running (record { tx = t })
  begun (invalid_state, t) = not_begun (destroy answers t)
  begun (invalid_argument, t) = not_begun (destroy answers t)
  begun (refused, t) = not_begun (destroy answers t)
  begun (thrown, t) = terminated

  -- `acquired` is whether the pool lends a connection.
  unfoldable pub begin_auto_transaction : Bool → TransactionOptions → Begun
  begin_auto_transaction false o = no_connection
  begin_auto_transaction true o = begun (begin answers (new_transaction true o))

  unfoldable pub commit_auto : AutoTransaction → Outcome Unit × AutoTransaction
  commit_auto a = let (r, t) = commit answers a.tx in (r, record { tx = t })

  unfoldable pub savepoint_auto : Text → AutoTransaction → Outcome Savepoint × AutoTransaction
  savepoint_auto name a = let (r, t) = savepoint answers name a.tx in (r, record { tx = t })

  -- The destructor of a savepoint, on the log of its connection.
  unfoldable pub destroy_savepoint : Savepoint → List Event → List Event
  destroy_savepoint s log = if s.is_open then (release_savepoint answers s log).1 else log

  -- Move assignment of savepoints of one connection: the log, the target and the source.
  unfoldable pub move_assign_savepoint :
      Savepoint → Savepoint → List Event → List Event × Savepoint × Savepoint
  move_assign_savepoint s other log =
      (destroy_savepoint s log, other, record other { is_open = false })

  -- Either a transaction runs on a connection that is still borrowed, or none does and the connection
  -- went back once.
  abbrev pub IsClean : Begun → Type 0
  IsClean (running a) =
      (a.tx.status ≡ active) × (inside_after false a.tx.log ≡ true) × (returns a.tx.log ≡ 0)
  IsClean (not_begun log) = (inside_after false log ≡ false) × (returns log ≡ 1)
  IsClean no_connection = Unit {0}
  IsClean terminated = Unit {0}

  begun_with :
      (o : TransactionOptions) (text : Text)
      → to_begin_sql o ≡ some text
      → begin_auto_transaction true o
        ≡ begun (conclude answers (begin_with text) active (new_transaction true o))
  unfolding begin_auto_transaction begin begin_sql new_transaction
  begun_with o text e =
      ap (λ (x : Option Text). begun (begin_sql answers x (new_transaction true o))) e

  begun_without :
      (o : TransactionOptions) → to_begin_sql o ≡ none → begin_auto_transaction true o ≡ terminated
  unfolding begin_auto_transaction begin begin_sql new_transaction
  begun_without o e =
      ap (λ (x : Option Text). begun (begin_sql answers x (new_transaction true o))) e

  concluded-IsClean :
      (o : TransactionOptions) (text : Text)
      → IsClean (begun (conclude answers (begin_with text) active (new_transaction true o)))
  unfolding conclude execute_control new_transaction destroy inside_after returns
  concluded-IsClean o text = elim (Bool-cases (answers [] (begin_with text))) [
    | inl e ↦ simp e (refl, refl, refl)
    | inr e ↦ simp e (refl, refl)
  ]

  begin_sql_text :
      (o : TransactionOptions)
      → (o.deferrable && not (is_serializable o.isolation && is_read_only o.access)) ≡ false
      → (text : Text) × (to_begin_sql o ≡ some text)
  unfolding to_begin_sql
  begin_sql_text o h = elim (Option-cases (to_begin_sql o)) [
    | inl e ↦ ground (arith, h, e)
    | inr r ↦ r
  ]

  no_begin_sql :
      (o : TransactionOptions)
      → (o.deferrable && not (is_serializable o.isolation && is_read_only o.access)) ≡ true
      → to_begin_sql o ≡ none
  unfolding to_begin_sql
  no_begin_sql o h = ground (arith, h)

  begun_not_terminated :
      (o : TransactionOptions) (text : Text)
      → (begun (conclude answers (begin_with text) active (new_transaction true o))) ≢ terminated
  unfolding conclude execute_control new_transaction
  begun_not_terminated o text = elim (Bool-cases (answers [] (begin_with text))) [
    | inl e ↦ simp e (λ h. absurd cc)
    | inr e ↦ simp e (λ h. absurd cc)
  ]

  begun-IsClean :
      (o : TransactionOptions)
      → IsClean (begin_auto_transaction true o)
        × ((begin_auto_transaction true o ≡ terminated)
            ↔ ((o.deferrable && not (is_serializable o.isolation && is_read_only o.access)) ≡ true))
  begun-IsClean o =
      elim (Bool-cases
        (o.deferrable && not (is_serializable o.isolation && is_read_only o.access))) [
          | inl e ↦ simp (begun_without o (no_begin_sql o e)) (tt, ((λ h. e), (λ h. refl)))
          | inr e ↦
              let (text, written) = begin_sql_text o e in
              simp (begun_with o text written, e)
                (
                  concluded-IsClean o text,
                  ((λ h. absurd (begun_not_terminated o text h)), (λ h. absurd cc)),
                )
        ]

  -- begin_auto_transaction either gives a transaction that is ACTIVE, with the server inside it and
  -- the connection borrowed, or it gives an error and the connection, if there was one, went back
  -- once with no transaction open, or it terminates the program. It does so exactly when a connection
  -- was acquired and the options ask for DEFERRABLE without SERIALIZABLE or without READ ONLY.
  pub begin_auto_transaction-IsClean :
      (acquired : Bool) (o : TransactionOptions)
      → IsClean (begin_auto_transaction acquired o)
        × ((begin_auto_transaction acquired o ≡ terminated) ↔ (
            (acquired && o.deferrable && not (is_serializable o.isolation && is_read_only o.access))
            ≡ true))
  unfolding begin_auto_transaction
  begin_auto_transaction-IsClean false o = (tt, ((λ e. absurd cc), (λ e. absurd cc)))
  begin_auto_transaction-IsClean true o = begun-IsClean o

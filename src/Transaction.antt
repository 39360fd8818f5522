-- ===== src/Transaction.antt =====
-- components/database/providers/postgresql/transaction: Transaction (base/transaction.cpp), its
-- options (options/transaction_options.hpp) and Savepoint (savepoint/savepoint.cpp). The
-- connection is the log of what was sent over it and of its return to the pool; `answers` is the
-- server with the executor before it, which says whether a command succeeds, from all that was
-- sent before. `live` is whether the weak pointer to the holder can be locked.
pub mod Auto
pub mod Lifecycle
mod Tests
use demiplane.Prelude.{
  ℕ, suc, ◌<◌, Bool, true, false, not, ◌&&◌, ◌||◌, Option, none, some, List, [], ◌∷◌, ◌++◌, Text,
  codes, leb, ltb, ◌==◌, length, if◌then◌else◌,
}

pub data IsolationLevel : Type 0 where
  read_committed repeatable_read serializable : IsolationLevel

pub data AccessMode : Type 0 where
  read_write read_only : AccessMode

pub record TransactionOptions : Type 0 where
  pub isolation : IsolationLevel
  pub access : AccessMode
  pub deferrable : Bool

unfoldable pub isolation_text : IsolationLevel → Text
isolation_text read_committed = codes "READ COMMITTED"
isolation_text repeatable_read = codes "REPEATABLE READ"
isolation_text serializable = codes "SERIALIZABLE"

unfoldable pub access_text : AccessMode → Text
access_text read_write = codes "READ WRITE"
access_text read_only = codes "READ ONLY"

abbrev is_serializable : IsolationLevel → Bool
is_serializable read_committed = false
is_serializable repeatable_read = false
is_serializable serializable = true

abbrev is_read_only : AccessMode → Bool
is_read_only read_write = false
is_read_only read_only = true

-- `none` is the invalid_argument that is thrown.
unfoldable pub to_begin_sql : TransactionOptions → Option Text
unfolding isolation_text access_text
to_begin_sql o =
    if o.deferrable && (not (is_serializable o.isolation) || not (is_read_only o.access))
    then none
    else some (
        codes "BEGIN"
        ++ codes " ISOLATION LEVEL "
        ++ isolation_text o.isolation
        ++ b' ' ∷ []
        ++ access_text o.access
        ++ (if o.deferrable then codes " DEFERRABLE" else []))

pub data TransactionStatus : Type 0 where
  idle active committed rolled_back failed : TransactionStatus

abbrev pub is_idle : TransactionStatus → Bool
is_idle idle = true
is_idle active = false
is_idle committed = false
is_idle rolled_back = false
is_idle failed = false

abbrev pub is_active : TransactionStatus → Bool
is_active idle = false
is_active active = true
is_active committed = false
is_active rolled_back = false
is_active failed = false

-- The commands that the two classes send.
pub data Control : Type 0 where
  begin_with : Text → Control
  commit_it roll_it_back : Control
  save rollback_to release : Text → Control

-- What happens on a connection: a command with its success, or the return to the pool.
pub data Event : Type 0 where
  sent : Control → Bool → Event
  returned : Event

-- What a method returns: success, the two client errors, the error of the server, an exception.
pub data Outcome (A : Type 0) : Type 0 where
  ok : A → Outcome A
  invalid_state invalid_argument refused thrown : Outcome A

pub record Transaction : Type 0 where
  pub live : Bool
  pub options : TransactionOptions
  pub status : TransactionStatus
  pub log : List Event

pub record Savepoint : Type 0 where
  pub name : Text
  pub is_open : Bool

unfoldable pub new_transaction : Bool → TransactionOptions → Transaction
new_transaction live o = record { live = live; options = o; status = idle; log = [] }

-- `std::isalpha` and `std::isalnum` in the C locale.
abbrev is_alpha : ℕ → Bool
is_alpha c = (leb b'a' c && leb c b'z') || (leb b'A' c && leb c b'Z')

abbrev is_name_char : ℕ → Bool
is_name_char c = is_alpha c || (leb b'0' c && leb c b'9') || (c == b'_')

unfoldable pub all_name_chars : Text → Bool
all_name_chars [] = true
all_name_chars (c ∷ rest) = is_name_char c && all_name_chars rest

unfoldable pub is_valid_identifier : Text → Bool
unfolding all_name_chars
is_valid_identifier [] = false
is_valid_identifier (c ∷ rest) =
    leb (suc (length rest)) 63 && (is_alpha c || (c == b'_')) && all_name_chars (c ∷ rest)

-- Move assignment between two objects: what has happened on the connection that the target gives
-- up, the target, and the source.
unfoldable pub move_assign : Transaction → Transaction → List Event × Transaction × Transaction
move_assign t other = (
  if t.live then t.log ++ returned ∷ [] else t.log,
  other,
  record other { live = false; status = failed },
)

module _ (answers : List Event → Control → Bool) where
  unfoldable pub execute_control : Control → List Event → Bool × List Event
  execute_control c log = let done = answers log c in (done, log ++ sent c done ∷ [])

  -- A command that ends in one of two states.
  unfoldable pub conclude : Control → TransactionStatus → Transaction → Outcome Unit × Transaction
  unfolding execute_control
  conclude c good t =
      let (done, log) = execute_control c t.log in
      if done
      then (ok tt, record t { status = good; log = log })
      else (refused, record t { status = failed; log = log })

  -- to_begin_sql throws before anything is sent.
  unfoldable pub begin_sql : Option Text → Transaction → Outcome Unit × Transaction
  begin_sql none t = (thrown, t)
  begin_sql (some text) t = conclude (begin_with text) active t

  unfoldable pub begin : Transaction → Outcome Unit × Transaction
  begin t =
      if not (is_idle t.status) then (invalid_state, t) else begin_sql (to_begin_sql t.options) t

  unfoldable pub commit : Transaction → Outcome Unit × Transaction
  commit t = if not (is_active t.status) then (invalid_state, t) else conclude commit_it committed t

  unfoldable pub rollback : Transaction → Outcome Unit × Transaction
  rollback t =
      if not (is_active t.status) then (invalid_state, t) else conclude roll_it_back rolled_back t

  unfoldable pub savepoint : Text → Transaction → Outcome Savepoint × Transaction
  savepoint name t =
      if not (is_active t.status)
      then (invalid_state, t)
      else if not (is_valid_identifier name)
      then (invalid_argument, t)
      else if (execute_control (save name) t.log).0
      then (
        ok (record { name = name; is_open = true }),
        record t { log = (execute_control (save name) t.log).1 },
      )
      else (refused, record t { log = (execute_control (save name) t.log).1 })

  -- Savepoint::rollback and Savepoint::release, over the log of the connection.
  unfoldable pub rollback_savepoint : Savepoint → List Event → Savepoint × List Event
  rollback_savepoint s log =
      if s.is_open then (s, (execute_control (rollback_to s.name) log).1) else (s, log)

  unfoldable pub release_savepoint : Savepoint → List Event → Savepoint × List Event
  release_savepoint s log =
      if s.is_open
      then (
        record s { is_open = not (execute_control (release s.name) log).0 },
        (execute_control (release s.name) log).1,
      )
      else (s, log)

  -- The destructor; the holder is reset once it is locked.
  unfoldable pub destroy : Transaction → List Event
  destroy t =
      if t.live
      then (if is_active t.status then (execute_control roll_it_back t.log).1 else t.log)
        ++ returned ∷ []
      else t.log

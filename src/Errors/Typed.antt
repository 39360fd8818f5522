-- ===== src/Errors/Typed.antt =====
-- The typed access of ErrorCode (components/database/base/errors/db_error_codes.hpp) against its
-- constructors, and its equality.
use demiplane.Prelude.{true, ◌≡◌, refl, sym, ◌∙◌, ap, Option, none, some, arith}
use demiplane.Errors.{
  ClientErrorCode, ServerErrorCode, FatalErrorCode, ErrorCode, enumerator, from_client, from_server,
  from_fatal, as_client_error, as_server_error, as_fatal_error, equal, Category, same_category,
  access_error, already_connected, assertion_failure, authentication_error, check_violation,
  column_not_found, configuration_error, configuration_limit, connection_error, connection_lost,
  connection_refused, connection_string_error, connection_timeout, constraint_violation,
  corruption_detected, data_error, data_too_long, database_not_found, deadlock_detected, disk_full,
  division_by_zero, exclusion_violation, foreign_key_violation, function_not_found, internal_error,
  invalid_argument, invalid_cast, invalid_datetime, invalid_encoding, invalid_isolation_level,
  invalid_option, invalid_parameter, invalid_state, invalid_text_format, lock_timeout,
  missing_parameter, no_active_transaction, not_connected, not_null_violation, null_conversion,
  numeric_overflow, object_not_found, out_of_memory, out_of_range, permission_denied,
  pool_exhausted, pool_shutdown, protocol_violation, query_too_complex, resource_error,
  runtime_error, schema_not_found, serialization_failure, statement_timeout, syntax_error,
  table_not_found, too_many_connections, transaction_aborted, transaction_active, transaction_error,
  transaction_rollback, type_mismatch, unexpected_state, unique_violation, wait_timeout,
}

as_client-from_client : (c : ClientErrorCode) → as_client_error (from_client c) ≡ some c
unfolding as_client_error from_client enumerator
as_client-from_client ClientErrorCode.success = refl
as_client-from_client invalid_argument = refl
as_client-from_client syntax_error = refl
as_client-from_client invalid_parameter = refl
as_client-from_client type_mismatch = refl
as_client-from_client null_conversion = refl
as_client-from_client invalid_cast = refl
as_client-from_client out_of_range = refl
as_client-from_client configuration_error = refl
as_client-from_client connection_string_error = refl
as_client-from_client authentication_error = refl
as_client-from_client invalid_option = refl
as_client-from_client missing_parameter = refl
as_client-from_client invalid_state = refl
as_client-from_client not_connected = refl
as_client-from_client already_connected = refl
as_client-from_client transaction_active = refl
as_client-from_client no_active_transaction = refl
as_client-from_client pool_exhausted = refl
as_client-from_client pool_shutdown = refl
as_client-from_client wait_timeout = refl

as_server-from_server : (c : ServerErrorCode) → as_server_error (from_server c) ≡ some c
unfolding as_server_error from_server enumerator
as_server-from_server ServerErrorCode.success = refl
as_server-from_server runtime_error = refl
as_server-from_server connection_error = refl
as_server-from_server connection_lost = refl
as_server-from_server connection_timeout = refl
as_server-from_server connection_refused = refl
as_server-from_server deadlock_detected = refl
as_server-from_server lock_timeout = refl
as_server-from_server statement_timeout = refl
as_server-from_server serialization_failure = refl
as_server-from_server constraint_violation = refl
as_server-from_server unique_violation = refl
as_server-from_server foreign_key_violation = refl
as_server-from_server check_violation = refl
as_server-from_server not_null_violation = refl
as_server-from_server exclusion_violation = refl
as_server-from_server data_error = refl
as_server-from_server data_too_long = refl
as_server-from_server numeric_overflow = refl
as_server-from_server division_by_zero = refl
as_server-from_server invalid_datetime = refl
as_server-from_server invalid_encoding = refl
as_server-from_server invalid_text_format = refl
as_server-from_server access_error = refl
as_server-from_server permission_denied = refl
as_server-from_server object_not_found = refl
as_server-from_server database_not_found = refl
as_server-from_server table_not_found = refl
as_server-from_server column_not_found = refl
as_server-from_server schema_not_found = refl
as_server-from_server function_not_found = refl
as_server-from_server resource_error = refl
as_server-from_server out_of_memory = refl
as_server-from_server disk_full = refl
as_server-from_server too_many_connections = refl
as_server-from_server configuration_limit = refl
as_server-from_server query_too_complex = refl
as_server-from_server transaction_error = refl
as_server-from_server transaction_rollback = refl
as_server-from_server transaction_aborted = refl
as_server-from_server invalid_isolation_level = refl

as_fatal-from_fatal : (c : FatalErrorCode) → as_fatal_error (from_fatal c) ≡ some c
unfolding as_fatal_error from_fatal enumerator
as_fatal-from_fatal internal_error = refl
as_fatal-from_fatal corruption_detected = refl
as_fatal-from_fatal protocol_violation = refl
as_fatal-from_fatal assertion_failure = refl
as_fatal-from_fatal unexpected_state = refl

same_category_eq : (a b : Category) → same_category a b ≡ true → a ≡ b
same_category_eq Category.success b h = ground arith
same_category_eq a b h = ground arith

equal_eq : (e f : ErrorCode) → equal e f ≡ true → e ≡ f
unfolding equal
equal_eq e f h = ground (arith, same_category_eq e.category f.category)

some-injective : {A : Type 0} (a b : A) → ◌≡◌ {A = Option A} (some a) (some b) → a ≡ b
some-injective a b h = cc

module _ {A : Type 0} (from : A → ErrorCode) (typed : ErrorCode → Option A) where
  -- Typed access gives back what an error code was made from, so equality tells codes apart.
  abbrev pub Typed : Type 0
  Typed = ((c : A) → typed (from c) ≡ some c) × ((b c : A) → equal (from b) (from c) ≡ true → b ≡ c)

  told_apart : ((c : A) → typed (from c) ≡ some c) → Typed
  told_apart back = (
    back,
    λ b c h. some-injective b c (sym (back b) ∙ ap typed (equal_eq (from b) (from c) h) ∙ back c),
  )

-- The typed access gives back the enumerator that an error code was made from, and nothing for the
-- codes of another category; two codes of a category compare equal only if they are of the same
-- enumerator.
pub typed_access :
    Typed from_client as_client_error
    × Typed from_server as_server_error
    × Typed from_fatal as_fatal_error
    × ((c : ClientErrorCode)
        → (as_server_error (from_client c) ≡ none) × (as_fatal_error (from_client c) ≡ none))
    × ((c : ServerErrorCode)
        → (as_client_error (from_server c) ≡ none) × (as_fatal_error (from_server c) ≡ none))
    × ((c : FatalErrorCode)
        → (as_client_error (from_fatal c) ≡ none) × (as_server_error (from_fatal c) ≡ none))
unfolding as_client_error as_server_error as_fatal_error from_client from_server from_fatal
typed_access = (
  told_apart from_client as_client_error as_client-from_client,
  told_apart from_server as_server_error as_server-from_server,
  told_apart from_fatal as_fatal_error as_fatal-from_fatal,
  λ c. (refl, refl),
  λ c. (refl, refl),
  λ c. (refl, refl),
)

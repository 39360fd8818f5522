-- ===== src/Errors/Names.antt =====
-- The names and descriptions of error codes (components/database/base/errors/db_error_codes.hpp).
use mathlib.Core.Option
use demiplane.Prelude.{Option, some, Text, codes}
use demiplane.Errors.{
  ClientErrorCode, ServerErrorCode, FatalErrorCode, Category, client, server, fatal, ErrorCode,
  as_client_error, as_server_error, as_fatal_error, access_error, already_connected,
  assertion_failure, authentication_error, check_violation, column_not_found, configuration_error,
  configuration_limit, connection_error, connection_lost, connection_refused,
  connection_string_error, connection_timeout, constraint_violation, corruption_detected,
  data_error, data_too_long, database_not_found, deadlock_detected, disk_full, division_by_zero,
  exclusion_violation, foreign_key_violation, function_not_found, internal_error, invalid_argument,
  invalid_cast, invalid_datetime, invalid_encoding, invalid_isolation_level, invalid_option,
  invalid_parameter, invalid_state, invalid_text_format, lock_timeout, missing_parameter,
  no_active_transaction, not_connected, not_null_violation, null_conversion, numeric_overflow,
  object_not_found, out_of_memory, out_of_range, permission_denied, pool_exhausted, pool_shutdown,
  protocol_violation, query_too_complex, resource_error, runtime_error, schema_not_found,
  serialization_failure, statement_timeout, syntax_error, table_not_found, too_many_connections,
  transaction_aborted, transaction_active, transaction_error, transaction_rollback, type_mismatch,
  unexpected_state, unique_violation, wait_timeout,
}

unfoldable pub client_name : ClientErrorCode → Text
unfolding codes
client_name ClientErrorCode.success = codes "Success"
client_name invalid_argument = codes "InvalidArgument"
client_name syntax_error = codes "SyntaxError"
client_name invalid_parameter = codes "InvalidParameter"
client_name type_mismatch = codes "TypeMismatch"
client_name null_conversion = codes "NullConversion"
client_name invalid_cast = codes "InvalidCast"
client_name out_of_range = codes "OutOfRange"
client_name configuration_error = codes "ConfigurationError"
client_name connection_string_error = codes "ConnectionStringError"
client_name authentication_error = codes "AuthenticationError"
client_name invalid_option = codes "InvalidOption"
client_name missing_parameter = codes "MissingParameter"
client_name invalid_state = codes "InvalidState"
client_name not_connected = codes "NotConnected"
client_name already_connected = codes "AlreadyConnected"
client_name transaction_active = codes "TransactionActive"
client_name no_active_transaction = codes "NoActiveTransaction"
client_name pool_exhausted = codes "PoolExhausted"
client_name pool_shutdown = codes "PoolShutdown"
client_name wait_timeout = codes "WaitTimeout"

unfoldable pub server_name : ServerErrorCode → Text
unfolding codes
server_name ServerErrorCode.success = codes "Success"
server_name runtime_error = codes "RuntimeError"
server_name connection_error = codes "ConnectionError"
server_name connection_lost = codes "ConnectionLost"
server_name connection_timeout = codes "ConnectionTimeout"
server_name connection_refused = codes "ConnectionRefused"
server_name deadlock_detected = codes "DeadlockDetected"
server_name lock_timeout = codes "LockTimeout"
server_name statement_timeout = codes "StatementTimeout"
server_name serialization_failure = codes "SerializationFailure"
server_name constraint_violation = codes "ConstraintViolation"
server_name unique_violation = codes "UniqueViolation"
server_name foreign_key_violation = codes "ForeignKeyViolation"
server_name check_violation = codes "CheckViolation"
server_name not_null_violation = codes "NotNullViolation"
server_name exclusion_violation = codes "ExclusionViolation"
server_name data_error = codes "DataError"
server_name data_too_long = codes "DataTooLong"
server_name numeric_overflow = codes "NumericOverflow"
server_name division_by_zero = codes "DivisionByZero"
server_name invalid_datetime = codes "InvalidDatetime"
server_name invalid_encoding = codes "InvalidEncoding"
server_name invalid_text_format = codes "InvalidTextFormat"
server_name access_error = codes "AccessError"
server_name permission_denied = codes "PermissionDenied"
server_name object_not_found = codes "ObjectNotFound"
server_name database_not_found = codes "DatabaseNotFound"
server_name table_not_found = codes "TableNotFound"
server_name column_not_found = codes "ColumnNotFound"
server_name schema_not_found = codes "SchemaNotFound"
server_name function_not_found = codes "FunctionNotFound"
server_name resource_error = codes "ResourceError"
server_name out_of_memory = codes "OutOfMemory"
server_name disk_full = codes "DiskFull"
server_name too_many_connections = codes "TooManyConnections"
server_name configuration_limit = codes "ConfigurationLimit"
server_name query_too_complex = codes "QueryTooComplex"
server_name transaction_error = codes "TransactionError"
server_name transaction_rollback = codes "TransactionRollback"
server_name transaction_aborted = codes "TransactionAborted"
server_name invalid_isolation_level = codes "InvalidIsolationLevel"

unfoldable pub fatal_name : FatalErrorCode → Text
unfolding codes
fatal_name internal_error = codes "InternalError"
fatal_name corruption_detected = codes "CorruptionDetected"
fatal_name protocol_violation = codes "ProtocolViolation"
fatal_name assertion_failure = codes "AssertionFailure"
fatal_name unexpected_state = codes "UnexpectedState"

unfoldable pub client_description : ClientErrorCode → Text
unfolding codes
client_description ClientErrorCode.success = codes "Operation completed successfully"
client_description invalid_argument = codes "Invalid argument provided to function"
client_description syntax_error = codes "SQL syntax error in query"
client_description invalid_parameter = codes "Invalid parameter value"
client_description type_mismatch = codes "Type mismatch between expected and actual value"
client_description null_conversion = codes "Attempted to convert NULL to non-nullable type"
client_description invalid_cast = codes "Invalid type cast operation"
client_description out_of_range = codes "Value out of valid range"
client_description configuration_error = codes "Database configuration error"
client_description connection_string_error = codes "Invalid or malformed connection string"
client_description authentication_error = codes "Authentication credentials invalid or missing"
client_description invalid_option = codes "Invalid configuration option"
client_description missing_parameter = codes "Required parameter is missing"
client_description invalid_state = codes "Operation invalid in current state"
client_description not_connected = codes "Not connected to database"
client_description already_connected = codes "Already connected to database"
client_description transaction_active = codes "Transaction already active"
client_description no_active_transaction = codes "No active transaction"
client_description pool_exhausted = codes "Connection pool exhausted, no available connections"
client_description pool_shutdown = codes "Connection pool has been shut down"
client_description wait_timeout =
    codes "Timed wait on a blocking pool expired before a connection became available"

unfoldable pub server_description : ServerErrorCode → Text
unfolding codes
server_description ServerErrorCode.success = codes "Operation completed successfully"
server_description runtime_error = codes "Runtime error on database server"
server_description connection_error = codes "Error establishing connection to database"
server_description connection_lost = codes "Connection to database was lost"
server_description connection_timeout = codes "Connection attempt timed out"
server_description connection_refused = codes "Connection refused by database server"
server_description deadlock_detected = codes "Deadlock detected, transaction aborted"
server_description lock_timeout = codes "Timeout waiting for lock"
server_description statement_timeout = codes "Statement execution timeout"
server_description serialization_failure = codes "Transaction serialization failure"
server_description constraint_violation = codes "Database constraint violation"
server_description unique_violation = codes "Unique constraint violation"
server_description foreign_key_violation = codes "Foreign key constraint violation"
server_description check_violation = codes "Check constraint violation"
server_description not_null_violation = codes "NOT NULL constraint violation"
server_description exclusion_violation = codes "Exclusion constraint violation"
server_description data_error = codes "Data error in query or result"
server_description data_too_long = codes "Data too long for column"
server_description numeric_overflow = codes "Numeric value overflow"
server_description division_by_zero = codes "Division by zero"
server_description invalid_datetime = codes "Invalid datetime value"
server_description invalid_encoding = codes "Invalid character encoding"
server_description invalid_text_format = codes "Invalid text representation"
server_description access_error = codes "Database access error"
server_description permission_denied = codes "Permission denied for operation"
server_description object_not_found = codes "Database object not found"
server_description database_not_found = codes "Database does not exist"
server_description table_not_found = codes "Table does not exist"
server_description column_not_found = codes "Column does not exist"
server_description schema_not_found = codes "Schema does not exist"
server_description function_not_found = codes "Function does not exist"
server_description resource_error = codes "Database resource error"
server_description out_of_memory = codes "Database server out of memory"
server_description disk_full = codes "Database disk full"
server_description too_many_connections = codes "Too many database connections"
server_description configuration_limit = codes "Database configuration limit exceeded"
server_description query_too_complex = codes "Query too complex to execute"
server_description transaction_error = codes "Transaction error"
server_description transaction_rollback = codes "Transaction rolled back"
server_description transaction_aborted = codes "Transaction aborted"
server_description invalid_isolation_level = codes "Invalid transaction isolation level"

unfoldable pub fatal_description : FatalErrorCode → Text
unfolding codes
fatal_description internal_error = codes "Internal database driver error"
fatal_description corruption_detected = codes "Data corruption detected"
fatal_description protocol_violation = codes "Database protocol violation"
fatal_description assertion_failure = codes "Internal assertion failed"
fatal_description unexpected_state = codes "Unexpected internal state"

-- `name()` and `description()`; `none` is `std::unreachable()`.
module _ (nothing : Text) where
  abbrev by_category :
      (ClientErrorCode → Text)
      → (ServerErrorCode → Text)
      → (FatalErrorCode → Text)
      → Category
      → ErrorCode
      → Option Text
  by_category c s f Category.success e = some nothing
  by_category c s f client e = Option.map c (as_client_error e)
  by_category c s f server e = Option.map s (as_server_error e)
  by_category c s f fatal e = Option.map f (as_fatal_error e)

unfoldable pub name : ErrorCode → Option Text
unfolding client_name server_name fatal_name codes
name e = by_category (codes "Success") client_name server_name fatal_name e.category e

unfoldable pub description : ErrorCode → Option Text
unfolding client_description server_description fatal_description codes
description e =
    by_category (codes "Operation completed successfully") client_description server_description
      fatal_description e.category e

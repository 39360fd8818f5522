-- ===== src/Errors/Classes.antt =====
-- The classes of map_sqlstate that look at the whole code (components/database/providers/postgresql/
-- errors/detail/sqlstate_mapping.inl).
use demiplane.Prelude.{◌||◌, Option, some, Text, codes, if◌then◌else◌}
use demiplane.Prelude.Texts.{same_text, starts_with}
use demiplane.Errors.{
  ErrorCode, from_client, from_server, from_fatal, check_violation, column_not_found,
  configuration_limit, connection_error, connection_lost, constraint_violation, corruption_detected,
  data_error, data_too_long, database_not_found, deadlock_detected, disk_full, division_by_zero,
  exclusion_violation, foreign_key_violation, function_not_found, internal_error, invalid_datetime,
  invalid_encoding, invalid_parameter, invalid_state, invalid_text_format, lock_timeout,
  no_active_transaction, not_connected, not_null_violation, numeric_overflow, object_not_found,
  out_of_memory, permission_denied, protocol_violation, query_too_complex, resource_error,
  runtime_error, schema_not_found, serialization_failure, statement_timeout, syntax_error,
  table_not_found, too_many_connections, transaction_aborted, transaction_active,
  transaction_rollback, type_mismatch, unique_violation,
}

unfoldable pub class_08 : Text → Option ErrorCode
unfolding same_text starts_with codes
class_08 sqlstate =
    if same_text sqlstate (codes "08000")
    then some (from_server connection_error)
    else if same_text sqlstate (codes "08003")
    then some (from_client not_connected)
    else if same_text sqlstate (codes "08006")
    then some (from_server connection_lost)
    else if same_text sqlstate (codes "08P01")
    then some (from_fatal protocol_violation)
    else some (from_server connection_error)

unfoldable pub class_22 : Text → Option ErrorCode
unfolding same_text starts_with codes
class_22 sqlstate =
    if same_text sqlstate (codes "22000")
    then some (from_server data_error)
    else if same_text sqlstate (codes "22001")
    then some (from_server data_too_long)
    else if same_text sqlstate (codes "22003")
    then some (from_server numeric_overflow)
    else if same_text sqlstate (codes "22007")
    then some (from_server invalid_datetime)
    else if same_text sqlstate (codes "22008")
    then some (from_server invalid_datetime)
    else if same_text sqlstate (codes "22012")
    then some (from_server division_by_zero)
    else if same_text sqlstate (codes "22P02")
    then some (from_server invalid_text_format)
    else if same_text sqlstate (codes "22P03")
    then some (from_server invalid_encoding)
    else if same_text sqlstate (codes "22P04")
    then some (from_server invalid_text_format)
    else some (from_server data_error)

unfoldable pub class_23 : Text → Option ErrorCode
unfolding same_text starts_with codes
class_23 sqlstate =
    if same_text sqlstate (codes "23000")
    then some (from_server constraint_violation)
    else if same_text sqlstate (codes "23001")
    then some (from_server constraint_violation)
    else if same_text sqlstate (codes "23502")
    then some (from_server not_null_violation)
    else if same_text sqlstate (codes "23503")
    then some (from_server foreign_key_violation)
    else if same_text sqlstate (codes "23505")
    then some (from_server unique_violation)
    else if same_text sqlstate (codes "23514")
    then some (from_server check_violation)
    else if same_text sqlstate (codes "23P01")
    then some (from_server exclusion_violation)
    else some (from_server constraint_violation)

unfoldable pub class_25 : Text → Option ErrorCode
unfolding same_text starts_with codes
class_25 sqlstate =
    if same_text sqlstate (codes "25001")
    then some (from_client transaction_active)
    else if same_text sqlstate (codes "25P01")
    then some (from_client no_active_transaction)
    else if same_text sqlstate (codes "25P02")
    then some (from_client transaction_active)
    else if same_text sqlstate (codes "25P03")
    then some (from_client no_active_transaction)
    else some (from_client invalid_state)

unfoldable pub class_40 : Text → Option ErrorCode
unfolding same_text starts_with codes
class_40 sqlstate =
    if same_text sqlstate (codes "40001")
    then some (from_server serialization_failure)
    else if same_text sqlstate (codes "40002")
    then some (from_server transaction_aborted)
    else if same_text sqlstate (codes "40003")
    then some (from_server transaction_aborted)
    else if same_text sqlstate (codes "40P01")
    then some (from_server deadlock_detected)
    else some (from_server transaction_rollback)

unfoldable pub class_42 : Text → Option ErrorCode
unfolding same_text starts_with codes
class_42 sqlstate =
    if same_text sqlstate (codes "42501")
    then some (from_server permission_denied)
    else if same_text sqlstate (codes "42601")
    then some (from_client syntax_error)
    else if same_text sqlstate (codes "42703")
    then some (from_server column_not_found)
    else if same_text sqlstate (codes "42704")
    then some (from_server object_not_found)
    else if same_text sqlstate (codes "42804")
        || same_text sqlstate (codes "42846")
        || same_text sqlstate (codes "42P18")
    then some (from_client type_mismatch)
    else if same_text sqlstate (codes "42830")
    then some (from_server permission_denied)
    else if same_text sqlstate (codes "42883")
    then some (from_server function_not_found)
    else if same_text sqlstate (codes "42P01")
    then some (from_server table_not_found)
    else if same_text sqlstate (codes "42P02")
    then some (from_client invalid_parameter)
    else if same_text sqlstate (codes "42P04")
    then some (from_server database_not_found)
    else if same_text sqlstate (codes "42P06") || same_text sqlstate (codes "42P15")
    then some (from_server schema_not_found)
    else some (from_client syntax_error)

unfoldable pub class_53 : Text → Option ErrorCode
unfolding same_text starts_with codes
class_53 sqlstate =
    if same_text sqlstate (codes "53100")
    then some (from_server disk_full)
    else if same_text sqlstate (codes "53200")
    then some (from_server out_of_memory)
    else if same_text sqlstate (codes "53300")
    then some (from_server too_many_connections)
    else if same_text sqlstate (codes "53400")
    then some (from_server configuration_limit)
    else some (from_server resource_error)

unfoldable pub class_54 : Text → Option ErrorCode
unfolding same_text starts_with codes
class_54 sqlstate =
    if same_text sqlstate (codes "54001")
    then some (from_server query_too_complex)
    else if same_text sqlstate (codes "54011") || same_text sqlstate (codes "54023")
    then some (from_server too_many_connections)
    else some (from_server configuration_limit)

unfoldable pub class_55 : Text → Option ErrorCode
unfolding same_text starts_with codes
class_55 sqlstate =
    if same_text sqlstate (codes "55P02") || same_text sqlstate (codes "55P03")
    then some (from_server lock_timeout)
    else some (from_client invalid_state)

unfoldable pub class_57 : Text → Option ErrorCode
unfolding same_text starts_with codes
class_57 sqlstate =
    if same_text sqlstate (codes "57014")
    then some (from_server statement_timeout)
    else if starts_with (codes "57P") sqlstate
    then some (from_server connection_error)
    else some (from_server runtime_error)

unfoldable pub class_58 : Text → Option ErrorCode
unfolding same_text starts_with codes
class_58 sqlstate =
    if same_text sqlstate (codes "58030")
    then some (from_fatal corruption_detected)
    else some (from_fatal internal_error)

unfoldable pub class_p0 : Text → Option ErrorCode
unfolding same_text starts_with codes
class_p0 sqlstate =
    if same_text sqlstate (codes "P0002")
    then some (from_server object_not_found)
    else if same_text sqlstate (codes "P0003")
    then some (from_server data_error)
    else if same_text sqlstate (codes "P0004")
    then some (from_client invalid_parameter)
    else some (from_server runtime_error)

unfoldable pub class_xx : Text → Option ErrorCode
unfolding same_text starts_with codes
class_xx sqlstate =
    if same_text sqlstate (codes "XX001") || same_text sqlstate (codes "XX002")
    then some (from_fatal corruption_detected)
    else some (from_fatal internal_error)

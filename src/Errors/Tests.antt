-- ===== src/Errors/Tests.antt =====
-- Concrete SQLSTATE codes and results (components/database/providers/postgresql/errors).
use mathlib.Core.Option
use demiplane.Prelude.{true, ◌≡◌, refl, none, some, codes}
use demiplane.Errors.{
  ErrorCode, from_server, from_client, is_retryable, database_not_found, too_many_connections,
  lock_timeout, unique_violation, transaction_active,
}
use demiplane.Errors.Sqlstate.{error_class, map_sqlstate}
use demiplane.Errors.Retry.{Promised, map_sqlstate-Promised}
use demiplane.Errors.Extract.{PgResult, fatal_error, extract_error, extract_error_code}
use demiplane.Errors.Agree.{code_with_sqlstate, given_sqlstate, extract_error-extract_error_code}

abbrev duplicate_key : PgResult
duplicate_key = record {
  status = fatal_error;
  sqlstate = some (codes "23505");
  message = some (codes "duplicate key value");
  detail = none;
  hint = none;
  context = none;
  position = some (codes "17");
}

unique : extract_error_code (some duplicate_key) ≡ some (from_server unique_violation)
unfolding extract_error_code map_sqlstate codes
unique = refl

-- 42P04 is duplicate_database, 54011 too_many_columns, 55P02 cant_change_runtime_param.
duplicate_database : map_sqlstate (codes "42P04") ≡ some (from_server database_not_found)
unfolding map_sqlstate codes
duplicate_database = refl

too_many_columns : map_sqlstate (codes "54011") ≡ some (from_server too_many_connections)
unfolding map_sqlstate codes
too_many_columns = refl

too_many_columns_retried : is_retryable (from_server too_many_connections) ≡ true
unfolding is_retryable from_server
too_many_columns_retried = refl

runtime_param : map_sqlstate (codes "55P02") ≡ some (from_server lock_timeout)
unfolding map_sqlstate codes
runtime_param = refl

failed_transaction : map_sqlstate (codes "25P02") ≡ some (from_client transaction_active)
unfolding map_sqlstate codes
failed_transaction = refl

map_sqlstate-Promised_example :
    Promised (error_class (codes "40001")) (map_sqlstate (codes "40001"))
map_sqlstate-Promised_example = map_sqlstate-Promised (codes "40001")

extract_error-extract_error_code_example :
    Option.map code_with_sqlstate (extract_error (some duplicate_key))
    ≡ Option.map
        (λ (e : ErrorCode). (e, given_sqlstate (some duplicate_key)))
        (extract_error_code (some duplicate_key))
extract_error-extract_error_code_example = extract_error-extract_error_code (some duplicate_key)

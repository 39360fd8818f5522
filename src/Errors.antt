-- ===== src/Errors.antt =====
-- The error codes of the database component (components/database/base/errors/db_error_codes.hpp).
-- An enumerator of an enumeration is a constructor; a cast of a number to an enumeration is the
-- enumerator with that value, if there is one.
pub mod Names
pub mod Typed
pub mod Classes
pub mod Sqlstate
pub mod Retry
pub mod Extract
pub mod Agree
mod Tests
use demiplane.Prelude.{
  ℕ, Bool, true, false, not, ◌||◌, ◌&&◌, Option, none, some, List, [], ◌∷◌, ltb, leb, ◌==◌,
  if◌then◌else◌,
}

pub data ClientErrorCode : Type 0 where
  success invalid_argument syntax_error invalid_parameter type_mismatch null_conversion invalid_cast
        out_of_range configuration_error connection_string_error authentication_error invalid_option
        missing_parameter invalid_state not_connected already_connected transaction_active
        no_active_transaction pool_exhausted pool_shutdown wait_timeout :
      ClientErrorCode

pub data ServerErrorCode : Type 0 where
  success runtime_error connection_error connection_lost connection_timeout connection_refused
        deadlock_detected lock_timeout statement_timeout serialization_failure constraint_violation
        unique_violation foreign_key_violation check_violation not_null_violation
        exclusion_violation data_error data_too_long numeric_overflow division_by_zero
        invalid_datetime invalid_encoding invalid_text_format access_error permission_denied
        object_not_found database_not_found table_not_found column_not_found schema_not_found
        function_not_found resource_error out_of_memory disk_full too_many_connections
        configuration_limit query_too_complex transaction_error transaction_rollback
        transaction_aborted invalid_isolation_level :
      ServerErrorCode

pub data FatalErrorCode : Type 0 where
  internal_error corruption_detected protocol_violation assertion_failure unexpected_state :
      FatalErrorCode

-- The value of an enumerator.
unfoldable pub client_value : ClientErrorCode → ℕ
client_value ClientErrorCode.success = 0
client_value invalid_argument = 100
client_value syntax_error = 101
client_value invalid_parameter = 102
client_value type_mismatch = 103
client_value null_conversion = 104
client_value invalid_cast = 105
client_value out_of_range = 106
client_value configuration_error = 200
client_value connection_string_error = 201
client_value authentication_error = 202
client_value invalid_option = 203
client_value missing_parameter = 204
client_value invalid_state = 300
client_value not_connected = 301
client_value already_connected = 302
client_value transaction_active = 303
client_value no_active_transaction = 304
client_value pool_exhausted = 310
client_value pool_shutdown = 311
client_value wait_timeout = 312

abbrev pub client_codes : List ClientErrorCode
client_codes =
    ClientErrorCode.success ∷ invalid_argument ∷ syntax_error ∷ invalid_parameter ∷ type_mismatch
    ∷ null_conversion ∷ invalid_cast ∷ out_of_range ∷ configuration_error ∷ connection_string_error
    ∷ authentication_error ∷ invalid_option ∷ missing_parameter ∷ invalid_state ∷ not_connected
    ∷ already_connected ∷ transaction_active ∷ no_active_transaction ∷ pool_exhausted
    ∷ pool_shutdown ∷ wait_timeout ∷ []

-- The value of an enumerator.
unfoldable pub server_value : ServerErrorCode → ℕ
server_value ServerErrorCode.success = 0
server_value runtime_error = 100
server_value connection_error = 110
server_value connection_lost = 111
server_value connection_timeout = 112
server_value connection_refused = 113
server_value deadlock_detected = 120
server_value lock_timeout = 121
server_value statement_timeout = 122
server_value serialization_failure = 123
server_value constraint_violation = 200
server_value unique_violation = 201
server_value foreign_key_violation = 202
server_value check_violation = 203
server_value not_null_violation = 204
server_value exclusion_violation = 205
server_value data_error = 300
server_value data_too_long = 301
server_value numeric_overflow = 302
server_value division_by_zero = 303
server_value invalid_datetime = 304
server_value invalid_encoding = 305
server_value invalid_text_format = 306
server_value access_error = 400
server_value permission_denied = 401
server_value object_not_found = 402
server_value database_not_found = 403
server_value table_not_found = 404
server_value column_not_found = 405
server_value schema_not_found = 406
server_value function_not_found = 407
server_value resource_error = 500
server_value out_of_memory = 501
server_value disk_full = 502
server_value too_many_connections = 503
server_value configuration_limit = 504
server_value query_too_complex = 505
server_value transaction_error = 600
server_value transaction_rollback = 601
server_value transaction_aborted = 602
server_value invalid_isolation_level = 603

abbrev pub server_codes : List ServerErrorCode
server_codes =
    ServerErrorCode.success ∷ runtime_error ∷ connection_error ∷ connection_lost
    ∷ connection_timeout ∷ connection_refused ∷ deadlock_detected ∷ lock_timeout ∷ statement_timeout
    ∷ serialization_failure ∷ constraint_violation ∷ unique_violation ∷ foreign_key_violation
    ∷ check_violation ∷ not_null_violation ∷ exclusion_violation ∷ data_error ∷ data_too_long
    ∷ numeric_overflow ∷ division_by_zero ∷ invalid_datetime ∷ invalid_encoding
    ∷ invalid_text_format ∷ access_error ∷ permission_denied ∷ object_not_found ∷ database_not_found
    ∷ table_not_found ∷ column_not_found ∷ schema_not_found ∷ function_not_found ∷ resource_error
    ∷ out_of_memory ∷ disk_full ∷ too_many_connections ∷ configuration_limit ∷ query_too_complex
    ∷ transaction_error ∷ transaction_rollback ∷ transaction_aborted ∷ invalid_isolation_level ∷ []

-- The value of an enumerator.
unfoldable pub fatal_value : FatalErrorCode → ℕ
fatal_value internal_error = 1
fatal_value corruption_detected = 2
fatal_value protocol_violation = 3
fatal_value assertion_failure = 4
fatal_value unexpected_state = 5

abbrev pub fatal_codes : List FatalErrorCode
fatal_codes =
    internal_error ∷ corruption_detected ∷ protocol_violation ∷ assertion_failure ∷ unexpected_state
    ∷ []

module _ {A : Type 0} (value_of : A → ℕ) where
  unfoldable pub enumerator : List A → ℕ → Option A
  enumerator [] n = none
  enumerator (a ∷ rest) n =
      let later = enumerator rest n in if value_of a == n then some a else later

pub data Category : Type 0 where
  success client server fatal : Category

abbrev pub same_category : Category → Category → Bool
same_category success success = true
same_category client client = true
same_category server server = true
same_category fatal fatal = true
same_category _ _ = false

-- An error code as it is kept: `category_` and `code_`.
pub record ErrorCode : Type 0 where
  pub category : Category
  pub code : ℕ

-- ErrorCode{} and the three constructors from an enumeration.
abbrev pub no_error : ErrorCode
no_error = record { category = Category.success; code = 0 }

unfoldable pub from_client : ClientErrorCode → ErrorCode
unfolding client_value
from_client c = record { category = client; code = client_value c }

unfoldable pub from_server : ServerErrorCode → ErrorCode
unfolding server_value
from_server c = record { category = server; code = server_value c }

unfoldable pub from_fatal : FatalErrorCode → ErrorCode
unfolding fatal_value
from_fatal c = record { category = fatal; code = fatal_value c }

unfoldable pub is_success : ErrorCode → Bool
is_success e = same_category e.category Category.success

unfoldable pub is_retryable : ErrorCode → Bool
is_retryable e =
    if same_category e.category server
    then if leb 100 e.code && ltb e.code 200
      then true
      else if leb 500 e.code && ltb e.code 600
      then true
      else if leb 600 e.code && ltb e.code 700
      then e.code == 601 || e.code == 602
      else false
    else false

unfoldable pub as_client_error : ErrorCode → Option ClientErrorCode
unfolding enumerator
as_client_error e =
    if same_category e.category client then enumerator client_value client_codes e.code else none

unfoldable pub as_server_error : ErrorCode → Option ServerErrorCode
unfolding enumerator
as_server_error e =
    if same_category e.category server then enumerator server_value server_codes e.code else none

unfoldable pub as_fatal_error : ErrorCode → Option FatalErrorCode
unfolding enumerator
as_fatal_error e =
    if same_category e.category fatal then enumerator fatal_value fatal_codes e.code else none

-- `operator==` of two error codes.
unfoldable pub equal : ErrorCode → ErrorCode → Bool
equal e f = same_category e.category f.category && e.code == f.code

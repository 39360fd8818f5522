-- ===== src/Errors/Extract.antt =====
-- What is made of a libpq result and of a connection: map_exec_status (components/database/providers/
-- postgresql/errors/detail/exec_status_mapping.inl), extract_error and extract_error_code
-- (.../errors/postgres_errors.cpp), ErrorContext and the helpers for connections
-- (.../errors/postgres_errors.hpp). A result is what the accessors of libpq give for it.
use mathlib.Core.Option
use demiplane.Prelude.{
  zero, suc, ◌+◌, Bool, true, false, not, Option, none, some, [], ◌∷◌, ◌++◌, Text, codes,
  if◌then◌else◌,
}
use demiplane.Prelude.Numerals.{
  Stoi, positive, negative, no_conversion, out_of_range, from_chars, to_string,
}
use demiplane.Query.Ast.{Signed, plus, minus}
use demiplane.Errors.{
  ErrorCode, no_error, from_client, from_server, from_fatal, is_success, invalid_argument,
  not_connected, invalid_state, runtime_error, connection_lost, transaction_aborted,
  protocol_violation, unexpected_state,
}
use demiplane.Errors.Names.{name}
use demiplane.Errors.Sqlstate.{map_sqlstate}

-- ExecStatusType of libpq; `other_status` is a value that the switch does not name.
pub data ExecStatus : Type 0 where
  empty_query command_ok tuples_ok copy_out copy_in bad_response nonfatal_error fatal_error :
      ExecStatus
  copy_both single_tuple pipeline_sync pipeline_aborted tuples_chunk other_status : ExecStatus

-- `none` is success.
unfoldable pub map_exec_status : ExecStatus → Option ErrorCode
map_exec_status empty_query = some (from_client invalid_argument)
map_exec_status command_ok = none
map_exec_status tuples_ok = none
map_exec_status copy_out = none
map_exec_status copy_in = none
map_exec_status copy_both = none
map_exec_status single_tuple = none
map_exec_status pipeline_sync = none
map_exec_status tuples_chunk = none
map_exec_status pipeline_aborted = some (from_server transaction_aborted)
map_exec_status bad_response = some (from_fatal protocol_violation)
map_exec_status nonfatal_error = some (from_server runtime_error)
map_exec_status fatal_error = some (from_server runtime_error)
map_exec_status other_status = some (from_fatal unexpected_state)

unfoldable pub is_success_status : ExecStatus → Bool
is_success_status command_ok = true
is_success_status tuples_ok = true
is_success_status copy_out = true
is_success_status copy_in = true
is_success_status copy_both = true
is_success_status single_tuple = true
is_success_status pipeline_sync = true
is_success_status empty_query = false
is_success_status bad_response = false
is_success_status nonfatal_error = false
is_success_status fatal_error = false
is_success_status pipeline_aborted = false
is_success_status tuples_chunk = false
is_success_status other_status = false

-- PQresultStatus, PQresultErrorMessage, and PQresultErrorField of the fields that are asked for.
pub record PgResult : Type 0 where
  pub status : ExecStatus
  pub sqlstate : Option Text
  pub message : Option Text
  pub detail : Option Text
  pub hint : Option Text
  pub context : Option Text
  pub position : Option Text

pub record ErrorContext : Type 0 where
  pub code : ErrorCode
  pub sqlstate : Text
  pub message : Text
  pub detail : Text
  pub hint : Text
  pub context : Text
  pub position : Option Signed

abbrev pub context_of : ErrorCode → ErrorContext
context_of ec = record {
  code = ec;
  sqlstate = [];
  message = [];
  detail = [];
  hint = [];
  context = [];
  position = none;
}

-- The number that from_chars stored, if it had no error.
abbrev parsed : Stoi → Option Signed
parsed (positive n) = some (plus n)
parsed (negative zero) = some (plus 0)
parsed (negative (suc n)) = some (minus n)
parsed no_conversion = none
parsed out_of_range = none

abbrev or_empty : Option Text → Text
or_empty none = []
or_empty (some t) = t

-- The diagnostic fields, added to a context that has its code and SQLSTATE.
unfoldable pub add_diagnostics : PgResult → ErrorContext → ErrorContext
unfolding from_chars
add_diagnostics r ctx = record ctx {
  message = or_empty r.message;
  detail = or_empty r.detail;
  hint = or_empty r.hint;
  context = or_empty r.context;
  position = elim r.position [ none ↦ none | some pos ↦ parsed (from_chars pos) ];
}

-- The code with its SQLSTATE: of the SQLSTATE if there is one, else of the status.
unfoldable pub classify : Option Text → ExecStatus → Option ErrorContext
unfolding map_exec_status
classify (some s) status =
    Option.map (λ (code : ErrorCode). record (context_of code) { sqlstate = s }) (map_sqlstate s)
classify none status = Option.map context_of (map_exec_status status)

-- `none` for the argument is a null pointer.
unfoldable pub extract_error : Option PgResult → Option ErrorContext
unfolding is_success_status classify add_diagnostics
extract_error none = some (context_of (from_fatal unexpected_state))
extract_error (some r) =
    if is_success_status r.status
    then none
    else Option.map (add_diagnostics r) (classify r.sqlstate r.status)

unfoldable pub classify_code : Option Text → ExecStatus → Option ErrorCode
unfolding map_exec_status
classify_code (some s) status = map_sqlstate s
classify_code none status = map_exec_status status

unfoldable pub extract_error_code : Option PgResult → Option ErrorCode
unfolding is_success_status classify_code
extract_error_code none = some (from_fatal unexpected_state)
extract_error_code (some r) =
    if is_success_status r.status then none else classify_code r.sqlstate r.status

-- ConnStatusType of libpq; `other_connection` is a value that the switch does not name.
pub data ConnStatus : Type 0 where
  connection_ok connection_bad connection_started connection_made : ConnStatus
  connection_awaiting_response connection_auth_ok connection_setenv : ConnStatus
  connection_ssl_startup connection_needed connection_check_writable : ConnStatus
  connection_consume connection_gss_startup connection_check_target : ConnStatus
  connection_check_standby connection_allocated connection_authenticating : ConnStatus
  other_connection : ConnStatus

unfoldable pub check_status : ConnStatus → ErrorCode
check_status connection_ok = no_error
check_status connection_bad = from_server connection_lost
check_status other_connection = from_fatal unexpected_state
check_status _ = from_client invalid_state

-- `none` is a null pointer.
unfoldable pub check_connection : Option ConnStatus → ErrorCode
unfolding check_status
check_connection none = from_client not_connected
check_connection (some status) = check_status status

abbrev is_bad : ConnStatus → Bool
is_bad connection_bad = true
is_bad _ = false

abbrev message_of : Option Text → Text
message_of none = codes "Unknown connection error"
message_of (some []) = codes "Unknown connection error"
message_of (some (c ∷ cs)) = c ∷ cs

-- The status of the connection and its PQerrorMessage, or a null pointer.
unfoldable pub extract_connection_error : Option (ConnStatus × Option Text) → ErrorContext
unfolding codes
extract_connection_error none = context_of (from_client not_connected)
extract_connection_error (some (status, msg)) =
    record (context_of (from_server (if is_bad status then connection_lost else runtime_error))) {
      message = message_of msg;
    }

unfoldable pub has_error : ErrorContext → Bool
unfolding is_success
has_error ctx = not (is_success ctx.code)

abbrev labelled : Text → Text → Text
labelled label [] = []
labelled label (c ∷ cs) = label ++ (c ∷ cs)

abbrev position_text : Option Signed → Text
position_text none = []
position_text (some (plus n)) = codes "\nPosition: " ++ to_string n
position_text (some (minus n)) = codes "\nPosition: " ++ b'-' ∷ to_string (n + 1)

abbrev sqlstate_text : Text → Text
sqlstate_text [] = []
sqlstate_text (c ∷ cs) = codes "SQLSTATE " ++ ((c ∷ cs) ++ codes ": ")

-- `none` where the name of the code is not defined.
unfoldable pub format : ErrorContext → Option Text
unfolding has_error name to_string codes
format ctx =
    let text =
      Option.map
        (λ (n : Text).
          b'['
          ∷ (n
              ++ (codes "] "
                  ++ (sqlstate_text ctx.sqlstate
                      ++ (ctx.message
                          ++ (labelled (codes "\nDetail: ") ctx.detail
                              ++ (labelled (codes "\nHint: ") ctx.hint
                                  ++ (labelled (codes "\nContext: ") ctx.context
                                      ++ position_text ctx.position))))))))
        (name ctx.code) in
    if not (has_error ctx) then some (codes "Success") else text

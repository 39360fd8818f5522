-- ===== src/Connection/Credentials.antt =====
-- ConnectionCredentials (components/database/providers/postgresql/config/credentials/
-- postgres_connection_credentials.hpp) and escape_connection_value (config/tools/
-- postgres_connection_tools.hpp). `std::stoi` is written out as the C++ standard has it.
use demiplane.Prelude.Numerals.{Stoi, positive, negative, no_conversion, out_of_range, stoi}
use demiplane.Prelude.{
  Bool, true, false, ◌||◌, not, Option, none, some, [], ◌∷◌, ◌++◌, Text, codes, ltb, ◌==◌,
  if◌then◌else◌,
}

-- The exceptions of the two `validate`, by their messages. `stoi_failed` is the exception of
-- `std::stoi` for a text without a number, which is passed on.
pub data ConfigError : Type 0 where
  no_dbname no_user port_out_of_range invalid_port stoi_failed : ConfigError
  no_ssl_root_cert ssl_pair_incomplete negative_timeout negative_priority : ConfigError

-- What a method that may throw returns.
pub data Attempt (A : Type 0) : Type 0 where
  ok : A → Attempt A
  thrown : ConfigError → Attempt A

pub record ConnectionCredentials : Type 0 where
  pub host : Text
  pub port : Text
  pub dbname : Text
  pub user : Text
  pub password : Text

abbrev pub default_credentials : ConnectionCredentials
default_credentials = record {
  host = codes "localhost";
  port = codes "5432";
  dbname = [];
  user = [];
  password = [];
}

-- `p < 1 || p > 65535`, and the handlers around it.
unfoldable pub check_port : Stoi → Option ConfigError
check_port (positive p) = if ltb p 1 || ltb 65535 p then some port_out_of_range else none
check_port (negative p) = some port_out_of_range
check_port no_conversion = some stoi_failed
check_port out_of_range = some invalid_port

abbrev pub is_empty : Text → Bool
is_empty [] = true
is_empty (c ∷ cs) = false

-- `none` is a return, `some` the exception.
unfoldable pub validate_credentials : ConnectionCredentials → Option ConfigError
unfolding check_port stoi
validate_credentials c =
    if is_empty c.dbname
    then some no_dbname
    else if is_empty c.user
    then some no_user
    else if not (is_empty c.port)
    then check_port (stoi c.port)
    else none

-- The loop over the value, with `needs_quoting` and `escaped`.
unfoldable pub escape_loop : Text → Bool → Text → Bool × Text
escape_loop [] needs_quoting escaped = (needs_quoting, escaped)
escape_loop (c ∷ value) needs_quoting escaped =
    escape_loop value
      (if c == b'\\' || c == 39
        then true
        else if c == b' ' || c == b'='
        then true
        else needs_quoting)
      ((if c == b'\\' || c == 39 then escaped ++ b'\\' ∷ [] else escaped) ++ c ∷ [])

unfoldable pub escape_connection_value : Text → Text
unfolding escape_loop
escape_connection_value [] = 39 ∷ 39 ∷ []
escape_connection_value (c ∷ value) =
    let (needs_quoting, escaped) = escape_loop (c ∷ value) false [] in
    if needs_quoting then 39 ∷ (escaped ++ 39 ∷ []) else escaped

-- `if (!result.empty() && result.back() == ' ') result.pop_back()`.
unfoldable pub drop_trailing_space : Text → Text
drop_trailing_space [] = []
drop_trailing_space (c ∷ []) = if c == b' ' then [] else c ∷ []
drop_trailing_space (c ∷ d ∷ cs) = c ∷ drop_trailing_space (d ∷ cs)

-- `if (!value.empty()) result += name + escape_connection_value(value) + " "`.
unfoldable pub credential : Text → Text → Text
credential name value =
    if not (is_empty value) then name ++ (escape_connection_value value ++ b' ' ∷ []) else []

unfoldable pub credentials_string : ConnectionCredentials → Attempt Text
unfolding validate_credentials credential drop_trailing_space codes
credentials_string c = elim (validate_credentials c) [
  | some e ↦ thrown e
  | none ↦ ok (
      drop_trailing_space (
        credential (codes "host=") c.host
        ++ (credential (codes "port=") c.port
            ++ (credential (codes "dbname=") c.dbname
                ++ (credential (codes "user=") c.user
                    ++ credential (codes "password=") c.password)))))
]

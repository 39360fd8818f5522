-- ===== src/Connection/Config.antt =====
-- ConnectionConfig (components/database/providers/postgresql/config/postgres_connection_config.hpp):
-- its fields, validate and to_connection_string.
use demiplane.Prelude.Numerals.{to_string}
use demiplane.Prelude.{
  ℕ, zero, suc, Bool, true, false, ◌&&◌, not, Option, none, some, List, [], ◌∷◌, ◌++◌, Text, codes,
  if◌then◌else◌,
}
use demiplane.Query.Ast.{Signed, plus, minus}
use demiplane.Connection.Credentials.{
  ConnectionCredentials, ConfigError, no_ssl_root_cert, ssl_pair_incomplete, negative_timeout,
  negative_priority, Attempt, ok, thrown, validate_credentials, escape_connection_value,
  credentials_string, is_empty, default_credentials,
}

pub data SslMode : Type 0 where
  disable allow prefer require verify_ca verify_full : SslMode

unfoldable pub ssl_mode_to_string : SslMode → Text
unfolding codes
ssl_mode_to_string disable = codes "disable"
ssl_mode_to_string allow = codes "allow"
ssl_mode_to_string prefer = codes "prefer"
ssl_mode_to_string require = codes "require"
ssl_mode_to_string verify_ca = codes "verify-ca"
ssl_mode_to_string verify_full = codes "verify-full"

pub data NodeRole : Type 0 where
  primary standby_sync standby_async analytics archive : NodeRole

-- `extra_options` is the map in the order of its keys.
pub record ConnectionConfig : Type 0 where
  pub credentials : ConnectionCredentials
  pub role : NodeRole
  pub priority : Signed
  pub cluster_name : Text
  pub connect_timeout : Signed
  pub statement_timeout : Signed
  pub idle_in_transaction_timeout : Signed
  pub lock_timeout : Signed
  pub ssl_mode : SslMode
  pub ssl_cert : Option Text
  pub ssl_key : Option Text
  pub ssl_root_cert : Option Text
  pub binary_protocol : Bool
  pub auto_prepare : Bool
  pub pipeline_mode : Bool
  pub application_name : Text
  pub search_path : Text
  pub work_mem_mb : ℕ
  pub jit : Bool
  pub extra_options : List (Text × Text)

-- The default member initializers.
abbrev pub default_config : ConnectionConfig
default_config = record {
  credentials = default_credentials;
  role = primary;
  priority = plus 0;
  cluster_name = [];
  connect_timeout = plus 30;
  statement_timeout = plus 0;
  idle_in_transaction_timeout = plus 0;
  lock_timeout = plus 0;
  ssl_mode = prefer;
  ssl_cert = none;
  ssl_key = none;
  ssl_root_cert = none;
  binary_protocol = true;
  auto_prepare = false;
  pipeline_mode = true;
  application_name = [];
  search_path = codes "public";
  work_mem_mb = 4;
  jit = true;
  extra_options = [];
}

abbrev pub verifies : SslMode → Bool
verifies disable = false
verifies allow = false
verifies prefer = false
verifies require = false
verifies verify_ca = true
verifies verify_full = true

abbrev pub has_value : Option Text → Bool
has_value none = false
has_value (some v) = true

abbrev pub differ : Bool → Bool → Bool
differ true b = not b
differ false b = b

abbrev pub is_negative : Signed → Bool
is_negative (plus n) = false
is_negative (minus n) = true

-- The checks that follow those of the credentials.
unfoldable pub validate_options : ConnectionConfig → Option ConfigError
validate_options c =
    if verifies c.ssl_mode && not (has_value c.ssl_root_cert)
    then some no_ssl_root_cert
    else if differ (has_value c.ssl_cert) (has_value c.ssl_key)
    then some ssl_pair_incomplete
    else if is_negative c.connect_timeout
    then some negative_timeout
    else if is_negative c.priority
    then some negative_priority
    else none

-- `none` is a return, `some` the exception.
unfoldable pub validate_config : ConnectionConfig → Option ConfigError
unfolding validate_credentials validate_options
validate_config c = elim (validate_credentials c.credentials) [
  | some e ↦ some e
  | none ↦ validate_options c
]

-- `if (value) result += name + escape_connection_value(*value)`.
unfoldable pub optional : Text → Option Text → Text
optional name none = []
optional name (some value) = name ++ escape_connection_value value

unfoldable pub timeout_text : Signed → Text
unfolding to_string codes
timeout_text (plus zero) = []
timeout_text (plus (suc n)) = codes " connect_timeout=" ++ to_string (suc n)
timeout_text (minus n) = []

unfoldable pub application_text : Text → Text
unfolding codes
application_text name =
    if not (is_empty name) then codes " application_name=" ++ escape_connection_value name else []

unfoldable pub extra_text : List (Text × Text) → Text
extra_text [] = []
extra_text ((key, value) ∷ rest) =
    b' ' ∷ (key ++ b'=' ∷ (escape_connection_value value ++ extra_text rest))

-- What to_connection_string appends to the text of the credentials.
unfoldable pub options_string : ConnectionConfig → Text
unfolding ssl_mode_to_string optional timeout_text application_text extra_text codes
options_string c =
    (codes " sslmode=" ++ ssl_mode_to_string c.ssl_mode)
    ++ (optional (codes " sslcert=") c.ssl_cert
        ++ (optional (codes " sslkey=") c.ssl_key
            ++ (optional (codes " sslrootcert=") c.ssl_root_cert
                ++ (timeout_text c.connect_timeout
                    ++ (application_text c.application_name ++ extra_text c.extra_options)))))

abbrev append_options : ConnectionConfig → Attempt Text → Attempt Text
append_options c (ok s) = ok (s ++ options_string c)
append_options c (thrown e) = thrown e

unfoldable pub to_connection_string : ConnectionConfig → Attempt Text
unfolding validate_config credentials_string options_string
to_connection_string c = elim (validate_config c) [
  | some e ↦ thrown e
  | none ↦ append_options c (credentials_string c.credentials)
]

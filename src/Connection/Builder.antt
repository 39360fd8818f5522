-- ===== src/Connection/Builder.antt =====
-- ConnectionConfig::Builder and the three presets (components/database/providers/postgresql/config/
-- postgres_connection_config.hpp). A setter is given the configuration that the builder holds.
use demiplane.Prelude.Numerals.{to_string}
use demiplane.Prelude.{
  ℕ, ◌||◌, Bool, true, false, none, some, List, [], ◌∷◌, Text, codes, ltb, ◌==◌, if◌then◌else◌,
}
use demiplane.Query.Ast.{Signed, plus}
use demiplane.Connection.Credentials.{ConnectionCredentials, Attempt, ok, thrown}
use demiplane.Connection.Config.{
  ConnectionConfig, NodeRole, SslMode, disable, verify_full, default_config, validate_config,
}

abbrev pub Setter : Type 0 → Type 0
Setter A = A → ConnectionConfig → ConnectionConfig

unfoldable pub credentials : Setter ConnectionCredentials
credentials creds c = record c { credentials = creds }

-- The setters of the credentials make them anew from the parts that stay.
unfoldable pub host : Setter Text
host value c = record c {
  credentials = record {
    host = value;
    port = c.credentials.port;
    dbname = c.credentials.dbname;
    user = c.credentials.user;
    password = c.credentials.password;
  };
}

unfoldable pub port : Setter Text
port value c = record c {
  credentials = record {
    host = c.credentials.host;
    port = value;
    dbname = c.credentials.dbname;
    user = c.credentials.user;
    password = c.credentials.password;
  };
}

-- `port` of a `std::uint16_t`.
unfoldable pub port_number : Setter ℕ
unfolding port to_string
port_number value = port (to_string value)

unfoldable pub dbname : Setter Text
dbname value c = record c {
  credentials = record {
    host = c.credentials.host;
    port = c.credentials.port;
    dbname = value;
    user = c.credentials.user;
    password = c.credentials.password;
  };
}

unfoldable pub user : Setter Text
user value c = record c {
  credentials = record {
    host = c.credentials.host;
    port = c.credentials.port;
    dbname = c.credentials.dbname;
    user = value;
    password = c.credentials.password;
  };
}

unfoldable pub password : Setter Text
password value c = record c {
  credentials = record {
    host = c.credentials.host;
    port = c.credentials.port;
    dbname = c.credentials.dbname;
    user = c.credentials.user;
    password = value;
  };
}

unfoldable pub role : Setter NodeRole
role value c = record c { role = value }

unfoldable pub priority : Setter Signed
priority value c = record c { priority = value }

unfoldable pub cluster_name : Setter Text
cluster_name value c = record c { cluster_name = value }

unfoldable pub connect_timeout : Setter Signed
connect_timeout value c = record c { connect_timeout = value }

unfoldable pub statement_timeout : Setter Signed
statement_timeout value c = record c { statement_timeout = value }

unfoldable pub idle_in_transaction_timeout : Setter Signed
idle_in_transaction_timeout value c = record c { idle_in_transaction_timeout = value }

unfoldable pub lock_timeout : Setter Signed
lock_timeout value c = record c { lock_timeout = value }

unfoldable pub ssl_mode : Setter SslMode
ssl_mode value c = record c { ssl_mode = value }

unfoldable pub ssl_cert : Setter Text
ssl_cert value c = record c { ssl_cert = some value }

unfoldable pub ssl_key : Setter Text
ssl_key value c = record c { ssl_key = some value }

unfoldable pub ssl_root_cert : Setter Text
ssl_root_cert value c = record c { ssl_root_cert = some value }

unfoldable pub binary_protocol : Setter Bool
binary_protocol value c = record c { binary_protocol = value }

unfoldable pub auto_prepare : Setter Bool
auto_prepare value c = record c { auto_prepare = value }

unfoldable pub pipeline_mode : Setter Bool
pipeline_mode value c = record c { pipeline_mode = value }

unfoldable pub application_name : Setter Text
application_name value c = record c { application_name = value }

unfoldable pub search_path : Setter Text
search_path value c = record c { search_path = value }

unfoldable pub work_mem_mb : Setter ℕ
work_mem_mb value c = record c { work_mem_mb = value }

unfoldable pub jit : Setter Bool
jit value c = record c { jit = value }

-- The order of `std::string`, and equality of its values.
abbrev text_lt : Text → Text → Bool
text_lt xs [] = false
text_lt [] (y ∷ ys) = true
text_lt (x ∷ xs) (y ∷ ys) = let rest = text_lt xs ys in ltb x y || (if x == y then rest else false)

-- `options[key] = value` on a map in the order of its keys.
unfoldable pub assign : Text → Text → List (Text × Text) → List (Text × Text)
assign key value [] = (key, value) ∷ []
assign key value ((k, v) ∷ rest) =
    let later = assign key value rest in
    if text_lt key k
    then (key, value) ∷ (k, v) ∷ rest
    else if text_lt k key
    then (k, v) ∷ later
    else (k, value) ∷ rest

unfoldable pub extra_option : Text → Text → ConnectionConfig → ConnectionConfig
unfolding assign
extra_option key value c = record c { extra_options = assign key value c.extra_options }

unfoldable pub extra_options : Setter (List (Text × Text))
extra_options options c = record c { extra_options = options }

unfoldable pub finalize : ConnectionConfig → Attempt ConnectionConfig
unfolding validate_config
finalize c = elim (validate_config c) [ some e ↦ thrown e | none ↦ ok c ]

unfoldable pub local_dev : Attempt ConnectionConfig
unfolding finalize connect_timeout ssl_mode port_number host codes
local_dev = finalize (
    connect_timeout (plus 5)
      (ssl_mode disable (port_number 5432 (host (codes "localhost") default_config))))

unfoldable pub testing : Attempt ConnectionConfig
unfolding finalize connect_timeout ssl_mode password user dbname port_number host codes
testing = finalize (
    connect_timeout (plus 10) (
      ssl_mode disable (
        password (codes "test_password") (
          user (codes "test_user") (
            dbname (codes "test_db")
              (port_number 5433 (host (codes "localhost") default_config)))))))

unfoldable pub production : Attempt ConnectionConfig
unfolding finalize jit pipeline_mode statement_timeout connect_timeout ssl_mode
production = finalize (
    jit true (
      pipeline_mode true (
        statement_timeout (plus 60)
          (connect_timeout (plus 30) (ssl_mode verify_full default_config)))))

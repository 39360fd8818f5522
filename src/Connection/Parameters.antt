-- ===== src/Connection/Parameters.antt =====
-- What a ConnectionConfig (components/database/providers/postgresql/config/
-- postgres_connection_config.hpp) says to libpq, as a list of keywords and values.
use demiplane.Prelude.Numerals.{to_string}
use demiplane.Prelude.{
  zero, suc, not, Option, none, some, List, [], ◌∷◌, ◌++◌, Text, codes, if◌then◌else◌,
}
use demiplane.Query.Ast.{Signed, plus, minus}
use demiplane.Connection.Credentials.{ConnectionCredentials, escape_connection_value, is_empty}
use demiplane.Connection.Config.{ConnectionConfig, ssl_mode_to_string}
use demiplane.Connection.Reader.{Pair}

-- A parameter that is left out when its value is empty.
abbrev pub unless_empty : Text → Text → List Pair
unless_empty name value = if not (is_empty value) then (name, value) ∷ [] else []

abbrev pub if_given : Text → Option Text → List Pair
if_given name none = []
if_given name (some value) = (name, value) ∷ []

abbrev pub timeout_parameter : Signed → List Pair
unfolding codes
timeout_parameter (plus zero) = []
timeout_parameter (plus (suc n)) = (codes "connect_timeout", to_string (suc n)) ∷ []
timeout_parameter (minus n) = []

unfoldable pub credential_parameters : ConnectionCredentials → List Pair
unfolding codes
credential_parameters c =
    unless_empty (codes "host") c.host
    ++ (unless_empty (codes "port") c.port
        ++ (unless_empty (codes "dbname") c.dbname
            ++ (unless_empty (codes "user") c.user ++ unless_empty (codes "password") c.password)))

unfoldable pub option_parameters : ConnectionConfig → List Pair
unfolding codes timeout_parameter
option_parameters c =
    (codes "sslmode", ssl_mode_to_string c.ssl_mode)
    ∷ (if_given (codes "sslcert") c.ssl_cert
        ++ (if_given (codes "sslkey") c.ssl_key
            ++ (if_given (codes "sslrootcert") c.ssl_root_cert
                ++ (timeout_parameter c.connect_timeout
                    ++ (unless_empty (codes "application_name") c.application_name
                        ++ c.extra_options)))))

-- What a configuration says to libpq, in the order in which it is written.
unfoldable pub parameters : ConnectionConfig → List Pair
unfolding credential_parameters option_parameters
parameters c = credential_parameters c.credentials ++ option_parameters c

unfoldable pub write : List Pair → Text
write [] = []
write ((k, v) ∷ ps) = b' ' ∷ (k ++ b'=' ∷ (escape_connection_value v ++ write ps))

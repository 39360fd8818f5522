-- ===== src/Connection/Keys.antt =====
-- The keywords that to_connection_string writes (components/database/providers/postgresql/config/
-- postgres_connection_config.hpp).
use demiplane.Prelude.{
  refl, zero, suc, Option, none, some, List, [], ◌∷◌, ◌++◌, All-append, codes, Text, All,
}
use demiplane.Query.Ast.{Signed, plus, minus}
use demiplane.Connection.Config.{ConnectionConfig}
use demiplane.Connection.Reader.{Pair, IsKey, all_key_bytes-IsKey}
use demiplane.Connection.Parameters.{
  parameters, credential_parameters, option_parameters, unless_empty, if_given, timeout_parameter,
}

abbrev pub AllKeys : List Pair → Type 0
AllKeys ps = All (λ (p : Pair). IsKey p.0) ps

unless_empty-AllKeys : (name value : Text) → IsKey name → AllKeys (unless_empty name value)
unless_empty-AllKeys name [] h = tt
unless_empty-AllKeys name (c ∷ value) h = (h, tt)

if_given-AllKeys : (name : Text) (value : Option Text) → IsKey name → AllKeys (if_given name value)
if_given-AllKeys name none h = tt
if_given-AllKeys name (some value) h = (h, tt)

timeout-AllKeys : (t : Signed) → AllKeys (timeout_parameter t)
unfolding codes
timeout-AllKeys (plus zero) = tt
timeout-AllKeys (plus (suc n)) = (all_key_bytes-IsKey (codes "connect_timeout") refl, tt)
timeout-AllKeys (minus n) = tt

append-AllKeys : (ps qs : List Pair) → AllKeys ps → AllKeys qs → AllKeys (ps ++ qs)
append-AllKeys ps qs = All-append (λ (p : Pair). IsKey p.0) ps qs

pub parameters-AllKeys : (c : ConnectionConfig) → AllKeys c.extra_options → AllKeys (parameters c)
unfolding parameters credential_parameters option_parameters codes
parameters-AllKeys c ks =
    let key = all_key_bytes-IsKey in
    let cs = c.credentials in
    append-AllKeys _ _
      (append-AllKeys _ _ (unless_empty-AllKeys _ cs.host (key (codes "host") refl)) (
        append-AllKeys _ _ (unless_empty-AllKeys _ cs.port (key (codes "port") refl)) (
          append-AllKeys _ _ (unless_empty-AllKeys _ cs.dbname (key (codes "dbname") refl)) (
            append-AllKeys _ _ (unless_empty-AllKeys _ cs.user (key (codes "user") refl))
              (unless_empty-AllKeys _ cs.password (key (codes "password") refl))))))
      (
        key (codes "sslmode") refl,
        append-AllKeys _ _ (if_given-AllKeys _ c.ssl_cert (key (codes "sslcert") refl)) (
            append-AllKeys _ _ (if_given-AllKeys _ c.ssl_key (key (codes "sslkey") refl)) (
              append-AllKeys _ _
                (if_given-AllKeys _ c.ssl_root_cert (key (codes "sslrootcert") refl))
                (append-AllKeys _ _ (timeout-AllKeys c.connect_timeout) (
                  append-AllKeys _ _
                    (unless_empty-AllKeys _ c.application_name
                      (key (codes "application_name") refl))
                    ks)))),
      )

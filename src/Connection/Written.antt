-- ===== src/Connection/Written.antt =====
-- to_connection_string of ConnectionConfig (components/database/providers/postgresql/config/
-- postgres_connection_config.hpp) as the parameters of the configuration, each after a blank.
use demiplane.Prelude.Numerals.{to_string_loop, to_string}
use demiplane.Prelude.{
  ℕ, zero, suc, ◌+◌, ◌/◌, ◌%◌, false, ◌≡◌, ◌≢◌, refl, sym, ◌∙◌, ap, Option, none, some, List, [],
  ◌∷◌, ◌++◌, append_assoc, append-nil, Text, codes, arith,
}
use demiplane.Query.Ast.{Signed, plus, minus}
use demiplane.Connection.Credentials.{
  ConnectionCredentials, ok, validate_credentials, credential, credentials_string,
  drop_trailing_space, escape_connection_value, is_empty,
}
use demiplane.Connection.Config.{
  ConnectionConfig, SslMode, disable, allow, prefer, require, verify_ca, verify_full,
  ssl_mode_to_string, optional, timeout_text, application_text, extra_text, options_string,
  validate_config, to_connection_string,
}
use demiplane.Connection.Reader.{Pair}
use demiplane.Connection.Legible.{needs_quoting, escape-plain}
use demiplane.Connection.Parameters.{
  unless_empty, if_given, timeout_parameter, credential_parameters, option_parameters, parameters,
  write,
}

pub write-append : (ps qs : List Pair) → write (ps ++ qs) ≡ write ps ++ write qs
unfolding write
write-append [] qs = refl
write-append ((k, v) ∷ ps) qs = rw (write-append ps qs) (
    ap (λ (t : Text). b' ' ∷ (k ++ b'=' ∷ t)) (sym (append_assoc (escape_connection_value v) _ _))
    ∙ ap (◌∷◌ b' ') (sym (append_assoc k _ _)))

drop_last : (xs : Text) → drop_trailing_space (xs ++ b' ' ∷ []) ≡ xs
unfolding drop_trailing_space
drop_last [] = refl
drop_last (c ∷ []) = refl
drop_last (c ∷ d ∷ xs) = ap (◌∷◌ c) (drop_last (d ∷ xs))

-- A text of parameters that are each followed by a blank, after one blank.
abbrev Trails : Text → List Pair → Type 0
Trails s ps = b' ' ∷ s ≡ write ps ++ b' ' ∷ []

credential-Trails :
    (name value s : Text) (ps : List Pair)
    → Trails s ps
    → Trails (credential (name ++ b'=' ∷ []) value ++ s) (unless_empty name value ++ ps)
unfolding credential write
credential-Trails name [] s ps h = h
credential-Trails name (c ∷ value) s ps h = simp (append_assoc, h)

credentials-Trails :
    (c : ConnectionCredentials)
    → Trails
        (credential (codes "host=") c.host
          ++ (credential (codes "port=") c.port
              ++ (credential (codes "dbname=") c.dbname
                  ++ (credential (codes "user=") c.user
                      ++ credential (codes "password=") c.password))))
        (credential_parameters c)
unfolding credential_parameters codes write
credentials-Trails c =
    let last = rw (append-nil (credential (codes "password=") c.password)) at (
      rw (append-nil (unless_empty (codes "password") c.password)) at
        (credential-Trails (codes "password") c.password [] [] refl)) in
    credential-Trails (codes "host") c.host _ _ (
      credential-Trails (codes "port") c.port _ _ (
        credential-Trails (codes "dbname") c.dbname _ _
          (credential-Trails (codes "user") c.user _ _ last)))

ssl_mode-plain :
    (m : SslMode) → escape_connection_value (ssl_mode_to_string m) ≡ ssl_mode_to_string m
unfolding escape_connection_value ssl_mode_to_string codes
ssl_mode-plain disable = refl
ssl_mode-plain allow = refl
ssl_mode-plain prefer = refl
ssl_mode-plain require = refl
ssl_mode-plain verify_ca = refl
ssl_mode-plain verify_full = refl

append-ne-nil : (ps qs : List Pair) → qs ≢ [] → ps ++ qs ≢ []
append-ne-nil [] qs h = h
append-ne-nil (p ∷ ps) qs h = λ e. cc

credential_parameters-ne-nil :
    (c : ConnectionCredentials) → is_empty c.dbname ≡ false → credential_parameters c ≢ []
unfolding credential_parameters
credential_parameters-ne-nil c h =
    let rest = unless_empty (codes "user") c.user ++ unless_empty (codes "password") c.password in
    append-ne-nil (unless_empty (codes "host") c.host) _ (
      append-ne-nil (unless_empty (codes "port") c.port)
        (unless_empty (codes "dbname") c.dbname ++ rest) (rw h (λ e. cc)))

-- The credentials without the last blank, after one blank.
module _ (s : Text) where
  drop-Trails : (ps : List Pair) → ps ≢ [] → Trails s ps → b' ' ∷ drop_trailing_space s ≡ write ps
  unfolding write
  drop-Trails [] h t = absurd (h refl)
  drop-Trails ((k, v) ∷ ps) h t =
      let same : s ≡ (k ++ b'=' ∷ (escape_connection_value v ++ write ps)) ++ b' ' ∷ [] = cc in
      ap (◌∷◌ b' ') (ap drop_trailing_space same ∙ drop_last _)

validate_credentials-dbname :
    (c : ConnectionCredentials) → validate_credentials c ≡ none → is_empty c.dbname ≡ false
unfolding validate_credentials
validate_credentials-dbname c h = ground (arith, h)

credentials_string-write :
    (c : ConnectionCredentials)
    → validate_credentials c ≡ none
    → (s : Text) × (credentials_string c ≡ ok s) × (b' ' ∷ s ≡ write (credential_parameters c))
unfolding credentials_string
credentials_string-write c h = (
  _,
  rw (h, credentials_string),
  drop-Trails _ (credential_parameters c)
      (credential_parameters-ne-nil c (validate_credentials-dbname c h)) (credentials-Trails c),
)

-- The digits need no quotes.
to_string_loop-plain :
    (fuel n : ℕ) (buffer : Text)
    → needs_quoting buffer ≡ false
    → needs_quoting (to_string_loop fuel n buffer) ≡ false
unfolding to_string_loop
to_string_loop-plain zero n buffer h = h
to_string_loop-plain (suc fuel) n buffer h =
    ground (arith, to_string_loop-plain fuel (n / 10) ((b'0' + n % 10) ∷ buffer))

optional-write :
    (name : Text) (value : Option Text) (s : Text) (ps : List Pair)
    → s ≡ write ps
    → optional (b' ' ∷ (name ++ b'=' ∷ [])) value ++ s ≡ write (if_given name value ++ ps)
unfolding optional write
optional-write name none s ps h = h
optional-write name (some value) s ps h = simp (append_assoc, h)

to_string_loop-ne-nil :
    (fuel n : ℕ) (buffer : Text)
    → is_empty buffer ≡ false
    → is_empty (to_string_loop fuel n buffer) ≡ false
unfolding to_string_loop
to_string_loop-ne-nil zero n buffer h = h
to_string_loop-ne-nil (suc fuel) n buffer h =
    ground (arith, to_string_loop-ne-nil fuel (n / 10) ((b'0' + n % 10) ∷ buffer))

to_string-ne-nil : (n : ℕ) → is_empty (to_string n) ≡ false
unfolding to_string to_string_loop
to_string-ne-nil n = ground (arith, to_string_loop-ne-nil n (n / 10) ((b'0' + n % 10) ∷ []))

to_string-plain : (n : ℕ) → escape_connection_value (to_string n) ≡ to_string n
unfolding to_string
to_string-plain n =
    escape-plain (to_string n) (to_string-ne-nil n) (to_string_loop-plain (suc n) n [] refl)

timeout-write :
    (t : Signed) (s : Text) (ps : List Pair)
    → s ≡ write ps
    → timeout_text t ++ s ≡ write (timeout_parameter t ++ ps)
unfolding timeout_text write codes
timeout-write (plus zero) s ps h = h
timeout-write (plus (suc n)) s ps h = simp (append_assoc, h, to_string-plain)
timeout-write (minus n) s ps h = h

application-write :
    (name s : Text) (ps : List Pair)
    → s ≡ write ps
    → application_text name ++ s ≡ write (unless_empty (codes "application_name") name ++ ps)
unfolding application_text write codes
application-write [] s ps h = h
application-write (c ∷ name) s ps h = simp (append_assoc, h)

extra-write : (ps : List Pair) → extra_text ps ≡ write ps
unfolding extra_text write
extra-write [] = refl
extra-write ((k, v) ∷ ps) = simp (extra-write ps)

options_string-write : (c : ConnectionConfig) → options_string c ≡ write (option_parameters c)
unfolding options_string option_parameters write codes
options_string-write c =
    let rest = optional-write (codes "sslcert") c.ssl_cert _ _ (
      optional-write (codes "sslkey") c.ssl_key _ _ (
        optional-write (codes "sslrootcert") c.ssl_root_cert _ _ (
          timeout-write c.connect_timeout _ _
            (application-write c.application_name _ _ (extra-write c.extra_options))))) in
    rw (ssl_mode-plain c.ssl_mode)
      (ap (λ (t : Text). codes " sslmode=" ++ (ssl_mode_to_string c.ssl_mode ++ t)) rest)

validate_config-credentials :
    (c : ConnectionConfig) → validate_config c ≡ none → validate_credentials c.credentials ≡ none
unfolding validate_config
validate_config-credentials c h = ground (arith, h)

-- to_connection_string returns when validate does, and its text is the parameters.
pub to_connection_string-write :
    (c : ConnectionConfig)
    → validate_config c ≡ none
    → (s : Text) × (to_connection_string c ≡ ok s) × (b' ' ∷ s ≡ write (parameters c))
unfolding parameters to_connection_string credentials_string-write
to_connection_string-write c h =
    let (s, e, w) = credentials_string-write c.credentials (validate_config-credentials c h) in
    (
      s ++ options_string c,
      rw (h, e, to_connection_string),
      rw (
        write-append (credential_parameters c.credentials) (option_parameters c),
        options_string-write c,
        ← w,
      ),
    )

-- ===== src/Connection/Valid.antt =====
-- What validate of ConnectionConfig and ConnectionCredentials accepts (components/database/providers/
-- postgresql/config).
use demiplane.Prelude.Numerals.{
  Stoi, positive, negative, no_conversion, out_of_range, leading_number, signed_number, stoi,
  is_digit, to_string_loop, to_string,
}
use demiplane.Prelude.{
  ℕ, zero, suc, ◌+◌, ◌-◌, ◌*◌, ◌/◌, ◌%◌, ◌≤◌, ◌<◌, Bool, true, false, ◌≡◌, ◌≢◌, ◌↔◌, ◌⊎◌, inl, inr,
  refl, sym, ◌∙◌, ap, Option, none, some, [], ◌∷◌, Text, ltb, arith, Bool-cases, Option-cases, ◌&&◌,
  not,
}
use demiplane.Query.Ast.{Signed, plus, minus}
use demiplane.Connection.Credentials.{
  ConnectionCredentials, ConfigError, check_port, validate_credentials, is_empty,
}
use demiplane.Connection.Config.{
  ConnectionConfig, SslMode, disable, allow, prefer, require, verify_ca, verify_full,
  validate_options, validate_config, has_value, differ, is_negative, verifies,
}
use demiplane.Connection.Builder.{port, port_number}

-- What `std::stoi` makes of the port is a number from 1 to 65535.
abbrev PortInRange : Stoi → Type 0
PortInRange (positive p) = (1 ≤ p) × (p ≤ 65535)
PortInRange (negative p) = ⊥
PortInRange no_conversion = ⊥
PortInRange out_of_range = ⊥

pub record IsUsable (c : ConnectionCredentials) : Type 0 where
  pub named : c.dbname ≢ []
  pub owned : c.user ≢ []
  pub reachable : (c.port ≡ []) ⊎ PortInRange (stoi c.port)

filled : (t : Text) → is_empty t ≡ false → t ≢ []
filled [] h = absurd cc
filled (c ∷ t) h = λ e. cc

filled_test : (t : Text) → t ≢ [] → is_empty t ≡ false
filled_test [] h = absurd (h refl)
filled_test (c ∷ t) h = refl

no_text : (t : Text) → is_empty t ≡ true → t ≡ []
no_text [] h = refl
no_text (c ∷ t) h = absurd cc

-- A file that is given, whatever its name.
abbrev IsGiven : Option Text → Type 0
IsGiven v = (path : Text) × (v ≡ some path)

abbrev IsNonNegative : Signed → Type 0
IsNonNegative i = (n : ℕ) × (i ≡ plus n)

pub record IsConsistent (c : ConnectionConfig) : Type 0 where
  pub usable : IsUsable c.credentials
  pub verified_ca : c.ssl_mode ≡ verify_ca → IsGiven c.ssl_root_cert
  pub verified_full : c.ssl_mode ≡ verify_full → IsGiven c.ssl_root_cert
  pub paired : IsGiven c.ssl_cert ↔ IsGiven c.ssl_key
  pub timed : IsNonNegative c.connect_timeout
  pub ranked : IsNonNegative c.priority

IsGiven-iff : (v : Option Text) → (has_value v ≡ true) ↔ IsGiven v
IsGiven-iff none = (λ h. absurd cc, λ (path, h). absurd cc)
IsGiven-iff (some x) = (λ h. (x, refl), λ h. refl)

IsNonNegative-iff : (i : Signed) → (is_negative i ≡ false) ↔ IsNonNegative i
IsNonNegative-iff (plus n) = (λ h. (n, refl), λ h. refl)
IsNonNegative-iff (minus n) = (λ h. absurd cc, λ (k, h). absurd cc)

verifies_iff :
    (m : SslMode) (g : Bool)
    → ((verifies m ≡ false) ⊎ (g ≡ true))
      ↔ ((m ≡ verify_ca → g ≡ true) × (m ≡ verify_full → g ≡ true))
verifies_iff disable g = (λ h. (λ e. absurd cc, λ e. absurd cc), λ h. inl refl)
verifies_iff allow g = (λ h. (λ e. absurd cc, λ e. absurd cc), λ h. inl refl)
verifies_iff prefer g = (λ h. (λ e. absurd cc, λ e. absurd cc), λ h. inl refl)
verifies_iff require g = (λ h. (λ e. absurd cc, λ e. absurd cc), λ h. inl refl)
verifies_iff verify_ca g =
    (λ h. elim h [ inl e ↦ absurd cc | inr e ↦ (λ k. e, λ k. absurd cc) ], λ h. inr (h.0 refl))
verifies_iff verify_full g =
    (λ h. elim h [ inl e ↦ absurd cc | inr e ↦ (λ k. absurd cc, λ k. e) ], λ h. inr (h.1 refl))

same-IsGiven : (a b : Option Text) → (has_value a ≡ has_value b) ↔ (IsGiven a ↔ IsGiven b)
same-IsGiven none none = (λ h. (λ k. k, λ k. k), λ h. refl)
same-IsGiven none (some y) = (λ h. absurd cc, λ h. absurd (cc (h.1 (y, refl)).1))
same-IsGiven (some x) none = (λ h. absurd cc, λ h. absurd (cc (h.0 (x, refl)).1))
same-IsGiven (some x) (some y) = (λ h. (λ k. (y, refl), λ k. (x, refl)), λ h. refl)

differ_eq : (a b : Bool) → (differ a b ≡ false) ↔ (a ≡ b)
differ_eq true true = (λ h. refl, λ h. refl)
differ_eq true false = (λ h. cc, λ h. cc)
differ_eq false true = (λ h. cc, λ h. cc)
differ_eq false false = (λ h. refl, λ h. refl)

check_port-PortInRange : (s : Stoi) → (check_port s ≡ none) ↔ PortInRange s
unfolding check_port
check_port-PortInRange (positive p) = (λ h. ground (arith, h), λ h. ground (arith, h))
check_port-PortInRange (negative p) = (λ h. cc, λ h. absurd h)
check_port-PortInRange no_conversion = (λ h. cc, λ h. absurd h)
check_port-PortInRange out_of_range = (λ h. cc, λ h. absurd h)

pub validate_credentials-IsUsable :
    (c : ConnectionCredentials) → (validate_credentials c ≡ none) ↔ IsUsable c
unfolding validate_credentials
validate_credentials-IsUsable c = elim (Bool-cases (is_empty c.port)) [
  | inl e ↦ (
    λ h. record {
      named = filled c.dbname (ground (arith, h));
      owned = filled c.user (ground (arith, h));
      reachable = inl (no_text c.port e);
    },
    λ u. rw (filled_test c.dbname u.named, filled_test c.user u.owned, e),
  )
  | inr e ↦ (
    λ h. record {
      named = filled c.dbname (ground (arith, h));
      owned = filled c.user (ground (arith, h));
      reachable = inr ((check_port-PortInRange (stoi c.port)).0 (ground (arith, h, e)));
    },
    λ u.
        rw (filled_test c.dbname u.named, filled_test c.user u.owned, e)
          (elim u.reachable [
            | inl empty ↦ absurd (filled c.port e empty)
            | inr ok ↦ (check_port-PortInRange (stoi c.port)).1 ok
          ]),
  )
]

none-ne-some : (e : ConfigError) → ◌≢◌ {A = Option ConfigError} none (some e)
none-ne-some e h = cc

module _ (c : ConnectionConfig) where
  validated :
      (validate_config c ≡ none)
      → (validate_credentials c.credentials ≡ none) × (validate_options c ≡ none)
  unfolding validate_config
  validated h = elim (Option-cases (validate_credentials c.credentials)) [
    | inl e ↦ (e, rw (e, validate_config) at h)
    | inr (error, e) ↦ absurd (none-ne-some error (sym h ∙ rw (e, validate_config)))
  ]

  options_verified :
      validate_options c ≡ none → (verifies c.ssl_mode ≡ false) ⊎ (has_value c.ssl_root_cert ≡ true)
  unfolding validate_options
  options_verified h = elim (Bool-cases (verifies c.ssl_mode)) [
    | inl e ↦ inr (ground (arith, h, e))
    | inr e ↦ inl e
  ]

  options_paired :
      validate_options c ≡ none → differ (has_value c.ssl_cert) (has_value c.ssl_key) ≡ false
  unfolding validate_options
  options_paired h = ground (arith, h)

  options_timed : validate_options c ≡ none → is_negative c.connect_timeout ≡ false
  unfolding validate_options
  options_timed h = ground (arith, h)

  options_ranked : validate_options c ≡ none → is_negative c.priority ≡ false
  unfolding validate_options
  options_ranked h = ground (arith, h)

  options_accepted :
      (verifies c.ssl_mode && not (has_value c.ssl_root_cert)) ≡ false
      → differ (has_value c.ssl_cert) (has_value c.ssl_key) ≡ false
      → is_negative c.connect_timeout ≡ false
      → is_negative c.priority ≡ false
      → validate_options c ≡ none
  unfolding validate_options
  options_accepted v p t r = rw (v, p, t, r)

config_accepted :
    (c : ConnectionConfig)
    → validate_credentials c.credentials ≡ none
    → validate_options c ≡ none
    → validate_config c ≡ none
unfolding validate_config
config_accepted c u o = rw (u, validate_config) o

unverified : (a b : Bool) → (a ≡ false) ⊎ (b ≡ true) → (a && not b) ≡ false
unverified false b h = refl
unverified true true h = refl
unverified true false h = elim h [ inl e ↦ cc | inr e ↦ cc ]

-- validate returns for a configuration exactly when it has a database and a user, its port is empty
-- or a number from 1 to 65535 to `std::stoi`, the modes VERIFY_CA and VERIFY_FULL have a root certificate, the
-- client's certificate and key are both given or neither, and neither the connect timeout nor the
-- priority is negative.
pub validate_config-IsConsistent :
    (c : ConnectionConfig) → (validate_config c ≡ none) ↔ IsConsistent c
validate_config-IsConsistent c =
    let credentials = validate_credentials-IsUsable c.credentials in
    let pair = differ_eq (has_value c.ssl_cert) (has_value c.ssl_key) in
    (
      λ h.
          let (u, o) = validated c h in
          let given =
            (verifies_iff c.ssl_mode (has_value c.ssl_root_cert)).0 (options_verified c o) in
          record {
            usable = credentials.0 u;
            verified_ca = λ m. (IsGiven-iff c.ssl_root_cert).0 (given.0 m);
            verified_full = λ m. (IsGiven-iff c.ssl_root_cert).0 (given.1 m);
            paired = (same-IsGiven c.ssl_cert c.ssl_key).0 (pair.0 (options_paired c o));
            timed = (IsNonNegative-iff c.connect_timeout).0 (options_timed c o);
            ranked = (IsNonNegative-iff c.priority).0 (options_ranked c o);
          },
      λ k.
          let given = (IsGiven-iff c.ssl_root_cert).1 in
          config_accepted c (credentials.1 k.usable) (
            options_accepted c
              (unverified _ _ (
                (verifies_iff c.ssl_mode (has_value c.ssl_root_cert)).1
                  ((λ m. given (k.verified_ca m)), (λ m. given (k.verified_full m)))))
              (pair.1 ((same-IsGiven c.ssl_cert c.ssl_key).1 k.paired))
              ((IsNonNegative-iff c.connect_timeout).1 k.timed)
              ((IsNonNegative-iff c.priority).1 k.ranked)),
    )

leading_digit :
    (m d : ℕ) (cs : Text)
    → d < 10
    → leading_number m ((b'0' + d) ∷ cs) ≡ leading_number (m * 10 + d) cs
unfolding leading_number
leading_digit m d cs h =
    let test : is_digit (b'0' + d) ≡ true = ground (arith, h) in
    let same : b'0' + d - b'0' ≡ d = omega arith in rw (test, same)

digits-leading :
    (fuel n : ℕ) (buffer : Text)
    → n < fuel
    → leading_number 0 (to_string_loop fuel n buffer) ≡ leading_number n buffer
unfolding to_string_loop
digits-leading zero n buffer h = elim h [ ]
digits-leading (suc fuel) n buffer h = elim (Bool-cases (ltb n 10)) [
  | inl e ↦ rw e (
      leading_digit 0 n buffer (ground (arith, e))
      ∙ ap (λ (m : ℕ). leading_number m buffer) (omega arith))
  | inr e ↦
      let whole : n / 10 * 10 + n % 10 ≡ n = omega arith in
      rw (e, digits-leading fuel (n / 10) ((b'0' + n % 10) ∷ buffer) (ground (arith, h, e)))
        (leading_digit (n / 10) (n % 10) buffer (omega arith)
          ∙ ap (λ (m : ℕ). leading_number m buffer) whole)
]

abbrev StartsDigit : Text → Type 0
StartsDigit [] = ⊥
StartsDigit (c ∷ cs) = is_digit c ≡ true

to_string_loop-StartsDigit :
    (fuel n : ℕ) (buffer : Text) → n < fuel → StartsDigit (to_string_loop fuel n buffer)
unfolding to_string_loop
to_string_loop-StartsDigit zero n buffer h = elim h [ ]
to_string_loop-StartsDigit (suc fuel) n buffer h = elim (Bool-cases (ltb n 10)) [
  | inl e ↦ rw e (ground (arith, e))
  | inr e ↦
      rw e
        (to_string_loop-StartsDigit fuel (n / 10) ((b'0' + n % 10) ∷ buffer) (ground (arith, h, e)))
]

stoi-digits :
    (v : Text) → StartsDigit v → leading_number 0 v < 65536 → stoi v ≡ positive (leading_number 0 v)
unfolding stoi signed_number
stoi-digits [] d h = absurd d
stoi-digits (c ∷ v) d h = ground (arith, d, h)

-- `std::stoi` reads back what `std::to_string` wrote.
stoi-to_string : (n : ℕ) → n < 65536 → stoi (to_string n) ≡ positive n
unfolding to_string
stoi-to_string n h =
    let back : leading_number 0 (to_string_loop (suc n) n []) ≡ n =
      digits-leading (suc n) n [] (omega arith) ∙ unfold leading_number in refl in
    stoi-digits (to_string_loop (suc n) n [])
      (to_string_loop-StartsDigit (suc n) n [] (omega arith)) (omega (arith, back, h))
    ∙ ap positive back

module _ (c : ConnectionConfig) (owned : is_empty c.credentials.user ≡ false) where
  validate_credentials-port :
      (v : Text) (n : ℕ)
      → is_empty c.credentials.dbname ≡ false
      → is_empty v ≡ false
      → stoi v ≡ positive n
      → n < 65536
      → (validate_credentials (port v c).credentials ≡ none) ↔ (0 < n)
  unfolding port validate_credentials check_port
  validate_credentials-port v n d e s h =
      (λ k. ground (arith, d, owned, e, s, k), λ k. ground (arith, d, owned, e, s, k, h))

stoi-ne-nil : (v : Text) (n : ℕ) → stoi v ≡ positive n → is_empty v ≡ false
unfolding stoi
stoi-ne-nil [] n h = cc
stoi-ne-nil (c ∷ v) n h = refl

-- A configuration with a database and a user whose port was set as a 16-bit number is accepted, as
-- far as its credentials go, exactly when the number is not 0.
pub validate_credentials-port_number :
    (c : ConnectionConfig) (n : ℕ)
    → is_empty c.credentials.dbname ≡ false
    → is_empty c.credentials.user ≡ false
    → n < 65536
    → (validate_credentials (port_number n c).credentials ≡ none) ↔ (0 < n)
unfolding port_number
validate_credentials-port_number c n d u h =
    let read = stoi-to_string n h in
    validate_credentials-port c u (to_string n) n d (stoi-ne-nil (to_string n) n read) read h

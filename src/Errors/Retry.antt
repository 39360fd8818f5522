-- ===== src/Errors/Retry.antt =====
-- Which SQLSTATE codes map_sqlstate (components/database/providers/postgresql/errors/detail/
-- sqlstate_mapping.inl) makes retryable errors of.
use mathlib.Core.Path.{subst}
use demiplane.Prelude.{
  Bool, true, false, ◌≡◌, refl, sym, arith, All, Bool-cases, inl, inr, Option, none, some, List, [],
  ◌∷◌, Text, codes, if◌then◌else◌,
}
use demiplane.Prelude.Texts.{same_text, same_text_eq, one_of, all_in, one_of-all_in}
use demiplane.Errors.{
  ErrorCode, is_retryable, from_client, from_server, from_fatal, authentication_error,
  check_violation, configuration_error, constraint_violation, data_error, database_not_found,
  invalid_argument, invalid_option, invalid_state, object_not_found, runtime_error,
  schema_not_found, transaction_error, unexpected_state,
}
use demiplane.Errors.Classes.{
  class_08, class_22, class_23, class_25, class_40, class_42, class_53, class_54, class_55,
  class_57, class_58, class_p0, class_xx,
}
use demiplane.Errors.Sqlstate.{error_class, map_class, map_sqlstate}

-- Is there an error, and is it retryable?
abbrev pub retries : Option ErrorCode → Bool
retries none = false
retries (some e) = is_retryable e

-- Classes of which every code is retryable, and those of which some are.
abbrev pub always_retried : List Text
always_retried =
    codes "2F"
    ∷ codes "38"
    ∷ codes "39"
    ∷ codes "40"
    ∷ codes "53"
    ∷ codes "54"
    ∷ codes "57"
    ∷ codes "HV"
    ∷ []

abbrev pub sometimes_retried : List Text
sometimes_retried = codes "08" ∷ codes "55" ∷ codes "P0" ∷ []

abbrev Fits : Bool → Bool → Bool → Type 0
Fits true sometimes r = r ≡ true
Fits false true r = Unit
Fits false false r = r ≡ false

-- What a class promises of the result.
abbrev pub Promised : Text → Option ErrorCode → Type 0
Promised class o = Fits (one_of class always_retried) (one_of class sometimes_retried) (retries o)

abbrev Row : Type 0
Row = Text × (Text → Option ErrorCode)

abbrev class_table : List Row
class_table =
    (codes "00", λ s. none)
    ∷ (codes "08", class_08)
    ∷ (codes "0A", λ s. some (from_client invalid_option))
    ∷ (codes "20", λ s. some (from_server object_not_found))
    ∷ (codes "21", λ s. some (from_server data_error))
    ∷ (codes "22", class_22)
    ∷ (codes "23", class_23)
    ∷ (codes "24", λ s. some (from_client invalid_state))
    ∷ (codes "25", class_25)
    ∷ (codes "26", λ s. some (from_client invalid_argument))
    ∷ (codes "28", λ s. some (from_client authentication_error))
    ∷ (codes "2B", λ s. some (from_server constraint_violation))
    ∷ (codes "2D", λ s. some (from_server transaction_error))
    ∷ (codes "2F", λ s. some (from_server runtime_error))
    ∷ (codes "34", λ s. some (from_client invalid_argument))
    ∷ (codes "38", λ s. some (from_server runtime_error))
    ∷ (codes "39", λ s. some (from_server runtime_error))
    ∷ (codes "3B", λ s. some (from_server transaction_error))
    ∷ (codes "3D", λ s. some (from_server database_not_found))
    ∷ (codes "3F", λ s. some (from_server schema_not_found))
    ∷ (codes "40", class_40)
    ∷ (codes "42", class_42)
    ∷ (codes "44", λ s. some (from_server check_violation))
    ∷ (codes "53", class_53)
    ∷ (codes "54", class_54)
    ∷ (codes "55", class_55)
    ∷ (codes "57", class_57)
    ∷ (codes "58", class_58)
    ∷ (codes "F0", λ s. some (from_client configuration_error))
    ∷ (codes "HV", λ s. some (from_server runtime_error))
    ∷ (codes "P0", class_p0)
    ∷ (codes "XX", class_xx)
    ∷ []

-- The first row of the class.
dispatch : List Row → Text → Text → Option ErrorCode
dispatch [] class sqlstate = some (from_fatal unexpected_state)
dispatch ((c, result) ∷ rows) class sqlstate =
    let later = dispatch rows class sqlstate in if same_text class c then result sqlstate else later

map_class-dispatch : (class s : Text) → map_class class s ≡ dispatch class_table class s
unfolding map_class dispatch codes
map_class-dispatch class s = refl

class_22_lem : (s : Text) → retries (class_22 s) ≡ false
unfolding class_22 is_retryable from_server from_client from_fatal
class_22_lem s = ground arith

class_23_lem : (s : Text) → retries (class_23 s) ≡ false
unfolding class_23 is_retryable from_server from_client from_fatal
class_23_lem s = ground arith

class_25_lem : (s : Text) → retries (class_25 s) ≡ false
unfolding class_25 is_retryable from_server from_client from_fatal
class_25_lem s = ground arith

class_40_lem : (s : Text) → retries (class_40 s) ≡ true
unfolding class_40 is_retryable from_server from_client from_fatal
class_40_lem s = ground arith

class_42_lem : (s : Text) → retries (class_42 s) ≡ false
unfolding class_42 is_retryable from_server from_client from_fatal
class_42_lem s = ground arith

class_53_lem : (s : Text) → retries (class_53 s) ≡ true
unfolding class_53 is_retryable from_server from_client from_fatal
class_53_lem s = ground arith

class_54_lem : (s : Text) → retries (class_54 s) ≡ true
unfolding class_54 is_retryable from_server from_client from_fatal
class_54_lem s = ground arith

class_57_lem : (s : Text) → retries (class_57 s) ≡ true
unfolding class_57 is_retryable from_server from_client from_fatal
class_57_lem s = ground arith

class_58_lem : (s : Text) → retries (class_58 s) ≡ false
unfolding class_58 is_retryable from_server from_client from_fatal
class_58_lem s = ground arith

class_xx_lem : (s : Text) → retries (class_xx s) ≡ false
unfolding class_xx is_retryable from_server from_client from_fatal
class_xx_lem s = ground arith

rows_lem : All (λ (r : Row). (s : Text) → Promised r.0 (r.1 s)) class_table
unfolding same_text codes is_retryable from_client from_server from_fatal
rows_lem = (
  λ s. refl,
  (
    λ s. tt,
    (
      λ s. refl,
      (
        λ s. refl,
        (
          λ s. refl,
          (
            class_22_lem,
            (
              class_23_lem,
              (
                λ s. refl,
                (
                  class_25_lem,
                  (
                    λ s. refl,
                    (
                      λ s. refl,
                      (
                        λ s. refl,
                        (
                          λ s. refl,
                          (
                            λ s. refl,
                            (
                              λ s. refl,
                              (
                                λ s. refl,
                                (
                                  λ s. refl,
                                  (
                                    λ s. refl,
                                    (
                                      λ s. refl,
                                      (
                                        λ s. refl,
                                        (
                                          class_40_lem,
                                          (
                                            class_42_lem,
                                            (
                                              λ s. refl,
                                              (
                                                class_53_lem,
                                                (
                                                  class_54_lem,
                                                  (
                                                    λ s. tt,
                                                    (
                                                      class_57_lem,
                                                      (
                                                        class_58_lem,
                                                        (
                                                          λ s. refl,
                                                          (
                                                            λ s. refl,
                                                            (λ s. tt, (class_xx_lem, tt)),
                                                          ),
                                                        ),
                                                      ),
                                                    ),
                                                  ),
                                                ),
                                              ),
                                            ),
                                          ),
                                        ),
                                      ),
                                    ),
                                  ),
                                ),
                              ),
                            ),
                          ),
                        ),
                      ),
                    ),
                  ),
                ),
              ),
            ),
          ),
        ),
      ),
    ),
  ),
)

keys : List Row → List Text
keys [] = []
keys ((c, result) ∷ rows) = c ∷ keys rows

dispatch-Promised :
    (rows : List Row) (class s : Text)
    → All (λ (r : Row). (s : Text) → Promised r.0 (r.1 s)) rows
    → (one_of class (keys rows) ≡ false → Promised class (some (from_fatal unexpected_state)))
    → Promised class (dispatch rows class s)
unfolding dispatch keys
dispatch-Promised [] class s all last = last refl
dispatch-Promised ((c, result) ∷ rows) class s all last = elim (Bool-cases (same_text class c)) [
  | inl e ↦ rw (e, same_text_eq class c e) (all.0 s)
  | inr e ↦ rw e (dispatch-Promised rows class s all.1 (λ h. last (rw e h)))
]

always-known : all_in always_retried (keys class_table) ≡ true
unfolding keys same_text codes
always-known = refl

sometimes-known : all_in sometimes_retried (keys class_table) ≡ true
unfolding keys same_text codes
sometimes-known = refl

unknown-Promised :
    (class : Text)
    → one_of class (keys class_table) ≡ false
    → Promised class (some (from_fatal unexpected_state))
unfolding is_retryable from_fatal
unknown-Promised class h = rw (
  one_of-all_in class always_retried (keys class_table) always-known h,
  one_of-all_in class sometimes_retried (keys class_table) sometimes-known h,
)

success-Promised : Promised (error_class (codes "00000")) none
unfolding error_class same_text codes
success-Promised = refl

empty-Promised : Promised (error_class []) none
unfolding error_class same_text codes
empty-Promised = refl

-- Whether an error is retryable is told by the first two bytes of its SQLSTATE, but for connection
-- exceptions (08), objects not in the prerequisite state (55) and PL/pgSQL errors (P0): those of the
-- classes 2F, 38, 39, 40, 53, 54, 57 and HV always are, and those of any other class never are.
pub map_sqlstate-Promised : (s : Text) → Promised (error_class s) (map_sqlstate s)
unfolding map_sqlstate
map_sqlstate-Promised [] = empty-Promised
map_sqlstate-Promised (c ∷ cs) = elim (Bool-cases (same_text (c ∷ cs) (codes "00000"))) [
  | inl e ↦ rw e (
      subst (λ t. Promised (error_class t) none) (sym (same_text_eq (c ∷ cs) (codes "00000") e))
        success-Promised)
  | inr e ↦
      rw (e, map_class-dispatch)
        (dispatch-Promised class_table (error_class (c ∷ cs)) (c ∷ cs) rows_lem
          (unknown-Promised (error_class (c ∷ cs))))
]

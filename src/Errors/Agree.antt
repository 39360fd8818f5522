-- ===== src/Errors/Agree.antt =====
-- The two extractions of postgres_errors.cpp (components/database/providers/postgresql/errors) agree,
-- and what the checks of a connection tell.
use mathlib.Core.Option
use demiplane.Prelude.{◌≡◌, refl, Option, none, some, Text, [], Bool-cases, inl, inr, ap}
use demiplane.Errors.{ErrorCode}
use demiplane.Errors.Sqlstate.{map_sqlstate}
use demiplane.Errors.Extract.{
  ExecStatus, PgResult, ErrorContext, context_of, add_diagnostics, classify, extract_error,
  classify_code, extract_error_code, is_success_status, map_exec_status,
}

abbrev pub code_with_sqlstate : ErrorContext → ErrorCode × Text
code_with_sqlstate ctx = (ctx.code, ctx.sqlstate)

-- The SQLSTATE that the result has, or none.
abbrev pub given : Option Text → Text
given none = []
given (some s) = s

abbrev pub given_sqlstate : Option PgResult → Text
given_sqlstate none = []
given_sqlstate (some r) = given r.sqlstate

module _ (r : PgResult) where
  diagnosed :
      (f : ErrorCode → ErrorContext) (s : Text) (o : Option ErrorCode)
      → ((e : ErrorCode) → code_with_sqlstate (f e) ≡ (e, s))
      → Option.map code_with_sqlstate (Option.map (add_diagnostics r) (Option.map f o))
        ≡ Option.map (λ (e : ErrorCode). (e, s)) o
  unfolding add_diagnostics
  diagnosed f s none h = refl
  diagnosed f s (some e) h = ap some (h e)

  classified :
      (sqlstate : Option Text) (status : ExecStatus)
      → Option.map code_with_sqlstate (Option.map (add_diagnostics r) (classify sqlstate status))
        ≡ Option.map (λ (e : ErrorCode). (e, given sqlstate)) (classify_code sqlstate status)
  unfolding classify classify_code
  classified none status = diagnosed context_of [] (map_exec_status status) (λ e. refl)
  classified (some s) status =
      diagnosed (λ (code : ErrorCode). record (context_of code) { sqlstate = s }) s (map_sqlstate s)
        (λ e. refl)

-- Both extractions find an error or neither does, and then it is the same code; the full one keeps
-- the SQLSTATE of the result with it.
pub extract_error-extract_error_code :
    (r : Option PgResult)
    → Option.map code_with_sqlstate (extract_error r)
      ≡ Option.map (λ (e : ErrorCode). (e, given_sqlstate r)) (extract_error_code r)
unfolding extract_error extract_error_code
extract_error-extract_error_code none = refl
extract_error-extract_error_code (some r) = elim (Bool-cases (is_success_status r.status)) [
  | inl e ↦ rw e
  | inr e ↦ rw e (classified r r.sqlstate r.status)
]

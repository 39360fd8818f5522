-- ===== src/Gears/Outcome/Chain.antt =====
-- chain_outcomes (common/gears/outcome/gears_outcome.hpp) against early returns, and the laws of
-- and_then.
use demiplane.Prelude.{
  suc, true, false, ◌≡◌, refl, ◌∙◌, ap, List, [], ◌∷◌, ◌++◌, append-nil, append_assoc, arith, ◌==◌,
  if◌then◌else◌, length, Bool-cases, inl, inr,
}
use demiplane.Gears.Variants.{Types, merge_variants, merge_variants_assoc}
use demiplane.Gears.Outcome.{
  Outcome, success, error, Access, got, Input, void_outcome, value_outcome, Combined, nothing, bare,
  tuple, and_then, widen_outcome, chain_outcomes, any_error, extract_first_error, non_void_types,
  values, pack, forward_error, ◌>>=◌,
}

abbrev combine : {A : Type 0} → List A → Combined A
combine [] = nothing
combine (v ∷ []) = bare v
combine (v ∷ w ∷ vs) = tuple (v ∷ w ∷ vs)

-- The value goes on to the callable, an error passes it by.
unfoldable pub bind : {E T U : Type 0} → Outcome E T → (T → Outcome E U) → Outcome E U
bind (success v) f = f v
bind (error t e) f = error t e

widen_outcome_lem : {E T : Type 0} (o : Outcome E T) → widen_outcome o ≡ o
unfolding widen_outcome
widen_outcome_lem (success v) = refl
widen_outcome_lem (error t e) = refl

-- and_then never throws.
pub and_then_lem :
    {E T U : Type 0} (o : Outcome E T) (f : T → Outcome E U) → and_then o f ≡ got (bind o f)
unfolding and_then bind
and_then_lem (success v) f = rw (widen_outcome_lem (f v))
and_then_lem (error t e) f = refl

bind_assoc :
    {E T U V : Type 0} (o : Outcome E T) (f : T → Outcome E U) (g : U → Outcome E V)
    → bind (bind o f) g ≡ bind o (λ v. bind (f v) g)
unfolding bind
bind_assoc (success v) f g = refl
bind_assoc (error t e) f g = refl

-- Steps of and_then may be regrouped, since the value of the first goes to the others: neither
-- throws, the results are the same, and so are the lists of errors in their types.
pub and_then_assoc :
    {E T U V : Type 0} (xs ys zs : Types) (o : Outcome E T) (f : T → Outcome E U)
    (g : U → Outcome E V)
    → (merge_variants (merge_variants xs ys) zs ≡ merge_variants xs (merge_variants ys zs))
      × ((and_then o f >>= λ r. and_then r g) ≡ got (bind o (λ v. bind (f v) g)))
      × (and_then o (λ v. bind (f v) g) ≡ got (bind o (λ v. bind (f v) g)))
and_then_assoc xs ys zs o f g = (
  merge_variants_assoc xs ys zs,
  rw (and_then_lem o f, and_then_lem (bind o f) g, bind_assoc o f g),
  and_then_lem o _,
)

module _ {E A : Type 0} where
  -- `if (!a) return Err(a.error()); if (!b) return Err(b.error()); ...`, with the values so far.
  unfoldable pub early_returns : List A → List (Input E A) → Outcome E (Combined A)
  early_returns seen [] = success (combine seen)
  early_returns seen (void_outcome (success v) ∷ rest) = early_returns seen rest
  early_returns seen (void_outcome (error t e) ∷ rest) = error t e
  early_returns seen (value_outcome (success v) ∷ rest) = early_returns (seen ++ v ∷ []) rest
  early_returns seen (value_outcome (error t e) ∷ rest) = error t e

  extracted :
      (first : Input E A) (rest : List (Input E A)) (seen : List A)
      → any_error (first ∷ rest) ≡ true
      → extract_first_error first rest ≡ got (early_returns seen (first ∷ rest))
  unfolding any_error extract_first_error early_returns forward_error
  extracted (void_outcome (error t e)) [] seen h = refl
  extracted (void_outcome (error t e)) (o ∷ rest) seen h = refl
  extracted (value_outcome (error t e)) [] seen h = refl
  extracted (value_outcome (error t e)) (o ∷ rest) seen h = refl
  extracted (void_outcome (success v)) [] seen h = cc
  extracted (void_outcome (success v)) (o ∷ rest) seen h = extracted o rest seen h
  extracted (value_outcome (success v)) [] seen h = cc
  extracted (value_outcome (success v)) (o ∷ rest) seen h = extracted o rest (seen ++ v ∷ []) h

  payloads : List (Input E A) → List A
  payloads [] = []
  payloads (void_outcome o ∷ rest) = payloads rest
  payloads (value_outcome (success v) ∷ rest) = v ∷ payloads rest
  payloads (value_outcome (error t e) ∷ rest) = payloads rest

  values-payloads : (os : List (Input E A)) → any_error os ≡ false → values os ≡ got (payloads os)
  unfolding any_error values payloads
  values-payloads [] h = refl
  values-payloads (void_outcome (success v) ∷ rest) h = values-payloads rest h
  values-payloads (void_outcome (error t e) ∷ rest) h = cc
  values-payloads (value_outcome (success v) ∷ rest) h = rw (values-payloads rest h)
  values-payloads (value_outcome (error t e) ∷ rest) h = cc

  non_void-payloads :
      (os : List (Input E A)) → any_error os ≡ false → non_void_types os ≡ length (payloads os)
  unfolding any_error non_void_types payloads
  non_void-payloads [] h = refl
  non_void-payloads (void_outcome (success v) ∷ rest) h = non_void-payloads rest h
  non_void-payloads (void_outcome (error t e) ∷ rest) h = cc
  non_void-payloads (value_outcome (success v) ∷ rest) h = ap suc (non_void-payloads rest h)
  non_void-payloads (value_outcome (error t e) ∷ rest) h = cc

  early_returns-payloads :
      (os : List (Input E A)) (seen : List A)
      → any_error os ≡ false
      → early_returns seen os ≡ success (combine (seen ++ payloads os))
  unfolding any_error early_returns payloads
  early_returns-payloads [] seen h = rw append-nil
  early_returns-payloads (void_outcome (success v) ∷ rest) seen h =
      early_returns-payloads rest seen h
  early_returns-payloads (void_outcome (error t e) ∷ rest) seen h = cc
  early_returns-payloads (value_outcome (success v) ∷ rest) seen h =
      early_returns-payloads rest (seen ++ v ∷ []) h ∙ rw append_assoc
  early_returns-payloads (value_outcome (error t e) ∷ rest) seen h = cc

  packed :
      (vs : List A)
      → ◌≡◌ {A = Access (Outcome E (Combined A))}
          (if length vs == 0 then got (success nothing) else got (success (pack vs)))
          (got (success (combine vs)))
  packed [] = refl
  packed (v ∷ []) = refl
  packed (v ∷ w ∷ vs) = ground arith

  -- chain_outcomes never throws, and gives what a chain of early returns gives: the first error, or
  -- else the values of the inputs that have one, alone or as a tuple, in their order.
  pub chain_outcomes_lem :
      (first : Input E A) (rest : List (Input E A))
      → chain_outcomes first rest ≡ got (early_returns [] (first ∷ rest))
  unfolding chain_outcomes
  chain_outcomes_lem first rest = elim (Bool-cases (any_error (first ∷ rest))) [
    | inl e ↦ rw (e, extracted first rest [] e)
    | inr e ↦
        rw
          (
            e,
            values-payloads (first ∷ rest) e,
            non_void-payloads (first ∷ rest) e,
            early_returns-payloads (first ∷ rest) [] e,
          )
          (packed (payloads (first ∷ rest)))
  ]

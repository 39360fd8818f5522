-- ===== src/Gears/Outcome/Tests.antt =====
-- Concrete outcomes (common/gears/outcome/gears_outcome.hpp).
use demiplane.Prelude.{ℕ, true, ◌≡◌, ◌||◌, refl, List, [], ◌∷◌, arith, ltb, if◌then◌else◌}
use demiplane.Gears.Variants.{TypeId, variant_contains, all_unique, merge_variants, merge_all}
use demiplane.Gears.Outcome.{
  Outcome, success, error, got, bad_outcome_access, Input, void_outcome, value_outcome, and_then,
  chain_outcomes, value, or_else, bare, ◌>>=◌,
}
use demiplane.Gears.Outcome.Typing.{HasErrors, Returns, and_then-Returns, chain_outcomes-Returns}
use demiplane.Gears.Outcome.Chain.{bind, early_returns, and_then_assoc, chain_outcomes_lem}

abbrev Code : Type 0
Code = Outcome ℕ ℕ

abbrev small : ℕ → Code
small n = if ltb n 10 then success n else error 2 n

abbrev inputs : List (Input ℕ ℕ)
inputs = value_outcome (success 4) ∷ void_outcome (error 3 9) ∷ value_outcome (error 1 8) ∷ []

first_error_wins :
    chain_outcomes {E = ℕ} {A = ℕ} (void_outcome (success tt)) inputs ≡ got (error 3 9)
unfolding chain_outcomes
first_error_wins = refl

one_value :
    chain_outcomes {E = ℕ} {A = ℕ} (void_outcome (success tt)) (value_outcome (success 4) ∷ [])
    ≡ got (success (bare 4))
unfolding chain_outcomes
one_value = refl

value_of_error : value {E = ℕ} {T = ℕ} (error 1 5) ≡ bad_outcome_access
unfolding value
value_of_error = refl

recovered : or_else {E = ℕ} {T = ℕ} {U = ℕ} (λ n. n) (error 1 5) (λ u. success 7) ≡ got (success 7)
unfolding or_else
recovered = refl

small-HasErrors : (n : ℕ) → HasErrors (2 ∷ []) (small n)
unfolding variant_contains
small-HasErrors n = ground arith

and_then-Returns_example :
    Returns (merge_variants (1 ∷ []) (2 ∷ [])) (and_then (success 12) small)
    × (all_unique (merge_variants (1 ∷ []) (2 ∷ [])) ≡ true)
    × ((t : TypeId)
        → variant_contains t (merge_variants (1 ∷ []) (2 ∷ []))
          ≡ (variant_contains t (1 ∷ []) || variant_contains t (2 ∷ [])))
unfolding all_unique
and_then-Returns_example =
    and_then-Returns (1 ∷ []) (2 ∷ []) (success 12) small refl tt small-HasErrors

and_then_assoc_run :
    (merge_variants (merge_variants (1 ∷ []) (2 ∷ [])) (1 ∷ [])
      ≡ merge_variants (1 ∷ []) (merge_variants (2 ∷ []) (1 ∷ [])))
    × ((and_then (success 3) small >>= λ r. and_then r small)
        ≡ got (bind (success 3) (λ v. bind (small v) small)))
    × (and_then (success 3) (λ v. bind (small v) small)
        ≡ got (bind (success 3) (λ v. bind (small v) small)))
and_then_assoc_run = and_then_assoc (1 ∷ []) (2 ∷ []) (1 ∷ []) (success 3) small small

chain_outcomes_lem_example :
    chain_outcomes (void_outcome (success tt)) inputs
    ≡ got (early_returns [] (void_outcome (success tt) ∷ inputs))
chain_outcomes_lem_example = chain_outcomes_lem (void_outcome (success tt)) inputs

chain_outcomes-Returns_example :
    Returns
      (merge_all ([] ∷ (1 ∷ []) ∷ (3 ∷ []) ∷ (1 ∷ []) ∷ []))
      (chain_outcomes (void_outcome (success tt)) inputs)
unfolding variant_contains
chain_outcomes-Returns_example =
    chain_outcomes-Returns ([] ∷ (1 ∷ []) ∷ (3 ∷ []) ∷ (1 ∷ []) ∷ []) (void_outcome (success tt))
      inputs (tt, (tt, (refl, (refl, tt))))

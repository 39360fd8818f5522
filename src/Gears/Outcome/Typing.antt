-- ===== src/Gears/Outcome/Typing.antt =====
-- The types of errors that the results of Outcome (common/gears/outcome/gears_outcome.hpp) may hold.
use demiplane.Prelude.{Bool, true, false, ◌||◌, ◌≡◌, refl, ◌∙◌, List, [], ◌∷◌, ◌++◌}
use demiplane.Gears.Variants.{
  in_some, contains-merge_all, TypeId, Types, variant_contains, all_unique, merge_variants,
  merge_all, contains-merge_variants, all_unique-merge_variants,
}
use demiplane.Gears.Outcome.{
  Outcome, success, error, Access, got, bad_outcome_access, bad_variant_access, Input, void_outcome,
  value_outcome, widen_outcome, and_then, chain_outcomes,
}
use demiplane.Gears.Outcome.Chain.{early_returns, chain_outcomes_lem}

or_true : (b : Bool) → (b || true) ≡ true
or_true true = refl
or_true false = refl

module _ {E : Type 0} where
  -- Every error that the outcome may hold is one of `errors`.
  abbrev pub HasErrors : {T : Type 0} → Types → Outcome E T → Type 0
  HasErrors errors (success v) = Unit
  HasErrors errors (error t e) = variant_contains t errors ≡ true

  -- What a call returns may hold the errors `errors`, if it returns.
  abbrev pub Returns : {T : Type 0} → Types → Access (Outcome E T) → Type 0
  Returns errors (got o) = HasErrors errors o
  Returns errors bad_outcome_access = ⊥
  Returns errors bad_variant_access = ⊥

  rebuilt :
      {T : Type 0} (ys : Types) (o : Outcome E T) → HasErrors ys o → HasErrors ys (widen_outcome o)
  unfolding widen_outcome
  rebuilt ys (success v) h = tt
  rebuilt ys (error t e) h = h

  widened :
      {T : Type 0} (xs ys : Types) (o : Outcome E T)
      → HasErrors ys o
      → HasErrors (merge_variants xs ys) o
  widened xs ys (success v) h = tt
  widened xs ys (error t e) h =
      contains-merge_variants t xs ys ∙ rw (h, or_true (variant_contains t xs))

  and_then_typed :
      {T U : Type 0} (xs ys : Types) (o : Outcome E T) (f : T → Outcome E U)
      → HasErrors xs o
      → ((v : T) → HasErrors ys (f v))
      → Returns (merge_variants xs ys) (and_then o f)
  unfolding and_then
  and_then_typed xs ys (success v) f h k = rebuilt _ (f v) (widened xs ys (f v) (k v))
  and_then_typed xs ys (error t e) f h k = contains-merge_variants t xs ys ∙ rw h

  -- and_then returns, and an error that it returns has one of the types of the merged list, which
  -- are those of the outcome and those of the callable, none of them twice.
  pub and_then-Returns :
      {T U : Type 0} (xs ys : Types) (o : Outcome E T) (f : T → Outcome E U)
      → all_unique xs ≡ true
      → HasErrors xs o
      → ((v : T) → HasErrors ys (f v))
      → Returns (merge_variants xs ys) (and_then o f)
        × (all_unique (merge_variants xs ys) ≡ true)
        × ((t : TypeId)
            → variant_contains t (merge_variants xs ys)
              ≡ (variant_contains t xs || variant_contains t ys))
  and_then-Returns xs ys o f u h k = (
    and_then_typed xs ys o f h k,
    all_unique-merge_variants xs ys u,
    λ t. contains-merge_variants t xs ys,
  )

  -- Each input may hold the errors of its list.
  abbrev pub Declared : {A : Type 0} → List Types → List (Input E A) → Type 0
  Declared [] [] = Unit
  Declared [] (o ∷ os) = ⊥
  Declared (xs ∷ xss) [] = ⊥
  Declared (xs ∷ xss) (void_outcome o ∷ os) = HasErrors xs o × Declared xss os
  Declared (xs ∷ xss) (value_outcome o ∷ os) = HasErrors xs o × Declared xss os

  FromSome : {T : Type 0} → List Types → Outcome E T → Type 0
  FromSome xss (success v) = Unit
  FromSome xss (error t e) = in_some t xss ≡ true

  later_FromSome :
      {T : Type 0} (xs : Types) (xss : List Types) (o : Outcome E T)
      → FromSome xss o
      → FromSome (xs ∷ xss) o
  unfolding FromSome
  later_FromSome xs xss (success v) h = tt
  later_FromSome xs xss (error t e) h = rw (h, or_true (variant_contains t xs))

  early_returns-FromSome :
      {A : Type 0} (xss : List Types) (os : List (Input E A)) (seen : List A)
      → Declared xss os
      → FromSome xss (early_returns seen os)
  unfolding FromSome early_returns
  early_returns-FromSome [] [] seen d = tt
  early_returns-FromSome [] (o ∷ os) seen d = absurd d
  early_returns-FromSome (xs ∷ xss) [] seen d = absurd d
  early_returns-FromSome (xs ∷ xss) (void_outcome (success v) ∷ os) seen d =
      later_FromSome xs xss _ (early_returns-FromSome xss os seen d.1)
  early_returns-FromSome (xs ∷ xss) (void_outcome (error t e) ∷ os) seen d = rw d.0
  early_returns-FromSome (xs ∷ xss) (value_outcome (success v) ∷ os) seen d =
      later_FromSome xs xss _ (early_returns-FromSome xss os (seen ++ v ∷ []) d.1)
  early_returns-FromSome (xs ∷ xss) (value_outcome (error t e) ∷ os) seen d = rw d.0

  merged :
      {T : Type 0} (xss : List Types) (o : Outcome E T)
      → FromSome xss o
      → HasErrors (merge_all xss) o
  unfolding FromSome
  merged xss (success v) h = tt
  merged xss (error t e) h = contains-merge_all t xss ∙ h

  -- What chain_outcomes returns has an error of the merged list of all inputs, if it is an error.
  pub chain_outcomes-Returns :
      {A : Type 0} (xss : List Types) (first : Input E A) (rest : List (Input E A))
      → Declared xss (first ∷ rest)
      → Returns (merge_all xss) (chain_outcomes first rest)
  chain_outcomes-Returns xss first rest d = rw (chain_outcomes_lem first rest) (
      merged xss (early_returns [] (first ∷ rest)) (early_returns-FromSome xss (first ∷ rest) [] d))

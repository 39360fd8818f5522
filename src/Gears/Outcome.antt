-- ===== src/Gears/Outcome.antt =====
-- gears::Outcome and chain_outcomes (common/gears/outcome/gears_outcome.hpp). An error is its type
-- with its value; which types of errors an outcome may hold is stated by HasErrors. The overloads
-- for `&`, `const&` and `&&` are one function. The value of a void outcome is `tt`.
pub mod Typing
pub mod Chain
mod Tests
use demiplane.Prelude.{
  ℕ, suc, ◌+◌, Bool, true, false, not, ◌||◌, ◌&&◌, ◌≡◌, Option, none, some, List, [], ◌∷◌, ◌++◌,
  ◌==◌, if◌then◌else◌,
}
use demiplane.Gears.Variants.{TypeId, Types, variant_contains}

-- `std::variant<T, Errors...>`, with a value of the sum `E` of all error types in an error.
pub data Outcome (E T : Type 0) : Type 0 where
  success : T → Outcome E T
  error : TypeId → E → Outcome E T

-- What a call that may throw returns.
pub data Access (A : Type 0) : Type 0 where
  got : A → Access A
  bad_outcome_access bad_variant_access : Access A

infixl 5 ◌>>=◌
abbrev pub ◌>>=◌ : {A B : Type 0} → Access A → (A → Access B) → Access B
got a >>= f = f a
bad_outcome_access >>= f = bad_outcome_access
bad_variant_access >>= f = bad_variant_access

module _ {E T : Type 0} where
  unfoldable pub is_success : Outcome E T → Bool
  is_success (success v) = true
  is_success (error t e) = false

  unfoldable pub is_error : Outcome E T → Bool
  unfolding is_success
  is_error o = not (is_success o)

  unfoldable pub holds_error : TypeId → Outcome E T → Bool
  holds_error t (success v) = false
  holds_error t (error u e) = t == u

  -- `std::get` of the value, behind the test. Also ensure_success of a void outcome.
  unfoldable pub value : Outcome E T → Access T
  value (success v) = got v
  value (error t e) = bad_outcome_access

  unfoldable pub value_or : T → Outcome E T → T
  value_or default (success v) = v
  value_or default (error t e) = default

  -- `error<E>()`, which is `std::get`.
  unfoldable pub error_of : TypeId → Outcome E T → Access E
  error_of t (success v) = bad_variant_access
  error_of t (error u e) = if t == u then got e else bad_variant_access

  unfoldable pub visit : {R : Type 0} → (T → R) → (TypeId → E → R) → Outcome E T → R
  visit on_value on_error (success v) = on_value v
  visit on_value on_error (error t e) = on_error t e

  -- Built anew with the tag of what is held.
  unfoldable pub widen_outcome : Outcome E T → Outcome E T
  unfolding visit
  widen_outcome o = visit success error o

module _ {E T U : Type 0} where
  -- The visit at the end of and_then and transform, which throws for a value.
  unfoldable pub forward_error : Outcome E T → Access (Outcome E U)
  unfolding visit
  forward_error o = visit (λ v. bad_outcome_access) (λ t e. got (error t e)) o

  -- A result of the merged type itself is returned as it is, which widening it is as well.
  unfoldable pub and_then : Outcome E T → (T → Outcome E U) → Access (Outcome E U)
  unfolding is_success value widen_outcome forward_error
  and_then o f =
      if is_success o then (value o >>= λ v. got (widen_outcome (f v))) else forward_error o

  -- `convert` makes the value of the result from that of the outcome; an error is dropped.
  unfoldable pub or_else : (T → U) → Outcome E T → (Unit {0} → Outcome E U) → Access (Outcome E U)
  unfolding is_error is_success value
  or_else convert o f =
      if is_error o then got (f tt) else value o >>= λ v. got (success (convert v))

  unfoldable pub transform : Outcome E T → (T → U) → Access (Outcome E U)
  unfolding is_success value forward_error
  transform o f = if is_success o then (value o >>= λ v. got (success (f v))) else forward_error o

-- An argument of chain_outcomes: one without a value, or with a value of the sum `A` of their types.
pub data Input (E A : Type 0) : Type 0 where
  void_outcome : Outcome E (Unit {0}) → Input E A
  value_outcome : Outcome E A → Input E A

-- The value that NonVoidTypes and SimplifyTuple choose.
pub data Combined (A : Type 0) : Type 0 where
  nothing : Combined A
  bare : A → Combined A
  tuple : List A → Combined A

-- `Result{std::get<0>(values)}` for a tuple of one, else `Result{values}`.
abbrev pub pack : {A : Type 0} → List A → Combined A
pack [] = tuple []
pack (v ∷ []) = bare v
pack (v ∷ w ∷ vs) = tuple (v ∷ w ∷ vs)

module _ {E A : Type 0} where
  unfoldable pub input_succeeds : Input E A → Bool
  unfolding is_success
  input_succeeds (void_outcome o) = is_success o
  input_succeeds (value_outcome o) = is_success o

  unfoldable pub any_error : List (Input E A) → Bool
  unfolding input_succeeds
  any_error [] = false
  any_error (o ∷ rest) = not (input_succeeds o) || any_error rest

  abbrev forward_input : Input E A → Access (Outcome E (Combined A))
  forward_input (void_outcome o) = forward_error o
  forward_input (value_outcome o) = forward_error o

  unfoldable pub extract_first_error :
      Input E A → List (Input E A) → Access (Outcome E (Combined A))
  unfolding forward_error input_succeeds
  extract_first_error first [] =
      if not (input_succeeds first) then forward_input first else bad_outcome_access
  extract_first_error first (second ∷ rest) =
      let later = extract_first_error second rest in
      if not (input_succeeds first) then forward_input first else later

  -- `sizeof...` of the tuple of NonVoidTypes.
  unfoldable pub non_void_types : List (Input E A) → ℕ
  non_void_types [] = 0
  non_void_types (void_outcome o ∷ rest) = non_void_types rest
  non_void_types (value_outcome o ∷ rest) = suc (non_void_types rest)

  -- The tuple_cat of the values.
  unfoldable pub values : List (Input E A) → Access (List A)
  unfolding value
  values [] = got []
  values (void_outcome o ∷ rest) = values rest
  values (value_outcome o ∷ rest) = value o >>= λ v. values rest >>= λ vs. got (v ∷ vs)

  unfoldable pub chain_outcomes : Input E A → List (Input E A) → Access (Outcome E (Combined A))
  unfolding any_error extract_first_error non_void_types values
  chain_outcomes first rest =
      if any_error (first ∷ rest)
      then extract_first_error first rest
      else if non_void_types (first ∷ rest) == 0
      then got (success nothing)
      else values (first ∷ rest) >>= λ vs. got (success (pack vs))

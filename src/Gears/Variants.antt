-- ===== src/Gears/Variants.antt =====
-- The lists of types that Outcome (common/gears/outcome/gears_outcome.hpp) computes from those of its
-- errors, with the templates of common/gears/meta_programming/gears_templates.hpp. A type is a number,
-- and std::is_same is equality.
use demiplane.Prelude.{
  ℕ, Bool, true, false, ◌&&◌, ◌||◌, not, ◌≡◌, refl, sym, ◌∙◌, ap, List, [], ◌∷◌, ◌++◌, ◌==◌,
  if◌then◌else◌, ==_iff, Bool-cases, inl, inr, arith,
}

abbrev pub TypeId : Type 0
TypeId = ℕ

abbrev pub Types : Type 0
Types = List TypeId

unfoldable pub variant_contains : TypeId → Types → Bool
variant_contains t [] = false
variant_contains t (u ∷ us) = t == u || variant_contains t us

unfoldable pub all_unique : Types → Bool
unfolding variant_contains
all_unique [] = true
all_unique (head ∷ tail) = not (variant_contains head tail) && all_unique tail

unfoldable pub variant_unique_append : Types → Types → Types
unfolding variant_contains
variant_unique_append acc [] = acc
variant_unique_append acc (head ∷ rest) =
    variant_unique_append (if variant_contains head acc then acc else acc ++ head ∷ []) rest

unfoldable pub merge_variants : Types → Types → Types
unfolding variant_unique_append
merge_variants xs ys = variant_unique_append xs ys

merge_rest : Types → List Types → Types
unfolding merge_variants
merge_rest v [] = v
merge_rest v (w ∷ rest) = merge_rest (merge_variants v w) rest

unfoldable pub merge_all : List Types → Types
unfolding merge_rest
merge_all [] = []
merge_all (v ∷ rest) = merge_rest v rest

contains-append :
    (t : TypeId) (xs ys : Types)
    → variant_contains t (xs ++ ys) ≡ (variant_contains t xs || variant_contains t ys)
unfolding variant_contains
contains-append t [] ys = refl
contains-append t (x ∷ xs) ys = ground (arith, contains-append t xs ys)

or_true : (b : Bool) → (b || true) ≡ true
or_true true = refl
or_true false = refl

or_false : (b : Bool) → (b || false) ≡ b
or_false true = refl
or_false false = refl

or_assoc : (a b c : Bool) → ((a || b) || c) ≡ (a || (b || c))
or_assoc true b c = refl
or_assoc false b c = refl

contained :
    (t b : TypeId) (xs ys : Types)
    → variant_contains b xs ≡ true
    → (variant_contains t xs || variant_contains t ys)
      ≡ (variant_contains t xs || (t == b || variant_contains t ys))
contained t b xs ys e = elim (Bool-cases (t == b)) [
  | inl same ↦
      let here : variant_contains t xs ≡ true =
        ap (λ (u : TypeId). variant_contains u xs) ((==_iff t b).0 same) ∙ e in
      rw here
  | inr other ↦ rw other
]

-- A type is in the merged list exactly when it is in one of the two.
pub contains-merge_variants :
    (t : TypeId) (xs ys : Types)
    → variant_contains t (merge_variants xs ys) ≡ (variant_contains t xs || variant_contains t ys)
unfolding merge_variants variant_contains
contains-merge_variants t xs [] = ground arith
contains-merge_variants t xs (b ∷ ys) = elim (Bool-cases (variant_contains b xs)) [
  | inl e ↦ rw (e, contains-merge_variants t xs ys) (contained t b xs ys e)
  | inr e ↦
      rw (e, contains-merge_variants t (xs ++ b ∷ []) ys, contains-append t xs (b ∷ []))
        (ground arith)
]

unique-append :
    (xs : Types) (t : TypeId)
    → all_unique xs ≡ true
    → variant_contains t xs ≡ false
    → all_unique (xs ++ t ∷ []) ≡ true
unfolding all_unique variant_contains
unique-append [] t u h = refl
unique-append (x ∷ xs) t u h = ground (arith, unique-append xs t, contains-append x xs (t ∷ []))

-- The merged list has no duplicates if the first has none.
pub all_unique-merge_variants :
    (xs ys : Types) → all_unique xs ≡ true → all_unique (merge_variants xs ys) ≡ true
unfolding merge_variants
all_unique-merge_variants xs [] h = h
all_unique-merge_variants xs (b ∷ ys) h = elim (Bool-cases (variant_contains b xs)) [
  | inl e ↦ rw e (all_unique-merge_variants xs ys h)
  | inr e ↦ rw e (all_unique-merge_variants (xs ++ b ∷ []) ys (unique-append xs b h e))
]

-- What one more type makes of a merged list.
abbrev with_type : Types → TypeId → Types
with_type acc t = if variant_contains t acc then acc else acc ++ t ∷ []

merge_variants-snoc :
    (xs ys : Types) (t : TypeId)
    → merge_variants xs (ys ++ t ∷ []) ≡ with_type (merge_variants xs ys) t
unfolding merge_variants
merge_variants-snoc xs [] t = refl
merge_variants-snoc xs (y ∷ ys) t = merge_variants-snoc (with_type xs y) ys t

-- Merging may be regrouped.
pub merge_variants_assoc :
    (xs ys zs : Types)
    → merge_variants (merge_variants xs ys) zs ≡ merge_variants xs (merge_variants ys zs)
unfolding merge_variants
merge_variants_assoc xs ys [] = refl
merge_variants_assoc xs ys (z ∷ zs) = elim (Bool-cases (variant_contains z ys)) [
  | inl e ↦
      let there : variant_contains z (merge_variants xs ys) ≡ true =
        contains-merge_variants z xs ys ∙ rw e (or_true (variant_contains z xs)) in
      rw (e, there) (merge_variants_assoc xs ys zs)
  | inr e ↦
      ap (λ (m : Types). merge_variants m zs) (sym (merge_variants-snoc xs ys z))
      ∙ rw e (merge_variants_assoc xs (ys ++ z ∷ []) zs)
]

abbrev pub in_some : TypeId → List Types → Bool
in_some t [] = false
in_some t (v ∷ vs) = variant_contains t v || in_some t vs

contains-merge_rest :
    (t : TypeId) (v : Types) (vs : List Types)
    → variant_contains t (merge_rest v vs) ≡ (variant_contains t v || in_some t vs)
unfolding merge_rest
contains-merge_rest t v [] = sym (or_false (variant_contains t v))
contains-merge_rest t v (w ∷ vs) =
    rw (contains-merge_rest t (merge_variants v w) vs, contains-merge_variants t v w)
      (or_assoc (variant_contains t v) (variant_contains t w) (in_some t vs))

pub contains-merge_all :
    (t : TypeId) (vs : List Types) → variant_contains t (merge_all vs) ≡ in_some t vs
unfolding merge_all variant_contains
contains-merge_all t [] = refl
contains-merge_all t (v ∷ vs) = contains-merge_rest t v vs

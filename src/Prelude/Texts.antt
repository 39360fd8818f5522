-- ===== src/Prelude/Texts.antt =====
-- Equality of byte strings, membership in a list of them, and prefixes.
use demiplane.Prelude.{
  Bool, true, false, ◌&&◌, ◌||◌, ◌≡◌, refl, ◌∙◌, ap, ap₂, List, [], ◌∷◌, Text, ◌==◌, ==_iff,
  Bool-cases, inl, inr, arith,
}

unfoldable pub same_text : Text → Text → Bool
same_text [] [] = true
same_text [] (y ∷ ys) = false
same_text (x ∷ xs) [] = false
same_text (x ∷ xs) (y ∷ ys) = (x == y) && same_text xs ys

unfoldable pub starts_with : Text → Text → Bool
starts_with [] text = true
starts_with (c ∷ prefix) [] = false
starts_with (c ∷ prefix) (d ∷ text) = c == d && starts_with prefix text

pub same_text_refl : (t : Text) → same_text t t ≡ true
unfolding same_text
same_text_refl [] = refl
same_text_refl (c ∷ t) = ground (arith, same_text_refl t)

pub same_text_eq : (s t : Text) → same_text s t ≡ true → s ≡ t
unfolding same_text
same_text_eq [] [] h = refl
same_text_eq [] (y ∷ ys) h = absurd cc
same_text_eq (x ∷ xs) [] h = absurd cc
same_text_eq (x ∷ xs) (y ∷ ys) h = elim (Bool-cases (x == y)) [
  | inl e ↦ ap₂ ◌∷◌ ((==_iff x y).0 e) (same_text_eq xs ys (simp e at h))
  | inr e ↦ absurd (cc (simp e at h))
]

-- Texts up to a colon and after it.
abbrev pub one_of : Text → List Text → Bool
one_of t [] = false
one_of t (u ∷ us) = same_text t u || one_of t us

abbrev pub all_in : List Text → List Text → Bool
all_in [] us = true
all_in (t ∷ ts) us = one_of t us && all_in ts us

-- A text of a list is in every list that has the same texts.
pub one_of-all_in :
    (t : Text) (ts us : List Text) → all_in ts us ≡ true → one_of t us ≡ false → one_of t ts ≡ false
one_of-all_in t [] us h missing = refl
one_of-all_in t (u ∷ ts) us h missing = elim (Bool-cases (same_text t u)) [
  | inl e ↦
      let there : one_of t us ≡ true =
        ap (λ (v : Text). one_of v us) (same_text_eq t u e) ∙ ground (arith, h) in
      cc
  | inr e ↦ rw e (one_of-all_in t ts us (ground (arith, h)) missing)
]

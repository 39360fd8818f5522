-- ===== src/Prelude/Ranges.antt =====
-- Facts about every number of a small range, by evaluation.
use demiplane.Prelude.{
  ℕ, zero, suc, ◌<◌, ◌≡◌, Bool, true, false, if◌then◌else◌, arith, Bool-cases, inl, inr, ==_iff,
  ◌==◌,
}

unfoldable pub checks : (ℕ → Bool) → ℕ → Bool
checks test zero = true
checks test (suc k) = let earlier = checks test k in if test k then earlier else false

pub checks_all : (test : ℕ → Bool) (i k : ℕ) → checks test k ≡ true → i < k → test i ≡ true
unfolding checks
checks_all test i zero done below = absurd (omega arith)
checks_all test i (suc k) done below = elim (Bool-cases (i == k)) [
  | inl e ↦ simp ((==_iff i k).0 e) (ground arith)
  | inr e ↦ ground (arith, checks_all test i k)
]

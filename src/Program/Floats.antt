-- ===== src/Program/Floats.antt =====
-- The 8-bit numbers of pomagma/atlas/program.hpp.
use native.Mathlib.Nat.{lt_trans}
use pomagma.Prelude.{
  ℕ, zero, suc, ◌+◌, ◌-◌, ◌*◌, ◌/◌, ◌%◌, ◌^◌, ◌≤◌, ◌<◌, ◌≡◌, ◌⊎◌, inl, inr, arith,
}
use pomagma.Program.{eval_float53}

pow-pos : (n : ℕ) → 1 ≤ 2 ^ n
pow-pos zero = omega arith
pow-pos (suc n) = omega (arith, pow-pos n)

step_cases :
    (n : ℕ)
    → ((suc n / 32 ≡ n / 32) × (suc n % 32 ≡ suc (n % 32)))
      ⊎ ((suc n / 32 ≡ suc (n / 32)) × (suc n % 32 ≡ 0) × (n % 32 ≡ 31))
step_cases n = ground arith

same_exponent : (m p : ℕ) → 1 ≤ p → (m + 32) * p - 32 < (suc m + 32) * p - 32
same_exponent m p h = grind arith

next_exponent : (p : ℕ) → 1 ≤ p → 63 * p - 32 < 32 * (2 * p) - 32
next_exponent p h = omega arith

eval_float53-lt_suc : (n : ℕ) → eval_float53 n < eval_float53 (suc n)
unfolding eval_float53
eval_float53-lt_suc n = elim (step_cases n) [
  | inl (q, r) ↦ rw (q, r) (same_exponent (n % 32) (2 ^ (n / 32)) (pow-pos (n / 32)))
  | inr (q, r, last) ↦
      rw (q, r, last) (omega (arith, next_exponent (2 ^ (n / 32)) (pow-pos (n / 32))))
]

-- A greater code stands for a greater distance, so that no two codes stand for the same.
pub eval_float53-lt : (m n : ℕ) → m < n → eval_float53 m < eval_float53 n
eval_float53-lt m zero h = absurd (omega arith)
eval_float53-lt m (suc n) h = elim (le_cases m n (omega arith)) [
  | inl same ↦ rw same (eval_float53-lt_suc n)
  | inr less ↦ lt_trans (eval_float53-lt m n less) (eval_float53-lt_suc n)
]
  where
    le_cases : (a b : ℕ) → a ≤ b → (a ≡ b) ⊎ (a < b)
    le_cases a b le = ground arith

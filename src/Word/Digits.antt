-- ===== src/Word/Digits.antt =====
-- The native bit operations, one binary digit at a time.
use Prim.Native.Nat.{digits, bitwise, differ, bit_and, bit_or, bit_xor}
use Prim.Native.Nat.{bit_and-bitwise, bit_or-bitwise, bit_xor-bitwise}
use pomagma.Prelude.{
  ℕ, zero, suc, ◌+◌, ◌*◌, ◌/◌, ◌%◌, ◌≤◌, min, max, ◌≡◌, refl, ap, ◌⊎◌, inl, inr, arith,
}

module _ (rest : ℕ → ℕ) (op : ℕ → ℕ → ℕ) where
  -- Any fuel from the first number on gives the same digits.
  both_fuels : (k m a b : ℕ) → a ≤ k → a ≤ m → digits rest op k a b ≡ digits rest op m a b
  both_fuels zero zero a b h g = refl
  both_fuels (suc k) zero zero b h g = refl
  both_fuels zero (suc m) zero b h g = refl
  both_fuels (suc k) (suc m) zero b h g = refl
  both_fuels (suc k) zero (suc a) b h g = absurd (omega arith)
  both_fuels zero (suc m) (suc a) b h g = absurd (omega arith)
  both_fuels (suc k) (suc m) (suc a) b h g =
      ap (λ t. t * 2 + op (suc a % 2) (b % 2))
        (both_fuels k m (suc a / 2) (b / 2) (omega arith) (omega arith))

  lowest_digit :
      (a b : ℕ)
      → bitwise rest op (suc a) b ≡ bitwise rest op (suc a / 2) (b / 2) * 2 + op (suc a % 2) (b % 2)
  lowest_digit a b =
      ap (λ t. t * 2 + op (suc a % 2) (b % 2))
        (both_fuels a (suc a / 2) (suc a / 2) (b / 2) (omega arith) (omega arith))

pub parity : (b : ℕ) → (b % 2 ≡ 0) ⊎ (b % 2 ≡ 1)
parity b = grind arith

pub bit_and_digit : (a b : ℕ) → bit_and a b ≡ bit_and (a / 2) (b / 2) * 2 + min (a % 2) (b % 2)
bit_and_digit zero b = simp bit_and-bitwise (omega arith)
bit_and_digit (suc a) b = simp bit_and-bitwise (lowest_digit (λ y. 0) min a b)

pub bit_or_digit : (a b : ℕ) → bit_or a b ≡ bit_or (a / 2) (b / 2) * 2 + max (a % 2) (b % 2)
bit_or_digit zero b = simp bit_or-bitwise (omega arith)
bit_or_digit (suc a) b = simp bit_or-bitwise (lowest_digit (λ y. y) max a b)

pub bit_xor_digit : (a b : ℕ) → bit_xor a b ≡ bit_xor (a / 2) (b / 2) * 2 + differ (a % 2) (b % 2)
bit_xor_digit zero b =
    simp bit_xor-bitwise
      (elim (parity b) [ inl e ↦ rw e (omega arith) | inr e ↦ rw e (omega arith) ])
bit_xor_digit (suc a) b = simp bit_xor-bitwise (lowest_digit (λ y. y) differ a b)

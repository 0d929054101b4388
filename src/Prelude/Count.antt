-- ===== src/Prelude/Count.antt =====
-- How many of the numbers 0, ..., n - 1 pass a test.
use pomagma.Prelude.{
  ℕ, zero, suc, ◌+◌, ◌-◌, ◌≤◌, ◌<◌, ◌≡◌, refl, Bool, true, false, arith, ◌==◌, if◌then◌else◌,
  Bool-cases, inl, inr,
}

abbrev pub to_nat : Bool → ℕ
to_nat true = 1
to_nat false = 0

unfoldable pub count : ℕ → (ℕ → Bool) → ℕ
count zero p = 0
count (suc n) p = count n p + to_nat (p n)

pub count_congr : (n : ℕ) (p q : ℕ → Bool) → ((i : ℕ) → i < n → p i ≡ q i) → count n p ≡ count n q
unfolding count
count_congr zero p q h = refl
count_congr (suc n) p q h = rw (count_congr n p q (λ i k. h i (omega arith)), h n (omega arith))

pub count-le : (n : ℕ) (p : ℕ → Bool) → count n p ≤ n
unfolding count
count-le zero p = omega arith
count-le (suc n) p = ground (arith, count-le n p)

pub count-add : (n m : ℕ) (p : ℕ → Bool) → count (n + m) p ≡ count n p + count m (λ i. p (n + i))
unfolding count
count-add n zero p = let e : n + 0 ≡ n = omega arith in rw e (omega arith)
count-add n (suc m) p =
    let e : n + suc m ≡ suc (n + m) = omega arith in rw e (omega (arith, count-add n m p))

pub count_none : (n : ℕ) (p : ℕ → Bool) → ((i : ℕ) → i < n → p i ≡ false) → count n p ≡ 0
unfolding count
count_none zero p h = refl
count_none (suc n) p h =
    rw (h n (omega arith)) (omega (arith, count_none n p (λ i k. h i (omega arith))))

-- A test that fails from `n` on counts no more beyond `n`.
pub count_beyond :
    (n m : ℕ) (p : ℕ → Bool) → n ≤ m → ((i : ℕ) → n ≤ i → p i ≡ false) → count m p ≡ count n p
count_beyond n m p h out =
    let e : m ≡ n + (m - n) = omega arith in
    rw
      (
        e,
        count-add n (m - n) p,
        count_none (m - n) (λ i. p (n + i)) (λ i k. out (n + i) (omega arith)),
      )
      (omega arith)

-- Dropping one number that passes lowers the count by one.
pub count_drop :
    (n j : ℕ) (p q : ℕ → Bool)
    → j < n
    → p j ≡ true
    → ((i : ℕ) → q i ≡ (if i == j then false else p i))
    → count n p ≡ suc (count n q)
unfolding count
count_drop zero j p q h pj drop = absurd (omega arith)
count_drop (suc n) j p q h pj drop = elim (Bool-cases (j == n)) [
  | inl e ↦ ground (arith, drop n, count_congr n p q (λ i k. ground (arith, drop i)))
  | inr e ↦ ground (arith, drop n, count_drop n j p q (ground arith) pj drop)
]

-- Fewer than `n` numbers below `n` pass: one of them fails.
pub find_failing : (n : ℕ) (p : ℕ → Bool) → count n p < n → (i : ℕ) × (i < n) × (p i ≡ false)
unfolding count
find_failing zero p h = absurd (omega arith)
find_failing (suc n) p h = elim (Bool-cases (p n)) [
  | inr e ↦ (n, omega arith, e)
  | inl e ↦ let (i, k, f) = find_failing n p (ground arith) in (i, omega arith, f)
]

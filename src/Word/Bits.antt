-- ===== src/Word/Bits.antt =====
-- What each operation on words does to one bit.
use Prim.Native.Nat.{bit_and, bit_or, bit_xor, bit_and-bitwise, bit_or-bitwise}
use native.Mathlib.Nat.{pow-suc, one-le-pow}
use pomagma.Prelude.{
  sym, ap, ◌∙◌, ◌+◌, ℕ, zero, suc, ◌-◌, ◌*◌, ◌/◌, ◌%◌, ◌^◌, ◌≤◌, ◌<◌, ◌≡◌, refl, Bool, false, not,
  ◌&&◌, ◌||◌, ◌==◌, if◌then◌else◌, arith,
}
use pomagma.Word.Digits.{parity, bit_and_digit, bit_or_digit, bit_xor_digit}

zero-bit_and : (b : ℕ) → bit_and 0 b ≡ 0
zero-bit_and b = bit_and-bitwise 0 b

zero-bit_or : (b : ℕ) → bit_or 0 b ≡ b
zero-bit_or b = bit_or-bitwise 0 b

bit_xor-zero_below : (n a : ℕ) → a ≤ n → bit_xor a 0 ≡ a
bit_xor-zero_below n zero h = refl
bit_xor-zero_below zero (suc a) h = absurd (omega arith)
bit_xor-zero_below (suc n) (suc a) h =
    ground (
      arith,
      bit_xor_digit (suc a) 0,
      parity (suc a),
      bit_xor-zero_below n (suc a / 2) (omega arith),
    )

bit_xor-zero : (a : ℕ) → bit_xor a 0 ≡ a
bit_xor-zero a = bit_xor-zero_below a a (omega arith)

-- Bit `i` of a word.
unfoldable pub get_bit : ℕ → ℕ → Bool
get_bit w zero = w % 2 == 1
get_bit w (suc i) = get_bit (w / 2) i

pub get_bit-bit_and : (a b i : ℕ) → get_bit (bit_and a b) i ≡ (get_bit a i && get_bit b i)
unfolding get_bit
get_bit-bit_and a b zero = ground (arith, bit_and_digit a b, parity a, parity b)
get_bit-bit_and a b (suc i) =
    let e : bit_and a b / 2 ≡ bit_and (a / 2) (b / 2) = omega (arith, bit_and_digit a b) in
    rw e (get_bit-bit_and (a / 2) (b / 2) i)

pub get_bit-bit_or : (a b i : ℕ) → get_bit (bit_or a b) i ≡ (get_bit a i || get_bit b i)
unfolding get_bit
get_bit-bit_or a b zero = ground (arith, bit_or_digit a b, parity a, parity b)
get_bit-bit_or a b (suc i) =
    let e : bit_or a b / 2 ≡ bit_or (a / 2) (b / 2) = omega (arith, bit_or_digit a b) in
    rw e (get_bit-bit_or (a / 2) (b / 2) i)

-- `2 ^ n - 1 - w`, at every width
pub get_bit_complement :
    (n w i : ℕ) → w < 2 ^ n → i < n → get_bit (2 ^ n - 1 - w) i ≡ not (get_bit w i)
unfolding get_bit
get_bit_complement (suc n) w zero h k = ground (arith, pow-suc 2 n, one-le-pow n 2, parity w)
get_bit_complement (suc n) w (suc i) h k =
    let e : (2 ^ suc n - 1 - w) / 2 ≡ 2 ^ n - 1 - w / 2 = omega (arith, pow-suc 2 n) in
    rw e (get_bit_complement n (w / 2) i (omega (arith, pow-suc 2 n)) (omega arith))
get_bit_complement zero w i h k = absurd (omega arith)

pub get_bit-zero : (i : ℕ) → get_bit 0 i ≡ false
unfolding get_bit
get_bit-zero zero = refl
get_bit-zero (suc i) = get_bit-zero i

pub get_bit-pow : (k i : ℕ) → get_bit (2 ^ k) i ≡ (k == i)
unfolding get_bit
get_bit-pow zero zero = refl
get_bit-pow zero (suc i) = ground (arith, get_bit-zero i)
get_bit-pow (suc k) zero = ground (arith, pow-suc 2 k)
get_bit-pow (suc k) (suc i) =
    let e : 2 ^ suc k / 2 ≡ 2 ^ k = omega (arith, pow-suc 2 k) in
    rw e (ground (arith, get_bit-pow k i))

-- A word is the number that its bits make.
pub eq_of_bits :
    (n a b : ℕ) → a < 2 ^ n → b < 2 ^ n → ((i : ℕ) → i < n → get_bit a i ≡ get_bit b i) → a ≡ b
unfolding get_bit
eq_of_bits zero a b h k same = omega arith
eq_of_bits (suc n) a b h k same =
    let e =
      eq_of_bits n (a / 2) (b / 2) (omega (arith, pow-suc 2 n)) (omega (arith, pow-suc 2 n))
        (λ i p. same (suc i) (omega arith)) in
    ground (arith, same 0 (omega arith), parity a, parity b, e)

-- No bit from `n` on is set in a number below `2 ^ n`.
pub get_bit_high : (n w i : ℕ) → w < 2 ^ n → n ≤ i → get_bit w i ≡ false
unfolding get_bit
get_bit_high zero w i h k = let e : w ≡ 0 = omega arith in rw e (get_bit-zero i)
get_bit_high (suc n) w zero h k = absurd (omega arith)
get_bit_high (suc n) w (suc i) h k =
    get_bit_high n (w / 2) i (omega (arith, pow-suc 2 n)) (omega arith)

bit_xor_one : (a : ℕ) → bit_xor a 1 ≡ a / 2 * 2 + (1 - a % 2)
bit_xor_one a = ground (arith, bit_xor_digit a 1, parity a, bit_xor-zero (a / 2))

-- `a ^ 1` turns the lowest bit and keeps the others.
pub get_bit-bit_xor_one :
    (a i : ℕ) → get_bit (bit_xor a 1) i ≡ (if i == 0 then not (get_bit a i) else get_bit a i)
unfolding get_bit
get_bit-bit_xor_one a zero = ground (arith, bit_xor_digit a 1, parity a)
get_bit-bit_xor_one a (suc i) =
    let e : bit_xor a 1 / 2 ≡ a / 2 = omega (arith, bit_xor_one a) in rw e (ground arith)

pub bit_and-lt : (n a b : ℕ) → a < 2 ^ n → bit_and a b < 2 ^ n
bit_and-lt zero a b h = let e : a ≡ 0 = omega arith in rw e (omega (arith, zero-bit_and b))
bit_and-lt (suc n) a b h = omega (
  arith,
  bit_and_digit a b,
  pow-suc 2 n,
  bit_and-lt n (a / 2) (b / 2) (omega (arith, pow-suc 2 n)),
)

pub bit_or-lt : (n a b : ℕ) → a < 2 ^ n → b < 2 ^ n → bit_or a b < 2 ^ n
bit_or-lt zero a b h k = let e : a ≡ 0 = omega arith in rw e (omega (arith, zero-bit_or b))
bit_or-lt (suc n) a b h k = omega (
  arith,
  bit_or_digit a b,
  pow-suc 2 n,
  bit_or-lt n (a / 2) (b / 2) (omega (arith, pow-suc 2 n)) (omega (arith, pow-suc 2 n)),
)

pub bit_xor_one-lt : (n a : ℕ) → a < 2 ^ suc n → bit_xor a 1 < 2 ^ suc n
bit_xor_one-lt n a h = omega (arith, bit_xor_one a, pow-suc 2 n)

-- `a | b` is zero exactly when both are.
le-bit_or_below : (n a b : ℕ) → a ≤ n → a ≤ bit_or a b
le-bit_or_below n zero b h = omega arith
le-bit_or_below zero (suc a) b h = absurd (omega arith)
le-bit_or_below (suc n) (suc a) b h =
    omega (arith, bit_or_digit (suc a) b, le-bit_or_below n (suc a / 2) (b / 2) (omega arith))

zero_of_bit_or : (a b : ℕ) → bit_or a b ≡ 0 → a ≡ 0
zero_of_bit_or a b h = omega (arith, le-bit_or_below a a b (omega arith))

pub bit_or-eq-zero : (a b : ℕ) → bit_or a b ≡ 0 → (a ≡ 0) × (b ≡ 0)
bit_or-eq-zero a b h =
    let left = zero_of_bit_or a b h in
    (left, sym (zero-bit_or b) ∙ ap (λ t. bit_or t b) (sym left) ∙ h)

pub bit_or_zeros : bit_or 0 0 ≡ 0
bit_or_zeros = zero-bit_or 0

bit_and-zero_below : (n a : ℕ) → a ≤ n → bit_and a 0 ≡ 0
bit_and-zero_below n zero h = refl
bit_and-zero_below zero (suc a) h = absurd (omega arith)
bit_and-zero_below (suc n) (suc a) h =
    omega (arith, bit_and_digit (suc a) 0, bit_and-zero_below n (suc a / 2) (omega arith))

pub bit_and-zero : (a : ℕ) → bit_and a 0 ≡ 0
bit_and-zero a = bit_and-zero_below a a (omega arith)

pub bit_and-one : (a : ℕ) → bit_and a 1 ≡ a % 2
bit_and-one a = omega (arith, bit_and_digit a 1, bit_and-zero (a / 2))

-- `a & (1 << i)` and `(1 << i) & a` are the mask or zero.
pub bit_and-pow : (w i : ℕ) → bit_and w (2 ^ i) ≡ (if get_bit w i then 2 ^ i else 0)
unfolding get_bit
bit_and-pow w zero = ground (arith, bit_and-one w, parity w)
bit_and-pow w (suc i) =
    ground (arith, bit_and_digit w (2 ^ suc i), pow-suc 2 i, bit_and-pow (w / 2) i)

pub pow-bit_and : (w i : ℕ) → bit_and (2 ^ i) w ≡ (if get_bit w i then 2 ^ i else 0)
unfolding get_bit
pow-bit_and w zero = ground (arith, bit_and_digit 1 w, zero-bit_and (w / 2), parity w)
pow-bit_and w (suc i) =
    ground (arith, bit_and_digit (2 ^ suc i) w, pow-suc 2 i, pow-bit_and (w / 2) i)

-- ===== src/Word/Ref.antt =====
-- bool_ref: a reference to one bit reads and writes that bit only.
use native.Mathlib.Nat.{pow-suc, one-le-pow, pow-le-pow_right}
use pomagma.Prelude.{ℕ, suc, ◌^◌, ◌<◌, ◌≡◌, true, false, not, ◌==◌, if◌then◌else◌, arith}
use pomagma.Word.{mask, load, zero_bit, one_bit, complement, word_mod}
use pomagma.Word.Bits.{
  get_bit, get_bit-bit_and, get_bit-bit_or, bit_and-lt, bit_or-lt, bit_and-pow, get_bit-pow,
  get_bit_complement,
}

-- A mask is a word.
pub mask-lt : (i : ℕ) → i < 64 → mask i < word_mod
mask-lt i h =
    omega (arith, pow-suc 2 i, pow-le-pow_right {n = 2} (omega arith) {i = suc i} {j = 64} h)

-- `load` reads the bit of the mask.
pub load-eq-get_bit : (w i : ℕ) → load w i ≡ get_bit w i
unfolding load
load-eq-get_bit w i = ground (arith, bit_and-pow w i, one-le-pow i 2)

pub get_bit-one_bit : (w i j : ℕ) → get_bit (one_bit w i) j ≡ (if i == j then true else get_bit w j)
unfolding one_bit
get_bit-one_bit w i j = ground (arith, get_bit-bit_or w (2 ^ i) j, get_bit-pow i j)

pub get_bit-complement :
    (w i : ℕ) → w < word_mod → i < 64 → get_bit (complement w) i ≡ not (get_bit w i)
get_bit-complement w i h k = get_bit_complement 64 w i h k

pub get_bit-zero_bit :
    (w i j : ℕ)
    → i < 64
    → j < 64
    → get_bit (zero_bit w i) j ≡ (if i == j then false else get_bit w j)
unfolding zero_bit
get_bit-zero_bit w i j h k = ground (
  arith,
  get_bit-bit_and w (complement (2 ^ i)) j,
  get_bit-complement (2 ^ i) j (mask-lt i h) k,
  get_bit-pow i j,
)

pub one_bit-lt : (w i : ℕ) → w < word_mod → i < 64 → one_bit w i < word_mod
unfolding one_bit
one_bit-lt w i h k = bit_or-lt 64 w (mask i) h (mask-lt i k)

pub zero_bit-lt : (w i : ℕ) → w < word_mod → zero_bit w i < word_mod
unfolding zero_bit
zero_bit-lt w i h = bit_and-lt 64 w (complement (mask i)) h

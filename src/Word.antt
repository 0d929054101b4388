-- ===== src/Word.antt =====
-- pomagma/util/util.hpp (Word and its constants) and pomagma/util/sequential/bool_ref.hpp:
-- 64-bit words as native numbers, and the reference to one bit of a word.
pub mod Digits
pub mod Bits
pub mod Ref
use Prim.Native.Nat.{bit_and, bit_or}
use pomagma.Prelude.{
  ℕ, ◌+◌, ◌-◌, ◌*◌, ◌/◌, ◌%◌, ◌^◌, Bool, true, not, ◌==◌, if◌then◌else◌, ◌≡◌, arith,
}

abbrev pub bits_per_word : ℕ
bits_per_word = 64

-- `word_mod` is one more than the largest `Word`.
abbrev pub word_mod : ℕ
word_mod = 2 ^ 64

abbrev pub full_word : ℕ
full_word = word_mod - 1

-- `~word`
abbrev pub complement : ℕ → ℕ
complement w = full_word - w

-- `Word(1) << i`, which the code takes at `i < 64` only
abbrev pub mask : ℕ → ℕ
mask i = 2 ^ i

-- `bool_ref::load`
unfoldable pub load : ℕ → ℕ → Bool
load w i = not (bit_and w (mask i) == 0)

-- `bool_ref::zero` and `bool_ref::one`, with the word that they leave
unfoldable pub zero_bit : ℕ → ℕ → ℕ
zero_bit w i = bit_and w (complement (mask i))

unfoldable pub one_bit : ℕ → ℕ → ℕ
one_bit w i = bit_or w (mask i)

-- `bool_ref::operator|=` and `bool_ref::operator&=`
unfoldable pub or_bit : ℕ → ℕ → Bool → ℕ
or_bit w i b = bit_or w (if b then mask i else 0)

unfoldable pub and_bit : ℕ → ℕ → Bool → ℕ
and_bit w i b = bit_and w (complement (if b then 0 else mask i))

-- `bool_ref::fetch_zero` and `bool_ref::fetch_one`: the bit that was there, and the new word
unfoldable pub fetch_zero : ℕ → ℕ → Bool × ℕ
unfolding load zero_bit
fetch_zero w i = (load w i, zero_bit w i)

unfoldable pub fetch_one : ℕ → ℕ → Bool × ℕ
unfolding load one_bit
fetch_one w i = (load w i, one_bit w i)

-- `++n` and `--n` of a `size_t`
abbrev pub inc_size : ℕ → ℕ
inc_size n = (n + 1) % word_mod

abbrev pub dec_size : ℕ → ℕ
dec_size n = (n + word_mod - 1) % word_mod

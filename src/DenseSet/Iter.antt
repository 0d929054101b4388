-- ===== src/DenseSet/Iter.antt =====
-- dense_set.hpp: Intersection and SetIterator. The words that an iterator reads are those of
-- `get_word(0)`, ..., `get_word(word_dim - 1)`; its state holds the words after the current one, so
-- that `++m_quot == m_set.word_dim()` says that none is left.
use Prim.Native.Nat.{bit_and}
use pomagma.Prelude.{
  ℕ, zero, suc, ◌+◌, ◌*◌, ◌/◌, ◌%◌, List, [], ◌∷◌, ◌==◌, if◌then◌else◌, Option, none, some,
}
use mathlib.Core.Option
use pomagma.Word.{bits_per_word}
use pomagma.DenseSet.Whole.{zip_words, and_not}

-- The words of `Intersection<pos, neg>`: the first set's, cut by the other positive and by the
-- negative ones.
unfoldable pub cut_words : (ℕ → ℕ → ℕ) → List ℕ → List (List ℕ) → List ℕ
cut_words f ws [] = ws
cut_words f ws (us ∷ rest) = cut_words f (zip_words f ws us) rest

unfoldable pub intersection : List ℕ → List (List ℕ) → List (List ℕ) → List ℕ
unfolding cut_words
intersection first pos neg = cut_words and_not (cut_words bit_and first pos) neg

pub record SetIterator : Type 0 where
  pub i : ℕ
  pub rem : ℕ
  pub quot : ℕ
  pub word : ℕ
  pub rest : List ℕ

abbrev pub done : SetIterator
done = record { i = 0; rem = 0; quot = 0; word = 0; rest = [] }

-- `for (m_rem = 0; !(m_word & 1); ++m_rem, m_word >>= 1)`: the bit and the shifted word
unfoldable pub first_bit : ℕ → ℕ → ℕ → Option (ℕ × ℕ)
first_bit zero rem word = none
first_bit (suc fuel) rem word =
    let later = first_bit fuel (rem + 1) (word / 2) in
    if bit_and word 1 == 1 then some (rem, word) else later

-- `_next_block` from the word with index `quot` on
unfoldable pub next_block : ℕ → List ℕ → Option SetIterator
next_block quot [] = some done
next_block quot (w ∷ ws) =
    let later = next_block (quot + 1) ws in
    if w == 0 then later else elim (first_bit bits_per_word 0 w) [
      | none ↦ none
      | some (rem, word) ↦ some (record {
        i = rem + bits_per_word * quot;
        rem = rem;
        quot = quot;
        word = word;
        rest = ws;
      })
    ]

-- `next`: the rest of the word, then the next block. Bit 64 is reached after 64 rounds.
unfoldable pub next_bit : ℕ → ℕ → ℕ → ℕ → List ℕ → Option SetIterator
next_bit zero rem quot word rest = none
next_bit (suc fuel) rem quot word rest =
    let later = next_bit fuel (rem + 1) quot (word / 2) rest in
    if (rem + 1) % bits_per_word == 0
    then next_block (quot + 1) rest
    else if bit_and (word / 2) 1 == 1
    then some (record {
      i = rem + 1 + bits_per_word * quot;
      rem = rem + 1;
      quot = quot;
      word = word / 2;
      rest = rest;
    })
    else later

unfoldable pub next : SetIterator → Option SetIterator
next it = next_bit bits_per_word it.rem it.quot it.word it.rest

unfoldable pub iter_words : List ℕ → Option SetIterator
iter_words ws = next_block 0 ws

-- `for (auto iter = ...; iter.ok(); iter.next())`: the values of `*iter`, in order
unfoldable pub visit : ℕ → SetIterator → Option (List ℕ)
visit zero it = none
visit (suc fuel) it =
    let later : Option (List ℕ) = elim (next it) [ none ↦ none | some it' ↦ visit fuel it' ] in
    if it.i == 0 then some [] else Option.map (◌∷◌ it.i) later

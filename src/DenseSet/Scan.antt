-- ===== src/DenseSet/Scan.antt =====
-- dense_set.cpp: the operations that walk over the bits of the words.
use Prim.Native.Nat.{bit_and, bit_or, bit_xor}
use pomagma.Prelude.{
  ℕ, zero, suc, ◌+◌, ◌-◌, ◌*◌, ◌/◌, ◌%◌, ◌^◌, List, [], ◌∷◌, Bool, true, not, ◌&&◌, ◌==◌,
  if◌then◌else◌, Option, none, some, get_or, set, replicate,
}
use pomagma.Word.{bits_per_word, word_mod, full_word, complement}
use pomagma.DenseSet.{DenseSet, word_dim}

-- `for (word = m_words[m]; word; word >>= 1) result += word & 1`. A word is zero after 64 shifts.
unfoldable pub count_word : ℕ → ℕ → ℕ → ℕ
count_word zero word result = result
count_word (suc fuel) word result =
    let rest = count_word fuel (word / 2) (result + bit_and word 1) in
    if word == 0 then result else rest

unfoldable pub count_words : List ℕ → ℕ → ℕ
unfolding count_word
count_words [] result = result
count_words (w ∷ ws) result = count_words ws (count_word bits_per_word w result)

unfoldable pub count_items : DenseSet → ℕ
unfolding count_words
count_items s = count_words s.words 0

-- The index of the last nonzero word from 1 on, or 0.
unfoldable pub last_word : List ℕ → ℕ → ℕ → ℕ
last_word [] m max_word = max_word
last_word (w ∷ ws) m max_word = last_word ws (m + 1) (if not (w == 0) then m else max_word)

abbrev pub rest_words : List ℕ → List ℕ
rest_words [] = []
rest_words (w ∷ ws) = ws

-- `while (word >>= 1) ++max_bit`
unfoldable pub top_bit : ℕ → ℕ → ℕ → ℕ
top_bit zero word max_bit = max_bit
top_bit (suc fuel) word max_bit =
    let rest = top_bit fuel (word / 2) (max_bit + 1) in if word / 2 == 0 then max_bit else rest

unfoldable pub max_item : DenseSet → ℕ
unfolding last_word top_bit
max_item s =
    let max_word = last_word (rest_words s.words) 1 0 in
    bits_per_word * max_word + top_bit bits_per_word (get_or s.words max_word 0) 0

-- `m_words[m] = f(m_words[m])` at one index
abbrev pub modify : List ℕ → ℕ → (ℕ → ℕ) → List ℕ
modify ws m f = set ws m (f (get_or ws m 0))

-- `POMAGMA_ASSERT` in `validate`: word 0 holds no item 0, and no bit past item_dim is set.
unfoldable pub validate : DenseSet → Bool
validate s =
    let end = (s.item_dim + 1) % bits_per_word in
    let last = get_or s.words (word_dim s - 1) 0 in
    (bit_and (get_or s.words 0 0) 1 == 0) && (if end == 0 then true else (last / 2 ^ end == 0))

-- `insert_all`: full words, the last one cut to item_dim, and no item 0
unfoldable pub insert_all : DenseSet → DenseSet
insert_all s =
    let end = (s.item_dim + 1) % bits_per_word in
    let full = replicate (word_dim s) full_word in
    let cut =
      if end == 0
      then full
      else set full (word_dim s - 1) (full_word / 2 ^ (bits_per_word - end)) in
    record s { words = modify cut 0 (λ w. bit_xor w 1) }

-- `ensure_padding_bits_are_zero`
unfoldable pub ensure_padding_bits_are_zero : DenseSet → DenseSet
ensure_padding_bits_are_zero s =
    let end = (s.item_dim + 1) % bits_per_word in
    let first = modify s.words 0 (λ w. bit_and w (full_word * 2 % word_mod)) in
    record s {
      words =
          if end == 0
          then first
          else modify first (word_dim s - 1)
              (λ w. bit_and w (full_word / 2 ^ (bits_per_word - end)));
    }

-- `while (!~*word) ++word`: the index of the first word with a zero bit. `none` stands for a read
-- past the end of the array.
unfoldable pub free_word : List ℕ → ℕ → Option ℕ
free_word [] q = none
free_word (w ∷ ws) q = if complement w == 0 then free_word ws (q + 1) else some q

-- `while (!(mask & free)) { mask <<= 1; ++ob; }`, with the mask and the item at the end. The mask
-- has left the word after 64 rounds.
unfoldable pub free_bit : ℕ → ℕ → ℕ → ℕ → Option (ℕ × ℕ)
free_bit zero free mask ob = none
free_bit (suc fuel) free mask ob =
    let rest = free_bit fuel free (mask * 2 % word_mod) (ob + 1) in
    if bit_and mask free == 0 then rest else some (mask, ob)

-- `insert_one`: the least item that is not in the set, and the set with it
unfoldable pub insert_one : DenseSet → Option (ℕ × DenseSet)
insert_one s =
    let flipped = modify s.words 0 (λ w. bit_xor w 1) in
    elim (free_word flipped 0) [
      | none ↦ none
      | some q ↦
          let word = get_or flipped q 0 in
          elim (free_bit bits_per_word (complement word) 1 (bits_per_word * q)) [
            | none ↦ none
            | some (mask, ob) ↦
                let filled = set flipped q (bit_or word mask) in
                some (ob, record s { words = modify filled 0 (λ w. bit_xor w 1) })
          ]
    ]

-- ===== src/DenseSet/Size.antt =====
-- dense_set.cpp, count_items: it counts the items.
use Prim.Native.Nat.{bit_and}
use native.Mathlib.Nat.{pow-suc}
use pomagma.Prelude.{
  ℕ, zero, suc, ◌+◌, ◌*◌, ◌/◌, ◌%◌, ◌^◌, ◌≤◌, ◌<◌, ◌≡◌, sym, List, [], ◌∷◌, Bool, false, ◌==◌,
  get_or, length, arith, Bool-cases, inl, inr, ==_iff,
}
use pomagma.Prelude.Count.{count, count_congr, count-add, count_beyond, count_none}
use pomagma.Word.Digits.{parity}
use pomagma.Word.Bits.{get_bit, get_bit-zero, bit_and-one}
use pomagma.DenseSet.{DenseSet, contains, IsValid}
use pomagma.DenseSet.Element.{contains-eq-get_bit}
use pomagma.DenseSet.Scan.{count_word, count_words, count_items}

-- The first bit of a count is the lowest digit.
count_shift : (n w : ℕ) → count (suc n) (get_bit w) ≡ w % 2 + count n (get_bit (w / 2))
unfolding get_bit count
count_shift zero w = ground (arith, parity w)
count_shift (suc n) w = omega (arith, count_shift n w)

count-zero : (n : ℕ) → count n (get_bit 0) ≡ 0
count-zero n = count_none n (get_bit 0) (λ i h. get_bit-zero i)

-- `n` shifts count the bits of a word below `2 ^ n`.
count_word_lem : (n w r : ℕ) → w < 2 ^ n → count_word n w r ≡ r + count n (get_bit w)
unfolding count_word
count_word_lem zero w r h = unfold count in omega arith
count_word_lem (suc n) w r h = elim (Bool-cases (w == 0)) [
  | inl z ↦ rw ((==_iff w 0).0 z) (omega (arith, count-zero (suc n)))
  | inr z ↦ rw z (
      omega (
        arith,
        count_word_lem n (w / 2) (r + bit_and w 1) (omega (arith, pow-suc 2 n)),
        count_shift n w,
        bit_and-one w,
      ))
]

-- The items of an array, as bits of its words.
abbrev bit_at : List ℕ → ℕ → Bool
bit_at ws i = get_bit (get_or ws (i / 64) 0) (i % 64)

count_words_lem :
    (ws : List ℕ) (r : ℕ)
    → ((q : ℕ) → get_or ws q 0 < 2 ^ 64)
    → count_words ws r ≡ r + count (64 * length ws) (bit_at ws)
unfolding count_words
count_words_lem [] r h = unfold count in omega arith
count_words_lem (w ∷ ws) r h =
    let e : 64 * suc (length ws) ≡ 64 + 64 * length ws = omega arith in
    let first : count 64 (bit_at (w ∷ ws)) ≡ count 64 (get_bit w) =
      count_congr 64 (bit_at (w ∷ ws)) (get_bit w) (λ i k. low_bit i k) in
    let others : count (64 * length ws) (λ i. bit_at (w ∷ ws) (64 + i))
        ≡ count (64 * length ws) (bit_at ws) =
      count_congr (64 * length ws) (λ i. bit_at (w ∷ ws) (64 + i)) (bit_at ws)
        (λ i k. high_bit i) in
    rw (e, count-add 64 (64 * length ws) (bit_at (w ∷ ws)), first, others)
      (omega (
        arith,
        count_words_lem ws (count_word 64 w r) (λ q. h (suc q)),
        count_word_lem 64 w r (h 0),
      ))
  where
    low_bit : (i : ℕ) → i < 64 → bit_at (w ∷ ws) i ≡ get_bit w i
    low_bit i k =
        let quot : i / 64 ≡ 0 = omega arith in let rem : i % 64 ≡ i = omega arith in rw (quot, rem)

    high_bit : (i : ℕ) → bit_at (w ∷ ws) (64 + i) ≡ bit_at ws i
    high_bit i =
        let quot : (64 + i) / 64 ≡ suc (i / 64) = omega arith in
        let rem : (64 + i) % 64 ≡ i % 64 = omega arith in rw (quot, rem)

-- `count_items` is the number of the items 1, ..., item_dim in the set.
pub count_items_lem :
    {s : DenseSet} → IsValid s → count_items s ≡ count (s.item_dim + 1) (contains s)
unfolding count_items
count_items_lem {s} v =
    let all = count_words_lem s.words 0 v.small in
    let same =
      count_congr (64 * length s.words) (bit_at s.words) (contains s)
        (λ i k. sym (contains-eq-get_bit s i)) in
    let cut =
      count_beyond (s.item_dim + 1) (64 * length s.words) (contains s) (omega (arith, v.sized))
        (λ i k. beyond i k) in
    omega (arith, all, same, cut)
  where
    beyond : (i : ℕ) → s.item_dim + 1 ≤ i → contains s i ≡ false
    beyond i k = elim (Bool-cases (contains s i)) [
      | inl e ↦ absurd (omega (arith, (v.ranged i e).1))
      | inr e ↦ e
    ]

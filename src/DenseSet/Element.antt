-- ===== src/DenseSet/Element.antt =====
-- The operations on single items against membership.
use pomagma.Prelude.{
  ℕ, suc, ◌+◌, ◌*◌, ◌/◌, ◌%◌, ◌≤◌, ◌<◌, ◌≡◌, refl, sym, ◌∙◌, ap, List, [], ◌∷◌, true, false, not,
  ◌==◌, if◌then◌else◌, get_or, length, get_or-set, get_or-replicate, length-set, length-replicate,
  arith,
}
use mathlib.Core.Path.{ap₂}
use pomagma.Word.{fetch_zero, fetch_one, zero_bit, one_bit}
use pomagma.Word.Bits.{get_bit, eq_of_bits, get_bit-zero}
use pomagma.Word.Ref.{load-eq-get_bit, get_bit-one_bit, get_bit-zero_bit, one_bit-lt, zero_bit-lt}
use pomagma.DenseSet.{
  DenseSet, items_to_words, new, contains, raw_insert, insert, try_insert, raw_remove, remove,
  try_remove, IsValid,
}

-- Membership is a bit of a word.
pub contains-eq-get_bit :
    (s : DenseSet) (i : ℕ) → contains s i ≡ get_bit (get_or s.words (i / 64) 0) (i % 64)
unfolding contains
contains-eq-get_bit s i = load-eq-get_bit (get_or s.words (i / 64) 0) (i % 64)

-- Bit `t` of word `q` is the item `64 * q + t`.
pub contains_at :
    (s : DenseSet) (q t i : ℕ)
    → i ≡ 64 * q + t
    → t < 64
    → contains s i ≡ get_bit (get_or s.words q 0) t
contains_at s q t i e h =
    let quot : i / 64 ≡ q = omega arith in
    let rem : i % 64 ≡ t = omega arith in rw (contains-eq-get_bit s i, quot, rem)

pub contains-new : (n i : ℕ) → contains (new n) i ≡ false
unfolding new
contains-new n i =
    rw (contains-eq-get_bit, get_or-replicate {A = ℕ} (items_to_words n) (i / 64) 0)
      (get_bit-zero (i % 64))

pub new-IsValid : (n : ℕ) → IsValid (new n)
unfolding new
new-IsValid n = record {
  sized = length-replicate (items_to_words n) 0;
  small = λ q. rw (get_or-replicate {A = ℕ} (items_to_words n) q 0) (omega arith);
  ranged = λ i h. ground (arith, contains-new n i);
}

-- An item in range has its word.
word_in_range : {s : DenseSet} (i : ℕ) → IsValid s → i ≤ s.item_dim → i / 64 < length s.words
word_in_range i v h = omega (arith, v.sized)

module _ {s : DenseSet} (v : IsValid s) (i : ℕ) (h : i ≤ s.item_dim) where
  pub contains-insert : (j : ℕ) → contains (insert s i) j ≡ (if i == j then true else contains s j)
  unfolding insert
  contains-insert j =
      rw (contains-eq-get_bit (insert s i) j, contains-eq-get_bit s j)
        (ground (
          arith,
          get_or-set s.words (i / 64) (j / 64) (one_bit (get_or s.words (i / 64) 0) (i % 64)) 0
              (word_in_range i v h),
          get_bit-one_bit (get_or s.words (i / 64) 0) (i % 64) (j % 64),
        ))

  pub contains-remove : (j : ℕ) → contains (remove s i) j ≡ (if i == j then false else contains s j)
  unfolding remove
  contains-remove j =
      rw (contains-eq-get_bit (remove s i) j, contains-eq-get_bit s j)
        (ground (
          arith,
          get_or-set s.words (i / 64) (j / 64) (zero_bit (get_or s.words (i / 64) 0) (i % 64)) 0
              (word_in_range i v h),
          get_bit-zero_bit (get_or s.words (i / 64) 0) (i % 64) (j % 64),
        ))

  pub insert-IsValid : 1 ≤ i → IsValid (insert s i)
  unfolding insert
  insert-IsValid pos = record {
    sized = rw length-set v.sized;
    small = λ q. ground (
      arith,
      get_or-set s.words (i / 64) q (one_bit (get_or s.words (i / 64) 0) (i % 64)) 0
          (word_in_range i v h),
      one_bit-lt (get_or s.words (i / 64) 0) (i % 64) (v.small (i / 64)) (omega arith),
      v.small q,
    );
    ranged = λ j e. ground (arith, contains-insert j, v.ranged j);
  }

  pub remove-IsValid : IsValid (remove s i)
  unfolding remove
  remove-IsValid = record {
    sized = rw length-set v.sized;
    small = λ q. ground (
      arith,
      get_or-set s.words (i / 64) q (zero_bit (get_or s.words (i / 64) 0) (i % 64)) 0
          (word_in_range i v h),
      zero_bit-lt (get_or s.words (i / 64) 0) (i % 64) (v.small (i / 64)),
      v.small q,
    );
    ranged = λ j e. ground (arith, contains-remove j, v.ranged j);
  }

-- The checked and the raw operations do the same in a release build.
pub raw_insert-eq-insert : (s : DenseSet) (i : ℕ) → raw_insert s i ≡ insert s i
unfolding raw_insert insert
raw_insert-eq-insert s i = refl

pub raw_remove-eq-remove : (s : DenseSet) (i : ℕ) → raw_remove s i ≡ remove s i
unfolding raw_remove remove
raw_remove-eq-remove s i = refl

pub try_insert_lem : (s : DenseSet) (i : ℕ) → try_insert s i ≡ (not (contains s i), insert s i)
unfolding try_insert insert contains fetch_one
try_insert_lem s i = refl

pub try_remove_lem : (s : DenseSet) (i : ℕ) → try_remove s i ≡ (contains s i, remove s i)
unfolding try_remove remove contains fetch_zero
try_remove_lem s i = refl

eq_of_get_or :
    (xs ys : List ℕ) → length xs ≡ length ys → ((q : ℕ) → get_or xs q 0 ≡ get_or ys q 0) → xs ≡ ys
eq_of_get_or [] [] h same = refl
eq_of_get_or [] (y ∷ ys) h same = absurd (omega arith)
eq_of_get_or (x ∷ xs) [] h same = absurd (omega arith)
eq_of_get_or (x ∷ xs) (y ∷ ys) h same =
    ap₂ ◌∷◌ (same 0) (eq_of_get_or xs ys (omega arith) (λ q. same (suc q)))

-- Two sets of one size with the same items are the same array.
pub ext :
    {s t : DenseSet}
    → IsValid s
    → IsValid t
    → s.item_dim ≡ t.item_dim
    → ((i : ℕ) → contains s i ≡ contains t i)
    → s ≡ t
ext {s} {t} v w e same = λ k. record {
  item_dim = e k;
  words = eq_of_get_or s.words t.words (v.sized ∙ ap items_to_words e ∙ sym w.sized) (same_word) k;
}
  where
    same_bit : (q i : ℕ) → i < 64 → get_bit (get_or s.words q 0) i ≡ get_bit (get_or t.words q 0) i
    same_bit q i h =
        let quot : (q * 64 + i) / 64 ≡ q = omega arith in
        let rem : (q * 64 + i) % 64 ≡ i = omega arith in
        let both = same (q * 64 + i) in
        rw (contains-eq-get_bit s (q * 64 + i), contains-eq-get_bit t (q * 64 + i), quot, rem) at
          both

    same_word : (q : ℕ) → get_or s.words q 0 ≡ get_or t.words q 0
    same_word q =
        eq_of_bits 64 (get_or s.words q 0) (get_or t.words q 0) (v.small q) (w.small q) (same_bit q)

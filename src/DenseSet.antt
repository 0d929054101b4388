-- ===== src/DenseSet.antt =====
-- pomagma/util/sequential/dense_set.hpp and dense_set.cpp: a set of items 1, ..., item_dim as an
-- array of 64-bit words. Here are the class and its operations on single items; the operations on
-- whole sets are in the children. The assertions of the code are compiled out at the release
-- build's debug level, so they are no part of the operations; the laws take them as hypotheses.
-- `contains` and the other accessors read 0 past the array's end, which a valid set never meets.
pub mod Whole
pub mod Element
pub mod Algebra
pub mod Order
pub mod Sets
pub mod Scan
pub mod Iter
pub mod Visit
pub mod Items
pub mod Size
pub mod Max
pub mod Free
pub mod Flip
pub mod InsertOne
pub mod Examples
use pomagma.Prelude.{
  ℕ, ◌+◌, ◌-◌, ◌*◌, ◌/◌, ◌%◌, ◌≤◌, ◌<◌, ◌≡◌, List, Bool, true, not, get_or, set, length, replicate,
}
use pomagma.Word.{bits_per_word, word_mod, load, zero_bit, one_bit, fetch_zero, fetch_one}

pub record DenseSet : Type 0 where
  pub item_dim : ℕ
  pub words : List ℕ

-- Position 0 is unused, so a set of `n` items holds `n + 1` bits.
abbrev pub items_to_words : ℕ → ℕ
items_to_words n = (n + bits_per_word) / bits_per_word

abbrev pub word_dim : DenseSet → ℕ
word_dim s = items_to_words s.item_dim

-- `DenseSet::round_item_dim` and `DenseSet::round_word_dim`: whole cache lines of 512 bits
unfoldable pub round_item_dim : ℕ → ℕ
round_item_dim n = (n + 512) / 512 * 512 - 1

unfoldable pub round_word_dim : ℕ → ℕ
round_word_dim n = (n + 512) / 512 * (512 / bits_per_word)

unfoldable pub new : ℕ → DenseSet
new n = record { item_dim = n; words = replicate (items_to_words n) 0 }

-- `m_words[i >> WORD_POS_SHIFT]`
abbrev pub word_at : DenseSet → ℕ → ℕ
word_at s i = get_or s.words (i / bits_per_word) 0

-- A write through the reference that `bool_ref::index` makes.
abbrev pub set_word_at : DenseSet → ℕ → ℕ → DenseSet
set_word_at s i w = record s { words = set s.words (i / bits_per_word) w }

unfoldable pub contains : DenseSet → ℕ → Bool
unfolding load
contains s i = load (word_at s i) (i % bits_per_word)

unfoldable pub raw_insert : DenseSet → ℕ → DenseSet
raw_insert s i = set_word_at s i (one_bit (word_at s i) (i % bits_per_word))

-- `insert` asserts that the item is new.
unfoldable pub insert : DenseSet → ℕ → DenseSet
insert s i = set_word_at s i (one_bit (word_at s i) (i % bits_per_word))

-- Returns whether the item is new.
unfoldable pub try_insert : DenseSet → ℕ → Bool × DenseSet
try_insert s i =
    let (old, w) = fetch_one (word_at s i) (i % bits_per_word) in (not old, set_word_at s i w)

unfoldable pub raw_remove : DenseSet → ℕ → DenseSet
raw_remove s i = set_word_at s i (zero_bit (word_at s i) (i % bits_per_word))

-- `remove` asserts that the item is there.
unfoldable pub remove : DenseSet → ℕ → DenseSet
remove s i = set_word_at s i (zero_bit (word_at s i) (i % bits_per_word))

-- `_bit(i).fetch_zero()`, as the relations call it
unfoldable pub try_remove : DenseSet → ℕ → Bool × DenseSet
try_remove s i =
    let (old, w) = fetch_zero (word_at s i) (i % bits_per_word) in (old, set_word_at s i w)

-- The array has its length and holds words, and only items 1, ..., item_dim are in the set.
pub record IsValid (s : DenseSet) : Type 0 where
  pub sized : length s.words ≡ word_dim s
  pub small : (q : ℕ) → get_or s.words q 0 < word_mod
  pub ranged : (i : ℕ) → contains s i ≡ true → (1 ≤ i) × (i ≤ s.item_dim)

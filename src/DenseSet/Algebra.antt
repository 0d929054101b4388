-- ===== src/DenseSet/Algebra.antt =====
-- Union, intersection, difference and their combinations, item by item.
use Prim.Native.Nat.{bit_and, bit_or}
use pomagma.Prelude.{
  ℕ, zero, suc, ◌/◌, ◌%◌, ◌<◌, ◌≡◌, refl, sym, ap, ◌∙◌, List, [], ◌∷◌, Bool, false, not, ◌&&◌, ◌||◌,
  get_or, length, arith,
}
use pomagma.Word.{word_mod, complement}
use pomagma.Word.Bits.{
  get_bit, get_bit-zero, get_bit-bit_and, get_bit-bit_or, bit_and-lt, bit_or-lt,
}
use pomagma.Word.Ref.{get_bit-complement}
use pomagma.DenseSet.{DenseSet, items_to_words, contains, IsValid}
use pomagma.DenseSet.Element.{contains-eq-get_bit}
use pomagma.DenseSet.Whole.{zip_words, and_not}

-- An operation on words that does `g` to each bit.
pub record IsBitwise (f : ℕ → ℕ → ℕ) (g : Bool → Bool → Bool) : Type 0 where
  pub bits :
      (a b i : ℕ)
      → a < word_mod
      → b < word_mod
      → i < 64
      → get_bit (f a b) i ≡ g (get_bit a i) (get_bit b i)
  pub small : (a b : ℕ) → a < word_mod → b < word_mod → f a b < word_mod
  pub none_false : g false false ≡ false

pub or-IsBitwise : IsBitwise bit_or ◌||◌
or-IsBitwise = record {
  bits = λ a b i h k l. get_bit-bit_or a b i;
  small = bit_or-lt 64;
  none_false = refl;
}

pub and-IsBitwise : IsBitwise bit_and ◌&&◌
and-IsBitwise = record {
  bits = λ a b i h k l. get_bit-bit_and a b i;
  small = λ a b h k. bit_and-lt 64 a b h;
  none_false = refl;
}

pub and_not-IsBitwise : IsBitwise and_not (λ p q. p && not q)
and_not-IsBitwise = record {
  bits =
      λ a b i h k l. ground (arith, get_bit-bit_and a (complement b) i, get_bit-complement b i k l);
  small = λ a b h k. bit_and-lt 64 a (complement b) h;
  none_false = refl;
}

pub zero-IsBitwise : IsBitwise (λ a b. 0) (λ p q. false)
zero-IsBitwise = record {
  bits = λ a b i h k l. get_bit-zero i;
  small = λ a b h k. omega arith;
  none_false = refl;
}

length-zip_words :
    (f : ℕ → ℕ → ℕ) (xs ys : List ℕ)
    → length xs ≡ length ys
    → length (zip_words f xs ys) ≡ length xs
unfolding zip_words
length-zip_words f [] ys h = refl
length-zip_words f (x ∷ xs) [] h = absurd (omega arith)
length-zip_words f (x ∷ xs) (y ∷ ys) h = ap suc (length-zip_words f xs ys (omega arith))

module _ {f : ℕ → ℕ → ℕ} {g : Bool → Bool → Bool} (op : IsBitwise f g) where
  get_bit-zip_words :
      (xs ys : List ℕ) (q i : ℕ)
      → length xs ≡ length ys
      → ((r : ℕ) → get_or xs r 0 < word_mod)
      → ((r : ℕ) → get_or ys r 0 < word_mod)
      → i < 64
      → get_bit (get_or (zip_words f xs ys) q 0) i
        ≡ g (get_bit (get_or xs q 0) i) (get_bit (get_or ys q 0) i)
  unfolding zip_words
  get_bit-zip_words [] [] q i h sx sy k = rw (get_bit-zero i, op.none_false)
  get_bit-zip_words [] (y ∷ ys) q i h sx sy k = absurd (omega arith)
  get_bit-zip_words (x ∷ xs) [] q i h sx sy k = absurd (omega arith)
  get_bit-zip_words (x ∷ xs) (y ∷ ys) zero i h sx sy k = op.bits x y i (sx 0) (sy 0) k
  get_bit-zip_words (x ∷ xs) (y ∷ ys) (suc q) i h sx sy k =
      get_bit-zip_words xs ys q i (omega arith) (λ r. sx (suc r)) (λ r. sy (suc r)) k

  zip_words-lt :
      (xs ys : List ℕ) (q : ℕ)
      → ((r : ℕ) → get_or xs r 0 < word_mod)
      → ((r : ℕ) → get_or ys r 0 < word_mod)
      → get_or (zip_words f xs ys) q 0 < word_mod
  unfolding zip_words
  zip_words-lt [] ys q sx sy = omega arith
  zip_words-lt (x ∷ xs) [] q sx sy = omega arith
  zip_words-lt (x ∷ xs) (y ∷ ys) zero sx sy = op.small x y (sx 0) (sy 0)
  zip_words-lt (x ∷ xs) (y ∷ ys) (suc q) sx sy =
      zip_words-lt xs ys q (λ r. sx (suc r)) (λ r. sy (suc r))

  -- The set that a word loop writes.
  abbrev pub combined : DenseSet → DenseSet → DenseSet → DenseSet
  combined s a b = record s { words = zip_words f a.words b.words }

  module _ (s : DenseSet) {a b : DenseSet} (va : IsValid a) (vb : IsValid b)
      (e : a.item_dim ≡ b.item_dim) where
    same_length : length a.words ≡ length b.words
    same_length = va.sized ∙ ap items_to_words e ∙ sym vb.sized

    pub contains-combined : (i : ℕ) → contains (combined s a b) i ≡ g (contains a i) (contains b i)
    contains-combined i =
        rw
          (contains-eq-get_bit (combined s a b) i, contains-eq-get_bit a i, contains-eq-get_bit b i)
          (get_bit-zip_words a.words b.words (i / 64) (i % 64) same_length va.small vb.small
            (omega arith))

    pub combined-IsValid : s.item_dim ≡ a.item_dim → IsValid (combined s a b)
    combined-IsValid d = record {
      sized = length-zip_words f a.words b.words same_length ∙ va.sized ∙ ap items_to_words (sym d);
      small = λ q. zip_words-lt a.words b.words q va.small vb.small;
      ranged = λ i h. ground (arith, contains-combined i, va.ranged i, vb.ranged i, op.none_false);
    }

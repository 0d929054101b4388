-- ===== src/Vm/Narrow.antt =====
-- The words that an Intersection of pomagma/util/sequential/dense_set.hpp reads have 64 bits where those
-- of its first set have.
use Prim.Native.Nat.{bit_and}
use pomagma.Prelude.{ℕ, zero, suc, ◌<◌, List, [], ◌∷◌, take, drop, arith}
use pomagma.Word.{word_mod, complement}
use pomagma.Word.Bits.{bit_and-lt}
use pomagma.DenseSet.Whole.{zip_words, and_not}
use pomagma.DenseSet.Flip.{Small}
use pomagma.DenseSet.Iter.{cut_words, intersection}

pub take-Small : (n : ℕ) (ws : List ℕ) → Small ws → Small (take n ws)
take-Small zero ws h q = omega arith
take-Small (suc n) [] h q = omega arith
take-Small (suc n) (w ∷ ws) h zero = h 0
take-Small (suc n) (w ∷ ws) h (suc q) = take-Small n ws (λ r. h (suc r)) q

pub drop-Small : (n : ℕ) (ws : List ℕ) → Small ws → Small (drop n ws)
drop-Small zero ws h q = h q
drop-Small (suc n) [] h q = omega arith
drop-Small (suc n) (w ∷ ws) h q = drop-Small n ws (λ r. h (suc r)) q

module _ (f : ℕ → ℕ → ℕ) (narrow : (a b : ℕ) → a < word_mod → f a b < word_mod) where
  zip_words-Small : (ws us : List ℕ) → Small ws → Small (zip_words f ws us)
  unfolding zip_words
  zip_words-Small [] us h q = omega arith
  zip_words-Small (w ∷ ws) [] h q = omega arith
  zip_words-Small (w ∷ ws) (u ∷ us) h zero = narrow w u (h 0)
  zip_words-Small (w ∷ ws) (u ∷ us) h (suc q) = zip_words-Small ws us (λ r. h (suc r)) q

  cut_words-Small : (ws : List ℕ) (sets : List (List ℕ)) → Small ws → Small (cut_words f ws sets)
  unfolding cut_words
  cut_words-Small ws [] h = h
  cut_words-Small ws (us ∷ sets) h =
      cut_words-Small (zip_words f ws us) sets (zip_words-Small ws us h)

pub intersection-Small :
    (first : List ℕ) (pos neg : List (List ℕ)) → Small first → Small (intersection first pos neg)
unfolding intersection
intersection-Small first pos neg h =
    cut_words-Small and_not (λ a b. bit_and-lt 64 a (complement b)) (cut_words bit_and first pos)
      neg (cut_words-Small bit_and (bit_and-lt 64) first pos h)

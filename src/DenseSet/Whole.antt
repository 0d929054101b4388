-- ===== src/DenseSet/Whole.antt =====
-- dense_set.cpp: the operations on whole sets, word by word. A loop `for (m = 0; m < M; ++m)` over
-- the arrays of sets of one item_dim is a recursion on their words.
use Prim.Native.Nat.{bit_and, bit_or}
use pomagma.Prelude.{ℕ, List, [], ◌∷◌, Bool, true, false, not, ◌&&◌, ◌==◌, if◌then◌else◌, replicate}
use pomagma.Word.{complement}
use pomagma.DenseSet.{DenseSet, word_dim}

-- `u[m] = f(s[m], t[m])`, and the same with three and four operands
unfoldable pub zip_words : (ℕ → ℕ → ℕ) → List ℕ → List ℕ → List ℕ
zip_words f (a ∷ xs) (b ∷ ys) = f a b ∷ zip_words f xs ys
zip_words f (a ∷ xs) [] = []
zip_words f [] ys = []

unfoldable pub zip_words3 : (ℕ → ℕ → ℕ → ℕ) → List ℕ → List ℕ → List ℕ → List ℕ
zip_words3 f (a ∷ xs) (b ∷ ys) (c ∷ zs) = f a b c ∷ zip_words3 f xs ys zs
zip_words3 f (a ∷ xs) (b ∷ ys) [] = []
zip_words3 f (a ∷ xs) [] zs = []
zip_words3 f [] ys zs = []

unfoldable pub zip_words4 : (ℕ → ℕ → ℕ → ℕ → ℕ) → List ℕ → List ℕ → List ℕ → List ℕ → List ℕ
zip_words4 f (a ∷ xs) (b ∷ ys) (c ∷ zs) (d ∷ ws) = f a b c d ∷ zip_words4 f xs ys zs ws
zip_words4 f (a ∷ xs) (b ∷ ys) (c ∷ zs) [] = []
zip_words4 f (a ∷ xs) (b ∷ ys) [] ws = []
zip_words4 f (a ∷ xs) [] zs ws = []
zip_words4 f [] ys zs ws = []

-- `u |= f(s[m], t[m])`
unfoldable pub or_words : (ℕ → ℕ → ℕ) → ℕ → List ℕ → List ℕ → ℕ
or_words f u (a ∷ xs) (b ∷ ys) = or_words f (bit_or u (f a b)) xs ys
or_words f u (a ∷ xs) [] = u
or_words f u [] ys = u

-- `s & ~t`
abbrev pub and_not : ℕ → ℕ → ℕ
and_not a b = bit_and a (complement b)

unfoldable pub zero_all : DenseSet → DenseSet
zero_all s = record s { words = replicate (word_dim s) 0 }

-- `operator=`
unfoldable pub assign : DenseSet → DenseSet → DenseSet
assign s other = record s { words = other.words }

-- The operands' word arrays are combined into the words of the set that the method is called on.
unfoldable pub set_union : DenseSet → DenseSet → DenseSet → DenseSet
unfolding zip_words
set_union s lhs rhs = record s { words = zip_words bit_or lhs.words rhs.words }

unfoldable pub set_insn : DenseSet → DenseSet → DenseSet → DenseSet
unfolding zip_words
set_insn s lhs rhs = record s { words = zip_words bit_and lhs.words rhs.words }

unfoldable pub set_insn3 : DenseSet → DenseSet → DenseSet → DenseSet → DenseSet
unfolding zip_words3
set_insn3 s xs ys zs = record s {
  words = zip_words3 (λ x y z. bit_and (bit_and x y) z) xs.words ys.words zs.words;
}

unfoldable pub set_diff : DenseSet → DenseSet → DenseSet → DenseSet
unfolding zip_words
set_diff s pos neg = record s { words = zip_words and_not pos.words neg.words }

unfoldable pub set_ppn : DenseSet → DenseSet → DenseSet → DenseSet → DenseSet
unfolding zip_words3
set_ppn s pos1 pos2 neg = record s {
  words = zip_words3 (λ x y z. and_not (bit_and x y) z) pos1.words pos2.words neg.words;
}

unfoldable pub set_pnn : DenseSet → DenseSet → DenseSet → DenseSet → DenseSet
unfolding zip_words3
set_pnn s pos neg1 neg2 = record s {
  words = zip_words3 (λ x y z. and_not x (bit_or y z)) pos.words neg1.words neg2.words;
}

unfoldable pub set_ppnn : DenseSet → DenseSet → DenseSet → DenseSet → DenseSet → DenseSet
unfolding zip_words4
set_ppnn s pos1 pos2 neg1 neg2 = record s {
  words =
      zip_words4 (λ x y z w. and_not (bit_and x y) (bit_or z w)) pos1.words pos2.words neg1.words
        neg2.words;
}

-- `operator+=`, `operator*=` and `operator-=`
unfoldable pub add : DenseSet → DenseSet → DenseSet
unfolding zip_words
add s other = record s { words = zip_words bit_or s.words other.words }

unfoldable pub mul : DenseSet → DenseSet → DenseSet
unfolding zip_words
mul s other = record s { words = zip_words bit_and s.words other.words }

unfoldable pub sub : DenseSet → DenseSet → DenseSet
unfolding zip_words
sub s other = record s { words = zip_words and_not s.words other.words }

-- `merge(dep)`: the new set, and `dep`, which is emptied
unfoldable pub merge : DenseSet → DenseSet → DenseSet × DenseSet
unfolding zip_words
merge s dep = (
  record s { words = zip_words bit_or s.words dep.words },
  record dep { words = zip_words (λ r d. 0) s.words dep.words },
)

-- `merge(dep, diff)`: the new set, the emptied `dep`, the difference, and whether it has items
unfoldable pub merge_diff : DenseSet → DenseSet → DenseSet → DenseSet × DenseSet × DenseSet × Bool
unfolding zip_words or_words
merge_diff s dep diff = (
  record s { words = zip_words bit_or s.words dep.words },
  record dep { words = zip_words (λ r d. 0) s.words dep.words },
  record diff { words = zip_words and_not dep.words s.words },
  not (or_words and_not 0 dep.words s.words == 0),
)

-- `ensure(src, diff)`
unfoldable pub ensure : DenseSet → DenseSet → DenseSet → DenseSet × DenseSet × Bool
unfolding zip_words or_words
ensure s src diff = (
  record s { words = zip_words bit_or s.words src.words },
  record diff { words = zip_words and_not src.words s.words },
  not (or_words and_not 0 src.words s.words == 0),
)

-- `operator<=` and `likely_disjoint` read all the words; `unlikely_disjoint` stops early.
unfoldable pub subset : DenseSet → DenseSet → Bool
unfolding or_words
subset s t = or_words and_not 0 s.words t.words == 0

unfoldable pub likely_disjoint : DenseSet → DenseSet → Bool
unfolding or_words
likely_disjoint s t = or_words bit_and 0 s.words t.words == 0

unfoldable pub disjoint_words : List ℕ → List ℕ → Bool
disjoint_words (a ∷ xs) (b ∷ ys) = if not (bit_and a b == 0) then false else disjoint_words xs ys
disjoint_words (a ∷ xs) [] = true
disjoint_words [] ys = true

unfoldable pub unlikely_disjoint : DenseSet → DenseSet → Bool
unfolding disjoint_words
unlikely_disjoint s t = disjoint_words s.words t.words

-- `memcmp` of the two arrays
unfoldable pub eq_words : List ℕ → List ℕ → Bool
eq_words (a ∷ xs) (b ∷ ys) = (a == b) && eq_words xs ys
eq_words (a ∷ xs) [] = false
eq_words [] (b ∷ ys) = false
eq_words [] [] = true

unfoldable pub equal : DenseSet → DenseSet → Bool
unfolding eq_words
equal s t = eq_words s.words t.words

unfoldable pub empty_words : List ℕ → Bool
empty_words [] = true
empty_words (w ∷ ws) = if not (w == 0) then false else empty_words ws

unfoldable pub empty : DenseSet → Bool
unfolding empty_words
empty s = empty_words s.words

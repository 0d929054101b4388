-- ===== src/Vm/Rounds.antt =====
-- A loop of pomagma/atlas/vm_impl.hpp ends, and keeps what its body keeps.
use pomagma.Prelude.{
  ℕ, zero, suc, ◌+◌, ◌*◌, ◌≤◌, ◌<◌, ◌≡◌, ◌⊎◌, inl, inr, some, List, [], ◌∷◌, ◌==◌, take, drop,
  length, length-drop, arith, Bool-cases,
}
use pomagma.DenseSet.Iter.{SetIterator, next, iter_words, intersection}
use pomagma.Vm.{Structure, Context}
use pomagma.Vm.Loop.{Cut, cut_words, start, advance, rounds, loop, Body, words_each}
use pomagma.Vm.Returns.{Returns, good, bind, or_missing, or_no_fuel, weaken}
use pomagma.Vm.Ends.{
  IsIn, Reaches, Moves, next_block-Reaches, next-Moves, widen, next_block-total, next-total,
}
use pomagma.Vm.Narrow.{take-Small, drop-Small, intersection-Small}
use pomagma.DenseSet.Flip.{Small}

length-take_le {ℓ} : {A : Type ℓ} (n : ℕ) (xs : List A) → length (take n xs) ≤ n
length-take_le zero xs = omega arith
length-take_le (suc n) [] = omega arith
length-take_le (suc n) (x ∷ xs) = omega (arith, length-take_le n xs)

module _ {S : Type 0} (t : Structure S) where
  open t use {word_dim, words}

  -- The first set of a loop has words of 64 bits.
  abbrev FirstSmall : S → Cut → Type 0
  FirstSmall s cut = (ws : List ℕ) → words s cut.first ≡ some ws → Small ws

  cut_words-Returns :
      (s : S) (cut : Cut)
      → FirstSmall s cut
      → Returns (λ ws. (length ws ≤ word_dim) × Small ws) (cut_words t s cut)
  unfolding cut_words
  cut_words-Returns s cut small = bind _ (or_missing (words s cut.first)) λ first e.
      bind _ (or_missing (words_each t s cut.pos)) λ pos _.
        bind _ (or_missing (words_each t s cut.neg)) λ neg _. good _ (
          length-take_le word_dim (intersection first pos neg),
          take-Small word_dim (intersection first pos neg)
              (intersection-Small first pos neg (small first e)),
        )

  start-Returns :
      (s : S) (cut : Cut) → FirstSmall s cut → Returns (Reaches 0 word_dim) (start t s cut)
  unfolding start iter_words
  start-Returns s cut small = bind _ (cut_words-Returns s cut small) λ ws (le, sm).
      weaken (λ it e. widen (omega arith) (omega arith) (next_block-Reaches 0 ws it e))
        (or_no_fuel (iter_words ws) (next_block-total 0 ws sm))

  advance-Returns :
      (s : S) (cut : Cut) (it : SetIterator)
      → FirstSmall s cut
      → IsIn 0 word_dim it
      → Returns (λ it'. (it'.i ≡ 0) ⊎ (IsIn 0 word_dim it' × (it.i < it'.i))) (advance t s cut it)
  unfolding advance
  advance-Returns s cut it small at = bind _ (cut_words-Returns s cut small) λ ws (le, sm).
      weaken
        (λ it' e.
          moved ws le it'
            (next-Moves (record it { rest = drop (it.quot + 1) ws }) it' at.position at.in_word e))
        (or_no_fuel (next (record it { rest = drop (it.quot + 1) ws })) (
          next-total (record it { rest = drop (it.quot + 1) ws }) (drop-Small (it.quot + 1) ws sm)
            at.in_word))
    where
      moved :
          (ws : List ℕ)
          → length ws ≤ word_dim
          → (it' : SetIterator)
          → Moves it.i it.quot (it.quot + 1 + length (drop (it.quot + 1) ws)) it'
          → (it'.i ≡ 0) ⊎ (IsIn 0 word_dim it' × (it.i < it'.i))
      moved ws le it' (inl z) = inl z
      moved ws le it' (inr (r, up)) = inr (
        record {
          position = r.position;
          in_word = r.in_word;
          above = omega arith;
          below = omega (arith, length-drop (it.quot + 1) ws, r.below, at.below);
        },
        up,
      )

  module _ (K : Context × S → Type 0) (cut : Cut) (body : Body t)
      (keep : (i : ℕ) (c : Context) (s : S) → K (c, s) → Returns K (body i c s))
      (small : (c : Context) (s : S) (ws : List ℕ)
        → K (c, s)
        → words s cut.first ≡ some ws
        → Small ws) where
    -- The fuel that is left, or no item.
    abbrev Fits : ℕ → SetIterator → Type 0
    Fits fuel it = ((it.i ≡ 0) × (0 < fuel)) ⊎ (IsIn 0 word_dim it × (64 * word_dim < it.i + fuel))

    rounds-Returns :
        (fuel : ℕ) (it : SetIterator) (c : Context) (s : S)
        → Fits fuel it
        → K (c, s)
        → Returns K (rounds t fuel cut body it c s)
    unfolding rounds
    rounds-Returns zero it c s (inl (z, lt)) k = absurd (omega arith)
    rounds-Returns zero it c s (inr (at, lt)) k =
        absurd (omega (arith, at.position, at.in_word, at.below))
    rounds-Returns (suc fuel) it c s (inl (z, lt)) k = rw z (good _ k)
    rounds-Returns (suc fuel) it c s (inr (at, lt)) k = elim (Bool-cases (it.i == 0)) [
      | inl over ↦ rw (over, rounds) (good _ k)
      | inr more ↦
          rw (more, rounds)
            (bind K (keep it.i c s k) λ r k'.
              bind _ (advance-Returns r.1 cut it (λ ws. small r.0 r.1 ws k') at)
                λ it' m. rounds-Returns fuel it' r.0 r.1 (fewer it' m) k')
    ]
      where
        fewer :
            (it' : SetIterator)
            → (it'.i ≡ 0) ⊎ (IsIn 0 word_dim it' × (it.i < it'.i))
            → Fits fuel it'
        fewer it' (inl z) = inl (z, omega (arith, at.position, at.in_word, at.below))
        fewer it' (inr (at', up)) = inr (at', omega arith)

    pub loop-Returns : (c : Context) (s : S) → K (c, s) → Returns K (loop t cut body c s)
    unfolding loop
    loop-Returns c s k =
        bind _ (start-Returns s cut (λ ws. small c s ws k))
          λ it r. rounds-Returns (64 * word_dim + 1) it c s (fits it r) k
      where
        fits : (it : SetIterator) → Reaches 0 word_dim it → Fits (64 * word_dim + 1) it
        fits it (inl z) = inl (z, omega arith)
        fits it (inr at) = inr (at, omega arith)

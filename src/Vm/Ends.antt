-- ===== src/Vm/Ends.antt =====
-- The loops of pomagma/atlas/vm_impl.hpp end: SetIterator of pomagma/util/sequential/dense_set.hpp
-- goes to a greater item in each round, also while the words change under it.
use pomagma.Prelude.{
  ℕ, zero, suc, ◌+◌, ◌*◌, ◌/◌, ◌%◌, ◌≤◌, ◌<◌, ◌≡◌, ◌≢◌, ◌⊎◌, inl, inr, List, [], ◌∷◌, ◌==◌, none,
  some, length, arith, Bool-cases, Option-cases,
}
use Prim.Native.Nat.{bit_and}
use pomagma.Word.{bits_per_word}
use pomagma.DenseSet.Flip.{Small}
use pomagma.DenseSet.Visit.{first_bit_lem}
use pomagma.DenseSet.Iter.{SetIterator, first_bit, next_block, next_bit, next}

-- An iterator at an item of a word between two bounds
pub record IsIn (low high : ℕ) (it : SetIterator) : Type 0 where
  pub position : it.i ≡ it.rem + 64 * it.quot
  pub in_word : it.rem < 64
  pub above : low ≤ it.quot
  pub below : it.quot < high

abbrev pub Reaches : ℕ → ℕ → SetIterator → Type 0
Reaches low high it = (it.i ≡ 0) ⊎ IsIn low high it

first_bit-lt : (fuel rem w : ℕ) (r : ℕ × ℕ) → first_bit fuel rem w ≡ some r → r.0 < rem + fuel
unfolding first_bit
first_bit-lt zero rem w r e = cc
first_bit-lt (suc fuel) rem w r e = ground (arith, first_bit-lt fuel (rem + 1) (w / 2) r)

pub widen :
    {low high low' high' : ℕ} {it : SetIterator}
    → low' ≤ low
    → high ≤ high'
    → Reaches low high it
    → Reaches low' high' it
widen l h (inl z) = inl z
widen l h (inr r) = inr (record {
  position = r.position;
  in_word = r.in_word;
  above = omega (arith, r.above);
  below = omega (arith, r.below);
})

pub next_block-Reaches :
    (q : ℕ) (ws : List ℕ) (it : SetIterator)
    → next_block q ws ≡ some it
    → Reaches q (q + length ws) it
unfolding next_block
next_block-Reaches q [] it e = inl (ground arith)
next_block-Reaches q (w ∷ ws) it e = elim (Bool-cases (w == 0)) [
  | inl empty ↦ widen (omega arith) (omega arith) (next_block-Reaches (q + 1) ws it (ground arith))
  | inr full ↦ elim (Option-cases (first_bit bits_per_word 0 w)) [
    | inl never ↦ absurd (ground arith)
    | inr ((rem, word), found) ↦
        inr (let lt = first_bit-lt bits_per_word 0 w (rem, word) found in ground arith)
  ]
]

-- `_next_block` stops in words of 64 bits: a word that is not zero has a first bit.
pub next_block-total : (q : ℕ) (ws : List ℕ) → Small ws → next_block q ws ≢ none
unfolding next_block
next_block-total q [] small e = cc
next_block-total q (w ∷ ws) small e = elim (Bool-cases (w == 0)) [
  | inl empty ↦ next_block-total (q + 1) ws (λ r. small (suc r)) (ground arith)
  | inr full ↦
      let (r, v, found, lo, hi, first, bits) =
        first_bit_lem 64 0 w 0 (small 0) (λ z. ground arith) (omega arith) in
      absurd (ground arith)
]

next_bit-total :
    (fuel rem quot word : ℕ) (rest : List ℕ)
    → Small rest
    → rem < 64
    → 64 ≤ rem + fuel
    → next_bit fuel rem quot word rest ≢ none
unfolding next_bit
next_bit-total zero rem quot word rest small lt enough e = omega arith
next_bit-total (suc fuel) rem quot word rest small lt enough e =
    elim (Bool-cases ((rem + 1) % bits_per_word == 0)) [
      | inl over ↦ next_block-total (quot + 1) rest small (ground arith)
      | inr inside ↦ elim (Bool-cases (bit_and (word / 2) 1 == 1)) [
        | inl one ↦ ground arith
        | inr zero_bit ↦
            next_bit-total fuel (rem + 1) quot (word / 2) rest small (ground arith) (omega arith)
              (ground arith)
      ]
    ]

pub next-total : (it : SetIterator) → Small it.rest → it.rem < 64 → next it ≢ none
unfolding next
next-total it small lt =
    next_bit-total bits_per_word it.rem it.quot it.word it.rest small lt (omega arith)

-- Where an iterator comes to from an item
abbrev pub Moves : ℕ → ℕ → ℕ → SetIterator → Type 0
Moves i quot high it = (it.i ≡ 0) ⊎ (IsIn quot high it × (i < it.i))

from_block :
    (rem quot high : ℕ) (it : SetIterator)
    → rem < 64
    → Reaches (quot + 1) high it
    → Moves (rem + 64 * quot) quot high it
from_block rem quot high it lt (inl z) = inl z
from_block rem quot high it lt (inr r) = inr (
  record {
    position = r.position;
    in_word = r.in_word;
    above = omega (arith, r.above);
    below = r.below;
  },
  omega (arith, r.position, r.above),
)

next_bit-Moves :
    (fuel rem quot word : ℕ) (rest : List ℕ) (it : SetIterator)
    → rem < 64
    → next_bit fuel rem quot word rest ≡ some it
    → Moves (rem + 64 * quot) quot (quot + 1 + length rest) it
unfolding next_bit
next_bit-Moves zero rem quot word rest it lt e = cc
next_bit-Moves (suc fuel) rem quot word rest it lt e =
    elim (Bool-cases ((rem + 1) % bits_per_word == 0)) [
      | inl over ↦
          from_block rem quot (quot + 1 + length rest) it lt
            (next_block-Reaches (quot + 1) rest it (ground arith))
      | inr inside ↦ elim (Bool-cases (bit_and (word / 2) 1 == 1)) [
        | inl one ↦ inr (ground arith, ground arith)
        | inr zero_bit ↦
            later
              (next_bit-Moves fuel (rem + 1) quot (word / 2) rest it (ground arith) (ground arith))
      ]
    ]
  where
    later :
        {high : ℕ} → Moves (rem + 1 + 64 * quot) quot high it → Moves (rem + 64 * quot) quot high it
    later (inl z) = inl z
    later (inr (r, up)) = inr (r, omega arith)

pub next-Moves :
    (it it' : SetIterator)
    → it.i ≡ it.rem + 64 * it.quot
    → it.rem < 64
    → next it ≡ some it'
    → Moves it.i it.quot (it.quot + 1 + length it.rest) it'
unfolding next
next-Moves it it' position lt e =
    rw position (next_bit-Moves bits_per_word it.rem it.quot it.word it.rest it' lt e)

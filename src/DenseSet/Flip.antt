-- ===== src/DenseSet/Flip.antt =====
-- dense_set.cpp: the array of words that `insert_one` makes, bit by bit.
use Prim.Native.Nat.{bit_or, bit_xor}
use pomagma.Prelude.{
  ℕ, ◌^◌, ◌<◌, ◌≡◌, List, Bool, not, ◌||◌, ◌==◌, if◌then◌else◌, get_or, set, length, get_or-set,
  arith,
}
use pomagma.Word.{word_mod}
use pomagma.Word.Bits.{
  get_bit, get_bit-pow, get_bit-bit_or, get_bit-bit_xor_one, bit_xor_one-lt, bit_or-lt,
}
use pomagma.Word.Ref.{mask-lt}
use pomagma.DenseSet.Scan.{modify}

-- `m_words[0] ^= 1`
abbrev pub flip : List ℕ → List ℕ
flip ws = modify ws 0 (λ w. bit_xor w 1)

-- One bit of an array of words.
abbrev pub bit : List ℕ → ℕ → ℕ → Bool
bit ws q t = get_bit (get_or ws q 0) t

pub bit-flip :
    (ws : List ℕ) (q t : ℕ)
    → 0 < length ws
    → bit (flip ws) q t
      ≡ (if q == 0 then if t == 0 then not (bit ws q t) else bit ws q t else bit ws q t)
bit-flip ws q t h = ground (
  arith,
  get_or-set ws 0 q (bit_xor (get_or ws 0 0) 1) 0 h,
  get_bit-bit_xor_one (get_or ws 0 0) t,
)

pub bit-fill :
    (ws : List ℕ) (p k q t : ℕ)
    → p < length ws
    → bit (set ws p (bit_or (get_or ws p 0) (2 ^ k))) q t
      ≡ (if p == q then bit ws q t || k == t else bit ws q t)
bit-fill ws p k q t h = ground (
  arith,
  get_or-set ws p q (bit_or (get_or ws p 0) (2 ^ k)) 0 h,
  get_bit-bit_or (get_or ws p 0) (2 ^ k) t,
  get_bit-pow k t,
)

abbrev pub Small : List ℕ → Type 0
Small ws = (q : ℕ) → get_or ws q 0 < word_mod

pub flip-Small : (ws : List ℕ) → 0 < length ws → Small ws → Small (flip ws)
flip-Small ws h small q = ground (
  arith,
  get_or-set ws 0 q (bit_xor (get_or ws 0 0) 1) 0 h,
  bit_xor_one-lt 63 (get_or ws 0 0) (small 0),
  small q,
)

pub fill-Small :
    (ws : List ℕ) (p k : ℕ)
    → p < length ws
    → k < 64
    → Small ws
    → Small (set ws p (bit_or (get_or ws p 0) (2 ^ k)))
fill-Small ws p k h l small q = ground (
  arith,
  get_or-set ws p q (bit_or (get_or ws p 0) (2 ^ k)) 0 h,
  bit_or-lt 64 (get_or ws p 0) (2 ^ k) (small p) (mask-lt k l),
  small q,
)

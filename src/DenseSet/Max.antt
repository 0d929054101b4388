-- ===== src/DenseSet/Max.antt =====
-- dense_set.cpp, max_item: it finds the last item.
use native.Mathlib.Nat.{pow-suc}
use native.Mathlib.Decide.{dec_le, dec_lt}
use pomagma.Prelude.{
  ℕ, zero, suc, ◌+◌, ◌*◌, ◌/◌, ◌%◌, ◌^◌, ◌≤◌, ◌<◌, ◌≡◌, ◌≢◌, refl, sym, ◌∙◌, List, [], ◌∷◌, true,
  false, ◌==◌, get_or, arith, Bool-cases, inl, inr, ==_iff, ◌⊎◌,
}
use pomagma.Word.Bits.{get_bit, get_bit-zero, eq_of_bits}
use pomagma.DenseSet.{DenseSet, contains, IsValid}
use pomagma.DenseSet.Element.{contains_at, contains-eq-get_bit}
use pomagma.DenseSet.Scan.{last_word, rest_words, top_bit, max_item}

-- What the loop over the words finds: no nonzero word, or the last one.
abbrev LastWord : List ℕ → ℕ → ℕ → ℕ → Type 0
LastWord ws m start r =
    ((r ≡ start) × ((q : ℕ) → get_or ws q 0 ≡ 0))
    ⊎ ((k : ℕ) × (r ≡ m + k) × (get_or ws k 0 ≢ 0) × ((q : ℕ) → k < q → get_or ws q 0 ≡ 0))

-- Facts about the words from the second on.
from_second :
    (w : ℕ) (ws : List ℕ) (k : ℕ)
    → ((q : ℕ) → k < q → get_or ws q 0 ≡ 0)
    → (q : ℕ) → suc k < q
    → get_or (w ∷ ws) q 0 ≡ 0
from_second w ws k after zero h = absurd (omega arith)
from_second w ws k after (suc q) h = after q (omega arith)

all_from_second :
    (w : ℕ) (ws : List ℕ)
    → ((q : ℕ) → get_or ws q 0 ≡ 0)
    → (q : ℕ) → 0 < q
    → get_or (w ∷ ws) q 0 ≡ 0
all_from_second w ws zeros zero h = absurd (omega arith)
all_from_second w ws zeros (suc q) h = zeros q

all_words :
    (w : ℕ) (ws : List ℕ)
    → w ≡ 0
    → ((q : ℕ) → get_or ws q 0 ≡ 0)
    → (q : ℕ) → get_or (w ∷ ws) q 0 ≡ 0
all_words w ws z zeros zero = z
all_words w ws z zeros (suc q) = zeros q

module _ (w : ℕ) (ws : List ℕ) (m start r : ℕ) where
  zero_word : w ≡ 0 → LastWord ws (m + 1) start r → LastWord (w ∷ ws) m start r
  zero_word z (inl (e, zeros)) = inl (e, all_words w ws z zeros)
  zero_word z (inr (k, e, ne, after)) = inr (suc k, omega (arith, e), ne, from_second w ws k after)

  nonzero_word : w ≢ 0 → LastWord ws (m + 1) m r → LastWord (w ∷ ws) m start r
  nonzero_word z (inl (e, zeros)) = inr (0, omega (arith, e), z, all_from_second w ws zeros)
  nonzero_word z (inr (k, e, ne, after)) =
      inr (suc k, omega (arith, e), ne, from_second w ws k after)

last_word_lem : (ws : List ℕ) (m start : ℕ) → LastWord ws m start (last_word ws m start)
unfolding last_word
last_word_lem [] m start = inl (refl, λ q. refl)
last_word_lem (w ∷ ws) m start = elim (Bool-cases (w == 0)) [
  | inl z ↦ rw z (zero_word w ws m start _ ((==_iff w 0).0 z) (last_word_lem ws (m + 1) start))
  | inr z ↦ rw z (nonzero_word w ws m start _ (λ n. ground arith) (last_word_lem ws (m + 1) m))
]

-- Shifting a nonzero word until it is 1 finds its highest bit.
abbrev TopBit : ℕ → ℕ → Type 0
TopBit w k = (get_bit w k ≡ true) × ((i : ℕ) → k < i → get_bit w i ≡ false)

TopBit-zero : (w : ℕ) → w ≢ 0 → w / 2 ≡ 0 → TopBit w 0
unfolding get_bit
TopBit-zero w ne z = (ground arith, above)
  where
    above : (i : ℕ) → 0 < i → get_bit w i ≡ false
    above zero r = absurd (omega arith)
    above (suc i) r = rw z (get_bit-zero i)

TopBit-suc : (w k : ℕ) → TopBit (w / 2) k → TopBit w (suc k)
unfolding get_bit
TopBit-suc w k t = (t.0, above)
  where
    above : (i : ℕ) → suc k < i → get_bit w i ≡ false
    above zero r = absurd (omega arith)
    above (suc i) r = t.1 i (omega arith)

top_bit_lem :
    (n w b : ℕ) → w < 2 ^ n → w ≢ 0 → (k : ℕ) × (top_bit n w b ≡ b + k) × (k < n) × TopBit w k
unfolding top_bit
top_bit_lem zero w b h ne = absurd (omega arith)
top_bit_lem (suc n) w b h ne = elim (Bool-cases (w / 2 == 0)) [
  | inl z ↦ (0, rw z (omega arith), omega arith, TopBit-zero w ne ((==_iff (w / 2) 0).0 z))
  | inr z ↦
      let (k, e, r, t) =
        top_bit_lem n (w / 2) (b + 1) (omega (arith, pow-suc 2 n)) (λ p. ground arith) in
      (suc k, rw z (omega (arith, e)), omega arith, TopBit-suc w k t)
]

-- Where word `q` is the last nonzero one and `t` its top bit, the last item is `64 * q + t`.
module _ (s : DenseSet) (q t m : ℕ) (e : m ≡ 64 * q + t) (r : t < 64)
    (after : (p : ℕ) → q < p → get_or s.words p 0 ≡ 0) (top : TopBit (get_or s.words q 0) t) where
  top_in : contains s m ≡ true
  top_in = contains_at s q t m e r ∙ top.0

  past_top : (k : ℕ) → m < k → contains s k ≡ false
  past_top k l = elim (dec_lt q (k / 64)) [
    | yes p ↦ rw (contains-eq-get_bit s k, after (k / 64) p) (get_bit-zero (k % 64))
    | no p ↦ contains_at s q (k % 64) k (omega arith) (omega arith) ∙ top.1 (k % 64) (omega arith)
  ]

  top_last : (k : ℕ) → contains s k ≡ true → k ≤ m
  top_last k h = elim (dec_le k m) [ yes p ↦ p | no p ↦ ground (arith, past_top k (omega arith)) ]

-- The word that `max_item` takes: all later words are zero, and it is zero only if all are.
ChosenWord : List ℕ → ℕ → Type 0
ChosenWord ws m =
    ((p : ℕ) → m < p → get_or ws p 0 ≡ 0)
    × (get_or ws m 0 ≡ 0 → (m ≡ 0) × ((p : ℕ) → get_or ws p 0 ≡ 0))

chosen : (w : ℕ) (ws : List ℕ) (m : ℕ) → LastWord ws 1 0 m → ChosenWord (w ∷ ws) m
unfolding ChosenWord
chosen w ws m (inl (e, zeros)) = (
  λ p h. all_from_second w ws zeros p (omega arith),
  λ z. (e, all_words w ws (let z' = rw e at z in z') zeros),
)
chosen w ws m (inr (k, e, ne, after)) = (
  λ p h. from_second w ws k after p (omega (arith, e)),
  λ z. let e' : m ≡ suc k = omega (arith, e) in absurd (ne (rw e' at z)),
)

max_word_lem : (ws : List ℕ) → ChosenWord ws (last_word (rest_words ws) 1 0)
unfolding ChosenWord last_word
max_word_lem [] = (λ p h. refl, λ z. (refl, λ p. refl))
max_word_lem (w ∷ ws) = chosen w ws (last_word ws 1 0) (last_word_lem ws 1 0)

top_bit-zero : (n : ℕ) → top_bit n 0 0 ≡ 0
unfolding top_bit
top_bit-zero zero = refl
top_bit-zero (suc n) = refl

-- An item keeps its word from being zero.
word_ne_zero : (s : DenseSet) (j : ℕ) → contains s j ≡ true → get_or s.words (j / 64) 0 ≢ 0
word_ne_zero s j h z =
    let out = rw z at (rw (contains-eq-get_bit s j) at h) in ground (arith, get_bit-zero (j % 64))

-- `max_item` is the last item of a set that has one, and 0 of the empty set.
pub max_item_lem :
    {s : DenseSet}
    → IsValid s
    → ((j : ℕ) → contains s j ≡ true → (contains s (max_item s) ≡ true) × (j ≤ max_item s))
      × (((j : ℕ) → contains s j ≡ false) → max_item s ≡ 0)
unfolding max_item ChosenWord
max_item_lem {s} v = (some_item, no_item)
  where
    m : ℕ
    m = last_word (rest_words s.words) 1 0

    some_item : (j : ℕ) → contains s j ≡ true → (contains s (max_item s) ≡ true) × (j ≤ max_item s)
    some_item j h =
        let (after, zeros) = max_word_lem s.words in
        let (t, e, r, top) =
          top_bit_lem 64 (get_or s.words m 0) 0 (v.small m)
            (λ z. word_ne_zero s j h ((zeros z).1 (j / 64))) in
        let e' : max_item s ≡ 64 * m + t = omega (arith, e) in
        (top_in s m t (max_item s) e' r after top, top_last s m t (max_item s) e' r after top j h)

    no_item : ((j : ℕ) → contains s j ≡ false) → max_item s ≡ 0
    no_item h =
        let (after, zeros) = max_word_lem s.words in
        let z = eq_of_bits 64 (get_or s.words m 0) 0 (v.small m) (omega arith) (λ i k.
          sym (contains_at s m i (64 * m + i) refl k) ∙ h (64 * m + i) ∙ sym (get_bit-zero i)) in
        rw (z, (zeros z).0, top_bit-zero 64) (omega arith)

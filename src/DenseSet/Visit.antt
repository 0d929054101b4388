-- ===== src/DenseSet/Visit.antt =====
-- dense_set.hpp: a loop over an iterator ends and visits the items in ascending order, once each.
use Prim.Native.Nat.{bit_and}
use mathlib.Core.Path.{subst}
use native.Mathlib.Nat.{pow-suc}
use pomagma.Prelude.{
  ℕ, zero, suc, ◌+◌, ◌-◌, ◌*◌, ◌/◌, ◌%◌, ◌^◌, ◌≤◌, ◌<◌, ◌≡◌, ◌≢◌, refl, sym, ap, ◌∙◌, List, [], ◌∷◌,
  ◌++◌, true, false, ◌==◌, if◌then◌else◌, some, get_or, length, arith, Bool-cases, inl, inr, ==_iff,
  ◌⊎◌,
}
use pomagma.Word.Digits.{parity}
use pomagma.Word.Bits.{bit_and-one}
use pomagma.DenseSet.Iter.{SetIterator, done, first_bit, next_block, next_bit, next, visit}

-- The positions of the bits of a word of `n` bits, from position `pos` on, and of an array.
unfoldable pub bits_of : ℕ → ℕ → ℕ → List ℕ
bits_of zero pos w = []
bits_of (suc n) pos w =
    if w % 2 == 1 then pos ∷ bits_of n (pos + 1) (w / 2) else bits_of n (pos + 1) (w / 2)

unfoldable pub bits_in : ℕ → List ℕ → List ℕ
bits_in pos [] = []
bits_in pos (w ∷ ws) = bits_of 64 pos w ++ bits_in (pos + 64) ws

-- What an iterator at an item has still to visit.
pub remaining : SetIterator → List ℕ
remaining it =
    it.i ∷ (bits_of (63 - it.rem) (it.i + 1) (it.word / 2) ++ bits_in (64 * (it.quot + 1)) it.rest)

pub record IsAt (it : SetIterator) : Type 0 where
  pub position : it.i ≡ it.rem + 64 * it.quot
  pub in_word : it.rem < 64
  pub positive : 1 ≤ it.i

bits_of-zero : (n pos : ℕ) → bits_of n pos 0 ≡ []
unfolding bits_of
bits_of-zero zero pos = refl
bits_of-zero (suc n) pos = bits_of-zero n (pos + 1)

-- A nonzero word has a first bit, where its list of bits begins.
pub first_bit_lem :
    (n rem w pos : ℕ)
    → w < 2 ^ n
    → w ≢ 0
    → rem + n ≡ 64
    → (r : ℕ) × (v : ℕ) × (first_bit n rem w ≡ some (r, v))
      × (rem ≤ r)
      × (r < 64)
      × (r ≡ rem → w % 2 ≡ 1)
      × (bits_of n pos w ≡ (pos + (r - rem)) ∷ bits_of (63 - r) (pos + (r - rem) + 1) (v / 2))
unfolding first_bit bits_of
first_bit_lem zero rem w pos h ne e = absurd (omega arith)
first_bit_lem (suc n) rem w pos h ne e = elim (Bool-cases (w % 2 == 1)) [
  | inl odd ↦
      let odd' : (bit_and w 1 == 1) ≡ true = ground (arith, bit_and-one w) in
      let left : n ≡ 63 - rem = omega arith in
      let here : pos ≡ pos + (rem - rem) = omega arith in
      (
        rem,
        w,
        rw odd',
        omega arith,
        omega arith,
        λ z. ground arith,
        rw odd (
            ap (λ k. k ∷ bits_of n (k + 1) (w / 2)) here
            ∙ ap (λ k. (pos + (rem - rem)) ∷ bits_of k (pos + (rem - rem) + 1) (w / 2)) left),
      )
  | inr even ↦
      let even' : (bit_and w 1 == 1) ≡ false = ground (arith, bit_and-one w) in
      let (r, v, f, lo, hi, first, b) =
        first_bit_lem n (rem + 1) (w / 2) (pos + 1) (omega (arith, pow-suc 2 n))
          (λ z. ground (arith, parity w)) (omega arith) in
      let at : pos + 1 + (r - (rem + 1)) ≡ pos + (r - rem) = omega arith in
      (r, v, rw even' f, omega arith, hi, λ z. absurd (omega arith), rw even (rw at at b))
]

abbrev pub Small : List ℕ → Type 0
Small ws = (q : ℕ) → get_or ws q 0 < 2 ^ 64

-- An iterator that has `L` still to visit.
abbrev pub Outcome : List ℕ → SetIterator → Type 0
Outcome L it = ((it.i ≡ 0) × (L ≡ [])) ⊎ (IsAt it × (L ≡ remaining it) × Small it.rest)

bits_in-zero : (pos w : ℕ) (ws : List ℕ) → w ≡ 0 → bits_in pos (w ∷ ws) ≡ bits_in (pos + 64) ws
unfolding bits_in
bits_in-zero pos w ws z =
    ap (λ l. l ++ bits_in (pos + 64) ws) (ap (bits_of 64 pos) z ∙ bits_of-zero 64 pos)

bits_in-cons :
    (pos w : ℕ) (ws : List ℕ) → bits_in pos (w ∷ ws) ≡ bits_of 64 pos w ++ bits_in (pos + 64) ws
unfolding bits_in
bits_in-cons pos w ws = refl

bits_of-odd :
    (n m pos w : ℕ) → n ≡ suc m → w % 2 ≡ 1 → bits_of n pos w ≡ pos ∷ bits_of m (pos + 1) (w / 2)
unfolding bits_of
bits_of-odd n m pos w e odd =
    let odd' : (w % 2 == 1) ≡ true = (==_iff (w % 2) 1).1 odd in rw (e, odd') refl

bits_of-even :
    (n m pos w : ℕ) → n ≡ suc m → w % 2 ≡ 0 → bits_of n pos w ≡ bits_of m (pos + 1) (w / 2)
unfolding bits_of
bits_of-even n m pos w e even =
    let even' : (w % 2 == 1) ≡ false = ground arith in rw (e, even') refl

pub Outcome-subst : {L M : List ℕ} {it : SetIterator} → L ≡ M → Outcome M it → Outcome L it
Outcome-subst {L} {M} {it} e o = subst (λ l. Outcome l it) (sym e) o

first_item-positive : (r q b : ℕ) → (r ≡ 0 → b ≡ 1) → (q ≡ 0 → b ≡ 0) → 1 ≤ r + 64 * q
first_item-positive r (suc q) b odd even = omega arith
first_item-positive (suc r) zero b odd even = omega arith
first_item-positive zero zero b odd even = absurd (omega (arith, odd refl, even refl))

pub next_block_lem :
    (q : ℕ) (ws : List ℕ)
    → Small ws
    → (q ≡ 0 → get_or ws 0 0 % 2 ≡ 0)
    → (it : SetIterator) × (next_block q ws ≡ some it) × Outcome (bits_in (64 * q) ws) it
unfolding next_block remaining bits_in
next_block_lem q [] small even = (done, refl, inl (refl, refl))
next_block_lem q (w ∷ ws) small even = elim (Bool-cases (w == 0)) [
  | inl z ↦
      let (it, e, o) = next_block_lem (q + 1) ws (λ r. small (suc r)) (λ h. absurd (omega arith)) in
      let at : 64 * (q + 1) ≡ 64 * q + 64 = omega arith in
      (it, rw z e, Outcome-subst (bits_in-zero (64 * q) w ws ((==_iff w 0).0 z)) (rw at at o))
  | inr z ↦
      let (r, v, f, lo, hi, odd, b) =
        first_bit_lem 64 0 w (64 * q) (small 0) (λ n. ground arith) (omega arith) in
      let at : 64 * q + (r - 0) ≡ r + 64 * q = omega arith in
      let next : 64 * q + 64 ≡ 64 * (q + 1) = omega arith in
      (
        record { i = r + 64 * q; rem = r; quot = q; word = v; rest = ws },
        rw (z, f),
        inr (
          record {
            position = refl;
            in_word = hi;
            positive = first_item-positive r q (w % 2) odd even;
          },
          rw (bits_in-cons (64 * q) w ws, b, at, next),
          λ k. small (suc k),
        ),
      )
]

-- From an item, `next` goes to the first of those that are left.
next_bit_lem :
    (n rem q w : ℕ) (ws : List ℕ)
    → Small ws
    → 64 ≤ rem + n
    → rem < 64
    → 1 ≤ rem + 64 * q
    → (it : SetIterator) × (next_bit n rem q w ws ≡ some it)
      × Outcome (bits_of (63 - rem) (rem + 64 * q + 1) (w / 2) ++ bits_in (64 * (q + 1)) ws) it
unfolding next_bit bits_of remaining
next_bit_lem zero rem q w ws small e one pos = absurd (omega arith)
next_bit_lem (suc n) rem q w ws small e one pos = elim (Bool-cases ((rem + 1) % 64 == 0)) [
  | inl z ↦
      let none_left : 63 - rem ≡ 0 = ground arith in
      let (it, f, o) = next_block_lem (q + 1) ws small (λ h. absurd (omega arith)) in
      (
        it,
        rw z f,
        Outcome-subst
            (ap (λ k. bits_of k (rem + 64 * q + 1) (w / 2) ++ bits_in (64 * (q + 1)) ws) none_left)
            o,
      )
  | inr z ↦
      let left : 63 - rem ≡ suc (62 - rem) = ground arith in
      let at : rem + 64 * q + 1 ≡ rem + 1 + 64 * q = omega arith in
      let shorter : 62 - rem ≡ 63 - (rem + 1) = omega arith in
      elim (Bool-cases (w / 2 % 2 == 1)) [
        | inl odd ↦
            let odd' : (bit_and (w / 2) 1 == 1) ≡ true = ground (arith, bit_and-one (w / 2)) in
            (
              record { i = rem + 1 + 64 * q; rem = rem + 1; quot = q; word = w / 2; rest = ws },
              rw (z, odd'),
              inr (
                record { position = refl; in_word = ground arith; positive = omega arith },
                rw
                    (
                      at,
                      bits_of-odd (63 - rem) (62 - rem) (rem + 1 + 64 * q) (w / 2) left
                          ((==_iff (w / 2 % 2) 1).0 odd),
                      shorter,
                    )
                    refl,
                small,
              ),
            )
        | inr even ↦
            let even' : (bit_and (w / 2) 1 == 1) ≡ false = ground (arith, bit_and-one (w / 2)) in
            let (it, f, o) =
              next_bit_lem n (rem + 1) q (w / 2) ws small (omega arith) (ground arith)
                (omega arith) in
            let here : bits_of (63 - rem) (rem + 64 * q + 1) (w / 2)
                ≡ bits_of (63 - (rem + 1)) (rem + 1 + 64 * q + 1) (w / 2 / 2) =
              bits_of-even (63 - rem) (62 - rem) (rem + 64 * q + 1) (w / 2) left
                (ground (arith, parity (w / 2)))
              ∙ ap (λ k. bits_of k (rem + 64 * q + 1 + 1) (w / 2 / 2)) shorter
              ∙ ap (λ k. bits_of (63 - (rem + 1)) k (w / 2 / 2)) (omega arith) in
            (it, rw (z, even') f, Outcome-subst (ap (λ l. l ++ bits_in (64 * (q + 1)) ws) here) o)
      ]
]

-- The loop visits what is left and ends.
pub visit_lem :
    (fuel : ℕ) (L : List ℕ) (it : SetIterator)
    → Outcome L it
    → length L < fuel
    → visit fuel it ≡ some L
unfolding visit next remaining
visit_lem zero L it o h = absurd (omega arith)
visit_lem (suc fuel) L it (inl (z, e)) h = rw (z, e) refl
visit_lem (suc fuel) L it (inr (at, e, small)) h =
    let moving : (it.i == 0) ≡ false = ground (arith, at.positive) in
    let rest =
      bits_of (63 - it.rem) (it.i + 1) (it.word / 2) ++ bits_in (64 * (it.quot + 1)) it.rest in
    let from : bits_of (63 - it.rem) (it.i + 1) (it.word / 2)
        ≡ bits_of (63 - it.rem) (it.rem + 64 * it.quot + 1) (it.word / 2) =
      ap (λ p. bits_of (63 - it.rem) (p + 1) (it.word / 2)) at.position in
    let (it', f, o) =
      next_bit_lem 64 it.rem it.quot it.word it.rest small (omega arith) at.in_word
        (omega (arith, at.positive, at.position)) in
    let fewer : length rest < fuel = omega (arith, ap length e) in
    let later =
      visit_lem fuel rest it'
        (Outcome-subst (ap (λ l. l ++ bits_in (64 * (it.quot + 1)) it.rest) from) o) fewer in
    rw (moving, f, later, e) refl

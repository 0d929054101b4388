-- ===== src/DenseSet/InsertOne.antt =====
-- dense_set.cpp, insert_one: it inserts the least item that is free.
use Prim.Native.Nat.{bit_or, bit_xor}
use native.Mathlib.Decide.{dec_lt, dec_le}
use pomagma.Prelude.{
  ℕ, ◌+◌, ◌*◌, ◌/◌, ◌%◌, ◌^◌, ◌≤◌, ◌<◌, ◌≡◌, ◌≢◌, refl, sym, ap, ◌∙◌, true, false, ◌==◌,
  if◌then◌else◌, some, get_or, set, length, length-set, arith, Bool-cases, inl, inr,
}
use pomagma.Word.{complement}
use pomagma.Word.Bits.{get_bit, get_bit-zero}
use pomagma.Word.Ref.{get_bit-complement}
use pomagma.DenseSet.{DenseSet, contains, insert, IsValid}
use pomagma.DenseSet.Element.{
  contains_at, contains-eq-get_bit, contains-insert, insert-IsValid, ext,
}
use pomagma.DenseSet.Scan.{free_word, free_bit, insert_one}
use pomagma.DenseSet.Free.{some_bit, FreeWord, free_word_lem, free_bit_lem}
use pomagma.DenseSet.Flip.{flip, bit, bit-flip, bit-fill, flip-Small, fill-Small}

-- The item that `insert_one` takes.
pub record FreeItem (s : DenseSet) (i : ℕ) : Type 0 where
  pub positive : 1 ≤ i
  pub in_range : i ≤ s.item_dim
  pub absent : contains s i ≡ false
  pub least : (k : ℕ) → 1 ≤ k → k < i → contains s k ≡ true

module _ (s : DenseSet) (v : IsValid s) where
  nonempty : 0 < length s.words
  nonempty = omega (arith, v.sized)

  no_zero : contains s 0 ≡ false
  no_zero = elim (Bool-cases (contains s 0)) [
    | inl e ↦ absurd (omega (arith, (v.ranged 0 e).0))
    | inr e ↦ e
  ]

  -- With bit 0 turned on, the free bits are the items to insert.
  bit_flipped :
      (q t : ℕ)
      → t < 64
      → bit (flip s.words) q t ≡ (if 64 * q + t == 0 then true else contains s (64 * q + t))
  bit_flipped q t h =
      ground (arith, bit-flip s.words q t nonempty, contains_at s q t (64 * q + t) refl h, no_zero)

  module _ (q t : ℕ) (lq : q < length s.words) (lt : t < 64) where
    abbrev filled : DenseSet
    filled =
        let ws = flip s.words in
        record s { words = flip (set ws q (bit_or (get_or ws q 0) (2 ^ t))) }

    length-flip : length (flip s.words) ≡ length s.words
    length-flip = length-set s.words 0 (bit_xor (get_or s.words 0 0) 1)

    contains-filled :
        (i : ℕ)
        → 1 ≤ 64 * q + t
        → contains filled i ≡ (if 64 * q + t == i then true else contains s i)
    contains-filled i pos =
        let ws = flip s.words in
        let r = i / 64 in
        let k = i % 64 in
        let e : 64 * r + k ≡ i = omega arith in
        rw (contains-eq-get_bit filled i) (
          ground (
            arith,
            bit-flip (set ws q (bit_or (get_or ws q 0) (2 ^ t))) r k (
                omega
                  (arith, length-set ws q (bit_or (get_or ws q 0) (2 ^ t)), length-flip, nonempty)),
            bit-fill ws q t r k (omega (arith, length-flip)),
            bit-flip s.words r k nonempty,
            contains-eq-get_bit s i,
            no_zero,
          ))

    filled-IsValid : 1 ≤ 64 * q + t → 64 * q + t ≤ s.item_dim → IsValid filled
    filled-IsValid pos fits =
        let ws = flip s.words in
        let full = set ws q (bit_or (get_or ws q 0) (2 ^ t)) in
        let len : length full ≡ length s.words =
          length-set ws q (bit_or (get_or ws q 0) (2 ^ t)) ∙ length-flip in
        record {
          sized = length-set full 0 (bit_xor (get_or full 0 0) 1) ∙ len ∙ v.sized;
          small = flip-Small full (omega (arith, len, nonempty)) (
              fill-Small ws q t (omega (arith, length-flip)) lt
                (flip-Small s.words nonempty v.small));
          ranged = λ i h. ground (arith, contains-filled i pos, v.ranged i);
        }

    filled-eq-insert : 1 ≤ 64 * q + t → 64 * q + t ≤ s.item_dim → filled ≡ insert s (64 * q + t)
    filled-eq-insert pos fits =
        ext (filled-IsValid pos fits) (insert-IsValid v (64 * q + t) fits pos)
          (unfold insert in refl)
          (λ i. contains-filled i pos ∙ sym (contains-insert v (64 * q + t) fits i))

    -- A free bit of the flipped words is an item that is not in the set.
    free_item :
        get_bit (complement (get_or (flip s.words) q 0)) t ≡ true
        → (1 ≤ 64 * q + t) × (contains s (64 * q + t) ≡ false)
    free_item free =
        let small = flip-Small s.words nonempty v.small q in
        ground
          (arith, bit_flipped q t lt, get_bit-complement (get_or (flip s.words) q 0) t small lt)

    -- Below the first free bit every item is in the set.
    all_below :
        FreeWord (flip s.words) q
        → ((i : ℕ) → 0 ≤ i → i < t → get_bit (complement (get_or (flip s.words) q 0)) i ≡ false)
        → (k : ℕ) → 1 ≤ k
        → k < 64 * q + t
        → contains s k ≡ true
    all_below fw off k pos h =
        let ws = flip s.words in
        let r = k / 64 in
        let small = flip-Small s.words nonempty v.small r in
        let e : 64 * r + k % 64 ≡ k = omega arith in
        elim (dec_lt r q) [
          | yes l ↦ ground (
            arith,
            e,
            fw.1 r l,
            get_bit-zero (k % 64),
            bit_flipped r (k % 64) (omega arith),
            get_bit-complement (get_or ws r 0) (k % 64) small (omega arith),
          )
          | no l ↦
              let same : r ≡ q = omega arith in
              ground (
                arith,
                e,
                off (k % 64) (omega arith) (omega arith),
                bit_flipped q (k % 64) (omega arith),
                get_bit-complement (get_or ws q 0) (k % 64) (rw same at small) (omega arith),
              )
        ]

-- What the two loops of `insert_one` find.
module _ (s : DenseSet) (v : IsValid s) (j : ℕ) (pos : 1 ≤ j) (fits : j ≤ s.item_dim)
    (out : contains s j ≡ false) where
  not_full : complement (get_or (flip s.words) (j / 64) 0) ≢ 0
  not_full z =
      let e : 64 * (j / 64) + j % 64 ≡ j = omega arith in
      ground (
        arith,
        e,
        bit_flipped s v (j / 64) (j % 64) (omega arith),
        get_bit-complement (get_or (flip s.words) (j / 64) 0) (j % 64)
            (flip-Small s.words (nonempty s v) v.small (j / 64)) (omega arith),
        get_bit-zero (j % 64),
      )

  record Found (q t : ℕ) : Type 0 where
    word : free_word (flip s.words) 0 ≡ some q
    within : q < length s.words
    first : FreeWord (flip s.words) q
    bits :
        free_bit 64 (complement (get_or (flip s.words) q 0)) 1 (64 * q) ≡ some (2 ^ t, 64 * q + t)
    small : t < 64
    free : get_bit (complement (get_or (flip s.words) q 0)) t ≡ true
    lowest : (i : ℕ) → 0 ≤ i → i < t → get_bit (complement (get_or (flip s.words) q 0)) i ≡ false

  found : (q : ℕ) × (t : ℕ) × Found q t
  found =
      let ws = flip s.words in
      let len : length ws ≡ length s.words =
        length-set s.words 0 (bit_xor (get_or s.words 0 0) 1) in
      let (q, e, b, fw) = free_word_lem ws 0 (j / 64) (omega (arith, len, v.sized)) not_full in
      let (k, h, on) = some_bit 64 (complement (get_or ws q 0)) (omega arith) fw.0 in
      let (t, e', lo, hi, on', low) =
        free_bit_lem 64 (complement (get_or ws q 0)) 0 (64 * q) k refl (omega arith) h on in
      (
        q,
        t,
        record {
          word = e ∙ ap some (omega arith);
          within = omega (arith, b, len);
          first = fw;
          bits = e' ∙ ap (λ o. some (2 ^ t, o)) (omega arith);
          small = hi;
          free = on';
          lowest = low;
        },
      )

  insert_one-Found :
      (q t : ℕ)
      → Found q t
      → (insert_one s ≡ some (64 * q + t, insert s (64 * q + t))) × FreeItem s (64 * q + t)
  unfolding insert_one
  insert_one-Found q t f =
      let (pos', absent) = free_item s v q t f.within f.small f.free in
      let least = all_below s v q t f.within f.small f.first f.lowest in
      let fits' : 64 * q + t ≤ s.item_dim = below least in
      (
        rw (f.word, f.bits, insert_one)
            (ap (λ (r : DenseSet). some (64 * q + t, r))
              (filled-eq-insert s v q t f.within f.small pos' fits')),
        record { positive = pos'; in_range = fits'; absent = absent; least = least },
      )
    where
      below : ((k : ℕ) → 1 ≤ k → k < 64 * q + t → contains s k ≡ true) → 64 * q + t ≤ s.item_dim
      below least = elim (dec_le (64 * q + t) j) [
        | yes h ↦ omega arith
        | no h ↦ ground (arith, least j pos (omega arith))
      ]

-- If an item in range is missing, `insert_one` stays within the array, returns the least missing
-- item and inserts it.
pub insert_one_lem :
    (s : DenseSet) (j : ℕ)
    → IsValid s
    → 1 ≤ j
    → j ≤ s.item_dim
    → contains s j ≡ false
    → (i : ℕ) × (insert_one s ≡ some (i, insert s i)) × FreeItem s i
insert_one_lem s j v pos fits out =
    let (q, t, f) = found s v j pos fits out in
    let (e, free) = insert_one-Found s v j pos fits out q t f in (64 * q + t, e, free)

-- ===== src/DenseSet/Order.antt =====
-- Inclusion, disjointness, equality and emptiness against membership.
use Prim.Native.Nat.{bit_and, bit_or}
use pomagma.Prelude.{
  ℕ, zero, suc, ◌+◌, ◌*◌, ◌/◌, ◌%◌, ◌≡◌, ◌≢◌, ◌↔◌, refl, sym, ap, ◌∙◌, List, [], ◌∷◌, Bool, true,
  false, ◌&&◌, get_or, ◌==◌, ==_iff, Bool-cases, inl, inr, arith,
}
use pomagma.Word.Bits.{get_bit-zero, eq_of_bits, bit_or-eq-zero, bit_or_zeros}
use pomagma.DenseSet.{DenseSet, contains, IsValid}
use pomagma.DenseSet.Element.{contains-eq-get_bit, ext}
use pomagma.DenseSet.Whole.{
  zip_words, or_words, subset, likely_disjoint, disjoint_words, unlikely_disjoint, eq_words, equal,
  empty_words, empty,
}
use pomagma.DenseSet.Algebra.{
  IsBitwise, and-IsBitwise, and_not-IsBitwise, contains-combined, combined-IsValid,
}

-- All words of an array are zero.
abbrev AllZero : List ℕ → Type 0
AllZero [] = Unit
AllZero (w ∷ ws) = (w ≡ 0) × AllZero ws

AllZero-get_or : (ws : List ℕ) → AllZero ws → (q : ℕ) → get_or ws q 0 ≡ 0
AllZero-get_or [] z q = refl
AllZero-get_or (w ∷ ws) z zero = z.0
AllZero-get_or (w ∷ ws) z (suc q) = AllZero-get_or ws z.1 q

get_or-AllZero : (ws : List ℕ) → ((q : ℕ) → get_or ws q 0 ≡ 0) → AllZero ws
get_or-AllZero [] z = tt
get_or-AllZero (w ∷ ws) z = (z 0, get_or-AllZero ws (λ q. z (suc q)))

-- An array is zero exactly when no item is in the set.
AllZero-iff : {s : DenseSet} → IsValid s → AllZero s.words ↔ ((i : ℕ) → contains s i ≡ false)
AllZero-iff {s} v = (to, from)
  where
    to : AllZero s.words → (i : ℕ) → contains s i ≡ false
    to z i = rw (contains-eq-get_bit s i, AllZero-get_or s.words z (i / 64)) (get_bit-zero (i % 64))

    from : ((i : ℕ) → contains s i ≡ false) → AllZero s.words
    from none_in = get_or-AllZero s.words λ q.
        eq_of_bits 64 (get_or s.words q 0) 0 (v.small q) (omega arith) λ i h.
          let quot : (q * 64 + i) / 64 ≡ q = omega arith in
          let rem : (q * 64 + i) % 64 ≡ i = omega arith in
          let out = none_in (q * 64 + i) in
          (rw (contains-eq-get_bit s (q * 64 + i), quot, rem) at out) ∙ sym (get_bit-zero i)

-- The fold by `|=` is zero exactly when every word is.
or_words-eq-zero :
    (f : ℕ → ℕ → ℕ) (u : ℕ) (xs ys : List ℕ)
    → (or_words f u xs ys ≡ 0) ↔ ((u ≡ 0) × AllZero (zip_words f xs ys))
unfolding or_words zip_words
or_words-eq-zero f u [] ys = (λ h. (h, tt), λ h. h.0)
or_words-eq-zero f u (x ∷ xs) [] = (λ h. (h, tt), λ h. h.0)
or_words-eq-zero f u (x ∷ xs) (y ∷ ys) =
    let rest = or_words-eq-zero f (bit_or u (f x y)) xs ys in
    (
      λ h. let both = bit_or-eq-zero u (f x y) (rest.0 h).0 in (both.0, (both.1, (rest.0 h).1)),
      λ h. rest.1 (rw (h.0, h.1.0) bit_or_zeros, h.1.1),
    )

module _ {f : ℕ → ℕ → ℕ} {g : Bool → Bool → Bool} (op : IsBitwise f g) where
  module _ {s t : DenseSet} (v : IsValid s) (w : IsValid t) (e : s.item_dim ≡ t.item_dim) where
    -- The test made of a word loop holds exactly when `g` holds of no item.
    pub none_iff :
        ((or_words f 0 s.words t.words == 0) ≡ true)
        ↔ ((i : ℕ) → g (contains s i) (contains t i) ≡ false)
    none_iff =
        let z = or_words-eq-zero f 0 s.words t.words in
        let c = AllZero-iff (combined-IsValid op s v w e refl) in
        (
          λ h i. sym (contains-combined op s v w e i) ∙ c.0 (z.0 ((==_iff _ 0).0 h)).1 i,
          λ h. (==_iff _ 0).1 (z.1 (refl, c.1 (λ i. contains-combined op s v w e i ∙ h i))),
        )

module _ {s t : DenseSet} (v : IsValid s) (w : IsValid t) (e : s.item_dim ≡ t.item_dim) where
  -- `s <= t` decides whether each item of `s` is in `t`.
  pub subset_iff : (subset s t ≡ true) ↔ ((i : ℕ) → contains s i ≡ true → contains t i ≡ true)
  unfolding subset
  subset_iff =
      let c = none_iff and_not-IsBitwise v w e in
      (λ h i p. ground (arith, c.0 h i), λ h. c.1 (λ i. ground (arith, h i)))

or_words_ne_zero :
    (f : ℕ → ℕ → ℕ) (u : ℕ) (xs ys : List ℕ) → u ≢ 0 → (or_words f u xs ys == 0) ≡ false
or_words_ne_zero f u xs ys h = elim (Bool-cases (or_words f u xs ys == 0)) [
  | inl z ↦ absurd (h ((or_words-eq-zero f u xs ys).0 ((==_iff _ 0).0 z)).0)
  | inr n ↦ n
]

disjoint_words-or_words : (xs ys : List ℕ) → disjoint_words xs ys ≡ (or_words bit_and 0 xs ys == 0)
unfolding disjoint_words or_words
disjoint_words-or_words [] ys = refl
disjoint_words-or_words (x ∷ xs) [] = refl
disjoint_words-or_words (x ∷ xs) (y ∷ ys) = elim (Bool-cases (bit_and x y == 0)) [
  | inl z ↦ rw (z, (==_iff (bit_and x y) 0).0 z, bit_or_zeros) (disjoint_words-or_words xs ys)
  | inr n ↦ rw n (
      sym (
        or_words_ne_zero bit_and (bit_or 0 (bit_and x y)) xs ys
          (λ b. ground (arith, bit_or-eq-zero 0 (bit_and x y) b))))
]

-- The loop that stops early and the loop that reads all words give the same answer.
pub unlikely_disjoint-eq-likely_disjoint :
    (s t : DenseSet) → unlikely_disjoint s t ≡ likely_disjoint s t
unfolding unlikely_disjoint likely_disjoint
unlikely_disjoint-eq-likely_disjoint s t = disjoint_words-or_words s.words t.words

module _ {s t : DenseSet} (v : IsValid s) (w : IsValid t) (e : s.item_dim ≡ t.item_dim) where
  -- Both tests decide whether no item is in both sets.
  pub disjoint_iff :
      ((likely_disjoint s t ≡ true) ↔ ((i : ℕ) → (contains s i && contains t i) ≡ false))
      × (unlikely_disjoint s t ≡ likely_disjoint s t)
  unfolding likely_disjoint
  disjoint_iff = (none_iff and-IsBitwise v w e, unlikely_disjoint-eq-likely_disjoint s t)

empty_words_iff : (ws : List ℕ) → (empty_words ws ≡ true) ↔ AllZero ws
unfolding empty_words
empty_words_iff [] = (λ h. tt, λ h. refl)
empty_words_iff (w ∷ ws) =
    let rest = empty_words_iff ws in
    elim (Bool-cases (w == 0)) [
      | inl z ↦ (λ h. ((==_iff w 0).0 z, rest.0 (rw z at h)), λ h. rw z (rest.1 h.1))
      | inr n ↦ (λ h. let h' = rw n at h in cc, λ h. ground arith)
    ]

-- `empty` decides whether no item is in the set.
pub empty_iff : {s : DenseSet} → IsValid s → (empty s ≡ true) ↔ ((i : ℕ) → contains s i ≡ false)
unfolding empty
empty_iff {s} v =
    let z = empty_words_iff s.words in let c = AllZero-iff v in (λ h. c.0 (z.0 h), λ h. z.1 (c.1 h))

eq_words_iff : (xs ys : List ℕ) → (eq_words xs ys ≡ true) ↔ (xs ≡ ys)
unfolding eq_words
eq_words_iff [] [] = (λ h. refl, λ h. refl)
eq_words_iff [] (y ∷ ys) = (λ h. cc, λ h. cc)
eq_words_iff (x ∷ xs) [] = (λ h. cc, λ h. cc)
eq_words_iff (x ∷ xs) (y ∷ ys) =
    let rest = eq_words_iff xs ys in (λ h. ground (arith, rest.0), λ h. ground (arith, rest.1))

-- `operator==` decides whether two sets of one size have the same items.
pub equal_iff :
    {s t : DenseSet}
    → IsValid s
    → IsValid t
    → s.item_dim ≡ t.item_dim
    → (equal s t ≡ true) ↔ ((i : ℕ) → contains s i ≡ contains t i)
unfolding equal
equal_iff {s} {t} v w e =
    let c = eq_words_iff s.words t.words in
    (
      λ h i. rw (contains-eq-get_bit s i, contains-eq-get_bit t i, c.0 h),
      λ h. c.1 (ap (λ (r : DenseSet). r.words) (ext v w e h)),
    )

-- ===== src/DenseSet/Items.antt =====
-- dense_set.hpp: a loop over an iterator visits the items of its set.
use mathlib.Core.List.{append-nil}
use pomagma.Prelude.{
  leb, ltb, ◌||◌, ==_iff, ℕ, zero, suc, ◌+◌, ◌-◌, ◌*◌, ◌/◌, ◌%◌, ◌≤◌, ◌<◌, ◌≡◌, refl, sym, ap, ◌∙◌,
  List, [], ◌∷◌, ◌++◌, Bool, false, if◌then◌else◌, some, get_or, length, arith, ◌==◌, ◌&&◌, not,
  Bool-cases, inl, inr,
}
use pomagma.Word.Bits.{get_bit}
use pomagma.DenseSet.{DenseSet, contains, IsValid}
use pomagma.DenseSet.Element.{contains_at}
use pomagma.DenseSet.Sets.{Items, binary_sets}
use pomagma.DenseSet.Whole.{set_insn, set_diff}
use pomagma.DenseSet.Iter.{SetIterator, intersection, cut_words, iter_words, visit}
use pomagma.DenseSet.Visit.{bits_of, bits_in, next_block_lem, visit_lem, Outcome-subst}

-- The numbers from `start` on, among `n`, that pass a test.
unfoldable pub members : (ℕ → Bool) → ℕ → ℕ → List ℕ
members p start zero = []
members p start (suc n) =
    if p start then start ∷ members p (start + 1) n else members p (start + 1) n

pub members-append :
    (p : ℕ → Bool) (m n start : ℕ)
    → members p start (m + n) ≡ members p start m ++ members p (start + m) n
unfolding members
members-append p zero n start =
    let none : 0 + n ≡ n = omega arith in
    let here : start + 0 ≡ start = omega arith in rw (none, here) refl
members-append p (suc m) n start =
    let at : start + 1 + m ≡ start + suc m = omega arith in
    let total : suc m + n ≡ suc (m + n) = omega arith in
    let ih = members-append p m n (start + 1) in
    elim (Bool-cases (p start)) [
      | inl y ↦ rw (total, y, ih, at) refl
      | inr y ↦ rw (total, y, ih, at) refl
    ]

pub members-none :
    (p : ℕ → Bool) (n start : ℕ) → ((i : ℕ) → start ≤ i → p i ≡ false) → members p start n ≡ []
unfolding members
members-none p zero start h = refl
members-none p (suc n) start h =
    rw (h start (omega arith)) (members-none p n (start + 1) (λ i le. h i (omega arith)))

pub length-members : (p : ℕ → Bool) (n start : ℕ) → length (members p start n) ≤ n
unfolding members
length-members p zero start = omega arith
length-members p (suc n) start =
    ground (arith, length-members p n (start + 1), Bool-cases (p start))

bits_of-members :
    (p : ℕ → Bool) (n pos w : ℕ)
    → ((t : ℕ) → t < n → p (pos + t) ≡ get_bit w t)
    → bits_of n pos w ≡ members p pos n
unfolding bits_of members get_bit
bits_of-members p zero pos w h = refl
bits_of-members p (suc n) pos w h =
    let first : p pos ≡ (w % 2 == 1) = ap p (omega arith) ∙ h 0 (omega arith) in
    let ih =
      bits_of-members p n (pos + 1) (w / 2)
        (λ t lt. ap p (omega arith) ∙ h (suc t) (omega arith)) in
    rw (first, ih) refl

bits_in-members :
    (p : ℕ → Bool) (pos : ℕ) (ws : List ℕ)
    → ((q t : ℕ) → t < 64 → p (pos + 64 * q + t) ≡ get_bit (get_or ws q 0) t)
    → bits_in pos ws ≡ members p pos (64 * length ws)
unfolding bits_in members
bits_in-members p pos [] h = refl
bits_in-members p pos (w ∷ ws) h =
    let first = bits_of-members p 64 pos w (λ t lt. ap p (omega arith) ∙ h 0 t lt) in
    let ih = bits_in-members p (pos + 64) ws (λ q t lt. ap p (omega arith) ∙ h (suc q) t lt) in
    let all : 64 * length (w ∷ ws) ≡ 64 + 64 * length ws = omega arith in
    rw (all, members-append p 64 (64 * length ws) pos, first, ih) refl

-- All the bits of a valid set's array are those of its items.
module _ (s : DenseSet) (v : IsValid s) where
  bit_zero : contains s 0 ≡ false
  bit_zero = elim (Bool-cases (contains s 0)) [
    | inl y ↦ absurd (omega (arith, (v.ranged 0 y).0))
    | inr y ↦ y
  ]

  bits_beyond : (i : ℕ) → s.item_dim + 1 ≤ i → contains s i ≡ false
  bits_beyond i h = elim (Bool-cases (contains s i)) [
    | inl y ↦ absurd (omega (arith, (v.ranged i y).1))
    | inr y ↦ y
  ]

  bits-members : bits_in (64 * 0) s.words ≡ members (contains s) 1 s.item_dim
  unfolding members
  bits-members =
      let p = contains s in
      let n = s.item_dim in
      let spare = 64 * length s.words - (n + 1) in
      let all : 64 * length s.words ≡ suc (n + spare) = omega (arith, v.sized) in
      let beyond = members-none p spare (1 + n) (λ i h. bits_beyond i (omega arith)) in
      bits_in-members p (64 * 0) s.words
        (λ q t lt. contains_at s q t (64 * 0 + 64 * q + t) (omega arith) lt)
      ∙ ap (members p 0) all
      ∙ rw bit_zero (members-append p n spare 1 ∙ rw beyond (append-nil (members p 1 n)))

even_word : (w : ℕ) → get_bit w 0 ≡ false → w % 2 ≡ 0
unfolding get_bit
even_word w h = ground arith

-- An iterator over these words is made, and a loop over it ends after at most `n` steps and visits
-- exactly the numbers 1, ..., n that pass `p`, each once and in ascending order.
abbrev pub Visits : ℕ → (ℕ → Bool) → List ℕ → Type 0
Visits n p ws =
    (it : SetIterator) × (iter_words ws ≡ some it) × (visit (n + 1) it ≡ some (members p 1 n))

pub visit_items : (s : DenseSet) → IsValid s → Visits s.item_dim (contains s) s.words
unfolding iter_words
visit_items s v =
    let even : get_bit (get_or s.words 0 0) 0 ≡ false =
      sym (contains_at s 0 0 0 (omega arith) (omega arith)) ∙ bit_zero s v in
    let (it, made, o) =
      next_block_lem 0 s.words v.small (λ z. even_word (get_or s.words 0 0) even) in
    let few = length-members (contains s) s.item_dim 1 in
    (
      it,
      made,
      visit_lem (s.item_dim + 1) (members (contains s) 1 s.item_dim) it
          (Outcome-subst (sym (bits-members s v)) o) (omega arith),
    )

members_ext :
    (p q : ℕ → Bool) (n start : ℕ) → ((i : ℕ) → p i ≡ q i) → members p start n ≡ members q start n
unfolding members
members_ext p q zero start h = refl
members_ext p q (suc n) start h = rw (h start, members_ext p q n (start + 1) h) refl

Items-Visits : {n : ℕ} {p : ℕ → Bool} {s : DenseSet} → Items n p s → Visits n p s.words
Items-Visits {n} {p} {s} h =
    let (it, made, e) = visit_items s h.valid in
    (
      it,
      made,
      rw (ap (λ k. k + 1) h.size) at e
          ∙ ap some (members_ext (contains s) p s.item_dim 1 h.items ∙ ap (members p 1) h.size),
    )

-- Let `a`, `b` and `c` be valid sets of one size `n`. Each iterator that the code makes from them can
-- be made, and the loop over it ends after at most `n` steps. It visits in ascending order, once
-- each: for `iter`, the items of `a`; for `iter_insn` with one or two more sets, the items that all
-- have; for `iter_diff`, the items of `a` that are not in `b`.
pub intersection-Visits :
    (n : ℕ) {a b c : DenseSet} {p q r : ℕ → Bool}
    → Items n p a
    → Items n q b
    → Items n r c
    → Visits n p (intersection a.words [] [])
      × Visits n (λ i. p i && q i) (intersection a.words (b.words ∷ []) [])
      × Visits n (λ i. (p i && q i) && r i) (intersection a.words (b.words ∷ c.words ∷ []) [])
      × Visits n (λ i. p i && not (q i)) (intersection a.words [] (b.words ∷ []))
unfolding intersection cut_words set_insn set_diff
intersection-Visits n {a} {b} {c} ha hb hc =
    let (_, ab, diff) = binary_sets n a a b ha.size ha hb in
    let (_, abc, _) = binary_sets n a (set_insn a a b) c ha.size ab hc in
    (Items-Visits ha, Items-Visits ab, Items-Visits abc, Items-Visits diff)

abbrev pub elem : List ℕ → ℕ → Bool
elem [] j = false
elem (x ∷ xs) j = x == j || elem xs j

pub elem-members :
    (p : ℕ → Bool) (n start j : ℕ)
    → elem (members p start n) j ≡ (p j && (leb start j && ltb j (start + n)))
unfolding members
elem-members p zero start j = ground arith
elem-members p (suc n) start j =
    let ih = elem-members p n (start + 1) j in
    elim (Bool-cases (start == j)) [
      | inl y ↦
          let at : start ≡ j = (==_iff start j).0 y in let same = ap p at in ground (arith, ih)
      | inr other ↦ ground (arith, ih)
    ]

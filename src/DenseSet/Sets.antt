-- ===== src/DenseSet/Sets.antt =====
-- The named operations on whole sets: what each leaves in the set, in its operands and in `diff`.
use Prim.Native.Nat.{bit_and, bit_or}
use pomagma.Prelude.{
  ℕ, ◌≡◌, refl, sym, ap, ◌∙◌, List, [], ◌∷◌, Bool, false, not, ◌&&◌, ◌||◌, ◌↔◌, ◌==◌, arith, ap,
}
use pomagma.DenseSet.{DenseSet, contains, IsValid}
use pomagma.DenseSet.Whole.{
  zip_words, zip_words3, zip_words4, and_not, or_words, set_union, set_insn, set_insn3, set_diff,
  set_ppn, set_pnn, set_ppnn, add, mul, sub, merge, merge_diff, ensure,
}
use pomagma.DenseSet.Algebra.{
  IsBitwise, or-IsBitwise, and-IsBitwise, and_not-IsBitwise, zero-IsBitwise, combined,
  contains-combined, combined-IsValid,
}
use pomagma.DenseSet.Order.{none_iff}

-- `s` is a valid set of the size `n` whose items are those that pass `p`.
pub record Items (n : ℕ) (p : ℕ → Bool) (s : DenseSet) : Type 0 where
  pub valid : IsValid s
  pub size : s.item_dim ≡ n
  pub items : (i : ℕ) → contains s i ≡ p i

-- Three and four operands are two or three operations on two.
zip_left :
    (f h : ℕ → ℕ → ℕ) (xs ys zs : List ℕ)
    → zip_words3 (λ x y z. h (f x y) z) xs ys zs ≡ zip_words h (zip_words f xs ys) zs
unfolding zip_words zip_words3
zip_left f h [] ys zs = refl
zip_left f h (x ∷ xs) [] zs = refl
zip_left f h (x ∷ xs) (y ∷ ys) [] = refl
zip_left f h (x ∷ xs) (y ∷ ys) (z ∷ zs) = ap (◌∷◌ (h (f x y) z)) (zip_left f h xs ys zs)

zip_right :
    (f h : ℕ → ℕ → ℕ) (xs ys zs : List ℕ)
    → zip_words3 (λ x y z. h x (f y z)) xs ys zs ≡ zip_words h xs (zip_words f ys zs)
unfolding zip_words zip_words3
zip_right f h [] ys zs = refl
zip_right f h (x ∷ xs) [] zs = refl
zip_right f h (x ∷ xs) (y ∷ ys) [] = refl
zip_right f h (x ∷ xs) (y ∷ ys) (z ∷ zs) = ap (◌∷◌ (h x (f y z))) (zip_right f h xs ys zs)

zip_both :
    (f g h : ℕ → ℕ → ℕ) (xs ys zs ws : List ℕ)
    → zip_words4 (λ x y z w. h (f x y) (g z w)) xs ys zs ws
      ≡ zip_words h (zip_words f xs ys) (zip_words g zs ws)
unfolding zip_words zip_words4
zip_both f g h [] ys zs ws = refl
zip_both f g h (x ∷ xs) [] zs ws = refl
zip_both f g h (x ∷ xs) (y ∷ ys) [] ws = refl
zip_both f g h (x ∷ xs) (y ∷ ys) (z ∷ zs) [] = refl
zip_both f g h (x ∷ xs) (y ∷ ys) (z ∷ zs) (w ∷ ws) =
    ap (◌∷◌ (h (f x y) (g z w))) (zip_both f g h xs ys zs ws)

module _ {f : ℕ → ℕ → ℕ} {g : Bool → Bool → Bool} (op : IsBitwise f g) where
  combined-Items :
      (s : DenseSet) {n : ℕ} {a b : DenseSet} {p q : ℕ → Bool}
      → s.item_dim ≡ n
      → Items n p a
      → Items n q b
      → Items n (λ i. g (p i) (q i)) (combined op s a b)
  combined-Items s {n} {a} {b} d ha hb =
      let e : a.item_dim ≡ b.item_dim = ha.size ∙ sym hb.size in
      record {
        valid = combined-IsValid op s ha.valid hb.valid e (d ∙ sym ha.size);
        size = d;
        items = λ i. rw (contains-combined op s ha.valid hb.valid e i, ha.items i, hb.items i);
      }

pub self-Items : {s : DenseSet} → IsValid s → Items s.item_dim (contains s) s
self-Items v = record { valid = v; size = refl; items = λ i. refl }

module _ (n : ℕ) (s a b : DenseSet) {p q : ℕ → Bool} (d : s.item_dim ≡ n) (ha : Items n p a)
    (hb : Items n q b) where
  -- The three operations that write a set from two others.
  pub binary_sets :
      Items n (λ i. p i || q i) (set_union s a b)
      × Items n (λ i. p i && q i) (set_insn s a b)
      × Items n (λ i. p i && not (q i)) (set_diff s a b)
  unfolding set_union set_insn set_diff
  binary_sets = (
    combined-Items or-IsBitwise s d ha hb,
    combined-Items and-IsBitwise s d ha hb,
    combined-Items and_not-IsBitwise s d ha hb,
  )

  -- The operations in place.
  pub inplace_sets :
      Items n (λ i. p i || q i) (add a b)
      × Items n (λ i. p i && q i) (mul a b)
      × Items n (λ i. p i && not (q i)) (sub a b)
  unfolding add mul sub
  inplace_sets = (
    combined-Items or-IsBitwise a ha.size ha hb,
    combined-Items and-IsBitwise a ha.size ha hb,
    combined-Items and_not-IsBitwise a ha.size ha hb,
  )

  -- `merge(dep)` moves the items of `dep` over.
  pub merge_sets :
      let (s', dep') = merge a b in Items n (λ i. p i || q i) s' × Items n (λ i. false) dep'
  unfolding merge
  merge_sets =
      (combined-Items or-IsBitwise a ha.size ha hb, combined-Items zero-IsBitwise b hb.size ha hb)

  module _ {c r : ℕ → Bool} {t u : DenseSet} (hc : Items n c t) (hd : Items n r u) where
    -- The operations on three and four sets.
    pub ternary_sets :
        Items n (λ i. p i && q i && c i) (set_insn3 s a b t)
        × Items n (λ i. p i && q i && not (c i)) (set_ppn s a b t)
        × Items n (λ i. p i && not (q i || c i)) (set_pnn s a b t)
        × Items n (λ i. p i && q i && not (c i || r i)) (set_ppnn s a b t u)
    unfolding set_insn3 set_ppn set_pnn set_ppnn
    ternary_sets =
        let ab = combined-Items and-IsBitwise s d ha hb in
        (
          rw (zip_left bit_and bit_and) (combined-Items and-IsBitwise s d ab hc),
          rw (zip_left bit_and and_not) (combined-Items and_not-IsBitwise s d ab hc),
          rw (zip_right bit_or and_not)
              (combined-Items and_not-IsBitwise s d ha (combined-Items or-IsBitwise s d hb hc)),
          rw (zip_both bit_and bit_or and_not)
              (combined-Items and_not-IsBitwise s d ab (combined-Items or-IsBitwise s d hc hd)),
        )

-- The flag of a merge: set exactly when some item of `dep` is new.
changed_iff :
    {n : ℕ} {a b : DenseSet} {p q : ℕ → Bool}
    → Items n p a
    → Items n q b
    → (not (or_words and_not 0 b.words a.words == 0) ≡ false)
      ↔ ((i : ℕ) → (q i && not (p i)) ≡ false)
changed_iff {a = a} {b = b} ha hb =
    let z = none_iff and_not-IsBitwise hb.valid ha.valid (hb.size ∙ sym ha.size) in
    (
      λ h i. ground (arith, z.0 (ground arith) i, ha.items i, hb.items i),
      λ h. ground (arith, z.1 (λ i. rw (ha.items i, hb.items i) (h i))),
    )

module _ (n : ℕ) (a b t : DenseSet) {p q : ℕ → Bool} (ha : Items n p a) (hb : Items n q b)
    (d : t.item_dim ≡ n) where
  -- `merge(dep, diff)`: the union, the emptied `dep`, the new items, and a flag that is false
  -- exactly when there is no new item.
  pub merge_diff_sets :
      let (s', dep', diff', changed) = merge_diff a b t in
      Items n (λ i. p i || q i) s'
      × Items n (λ i. false) dep'
      × Items n (λ i. q i && not (p i)) diff'
      × ((changed ≡ false) ↔ ((i : ℕ) → (q i && not (p i)) ≡ false))
  unfolding merge_diff
  merge_diff_sets = (
    combined-Items or-IsBitwise a ha.size ha hb,
    combined-Items zero-IsBitwise b hb.size ha hb,
    combined-Items and_not-IsBitwise t d hb ha,
    changed_iff ha hb,
  )

  -- `ensure(src, diff)`: the same, and `src` stays.
  pub ensure_sets :
      let (s', diff', changed) = ensure a b t in
      Items n (λ i. p i || q i) s'
      × Items n (λ i. q i && not (p i)) diff'
      × ((changed ≡ false) ↔ ((i : ℕ) → (q i && not (p i)) ≡ false))
  unfolding ensure
  ensure_sets = (
    combined-Items or-IsBitwise a ha.size ha hb,
    combined-Items and_not-IsBitwise t d hb ha,
    changed_iff ha hb,
  )

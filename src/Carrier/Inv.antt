-- ===== src/Carrier/Inv.antt =====
-- The invariant of a carrier, and the operations that start and fill one.
use pomagma.Prelude.{
  ℕ, ◌+◌, ◌≤◌, ◌<◌, ◌≡◌, refl, sym, ap, [], Bool, true, false, ◌&&◌, ◌==◌, none, some, length,
  replicate, get_or-replicate, length-replicate, arith, Bool-cases, inl, inr,
}
use pomagma.Prelude.Count.{count, count_none, count-le, count-add, find_failing}
use pomagma.DenseSet
use pomagma.DenseSet.{DenseSet, contains, insert}
use pomagma.DenseSet.Element.{contains-new, new-IsValid}
use pomagma.Carrier.{Carrier, item_dim, rep_at, max_item_dim, create}
use pomagma.Carrier.Root.{Decreasing}

-- `ob` is the representative of its class.
abbrev pub is_rep : Carrier → ℕ → Bool
is_rep c ob = contains c.support ob && rep_at c ob == ob

-- What `validate` checks (the ranges and the counts), and that a parent is an ob.
pub record IsValid (c : Carrier) : Type 0 where
  pub set : DenseSet.IsValid c.support
  pub small : item_dim c ≤ max_item_dim
  pub sized : length c.reps ≡ item_dim c + 1
  pub decreasing : Decreasing c.reps
  pub supported :
      (i : ℕ)
      → contains c.support i ≡ true
      → (1 ≤ rep_at c i) × (contains c.support (rep_at c i) ≡ true)
  pub unsupported : (i : ℕ) → contains c.support i ≡ false → rep_at c i ≡ 0
  pub items : c.item_count ≡ count (item_dim c + 1) (contains c.support)
  pub rep_items : c.rep_count ≡ count (item_dim c + 1) (is_rep c)

-- A new carrier is valid and empty; the constructor refuses exactly the dimensions that do not
-- fit an `Ob`.
pub create-IsValid :
    (n : ℕ)
    → (n ≤ max_item_dim → (c : Carrier) × (create n ≡ some c) × IsValid c × (c.item_count ≡ 0))
      × (max_item_dim < n → create n ≡ none)
unfolding create DenseSet.new
create-IsValid n = (fits, λ h. ground arith)
  where
    empty : Carrier
    empty = record {
      support = DenseSet.new n;
      item_count = 0;
      rep_count = 0;
      reps = replicate (1 + n) 0;
      merged = [];
    }

    no_items : (i : ℕ) → contains empty.support i ≡ false
    no_items i = contains-new n i

    fits : n ≤ max_item_dim → (c : Carrier) × (create n ≡ some c) × IsValid c × (c.item_count ≡ 0)
    fits h = (
      empty,
      ground arith,
      record {
        set = new-IsValid n;
        small = h;
        sized = omega (arith, length-replicate {A = ℕ} (1 + n) 0);
        decreasing = λ i. omega (arith, get_or-replicate {A = ℕ} (1 + n) i 0);
        supported = λ i e. ground (arith, no_items i);
        unsupported = λ i e. get_or-replicate {A = ℕ} (1 + n) i 0;
        items = sym (count_none (n + 1) (contains empty.support) (λ i k. no_items i));
        rep_items = sym (count_none (n + 1) (is_rep empty) (λ i k. ground (arith, no_items i)));
      },
      refl,
    )

module _ {c : Carrier} (v : IsValid c) where
  pub in_range : (i : ℕ) → contains c.support i ≡ true → i < length c.reps
  in_range i h = omega (arith, v.sized, (v.set.ranged i h).1)

  pub no_ob_zero : contains c.support 0 ≡ false
  no_ob_zero = elim (Bool-cases (contains c.support 0)) [
    | inl e ↦ absurd (omega (arith, (v.set.ranged 0 e).0))
    | inr e ↦ e
  ]

  -- A valid carrier below its dimension has room for an ob.
  pub free_ob :
      c.item_count < item_dim c
      → (j : ℕ) × (1 ≤ j) × (j ≤ item_dim c) × (contains c.support j ≡ false)
  free_ob h =
      let shift : item_dim c + 1 ≡ 1 + item_dim c = omega arith in
      let few : count (item_dim c) (λ i. contains c.support (1 + i)) < item_dim c = omega (
        arith,
        v.items,
        ap (λ n. count n (contains c.support)) shift,
        count-add 1 (item_dim c) (contains c.support),
      ) in
      let (i, l, f) = find_failing (item_dim c) (λ i. contains c.support (1 + i)) few in
      (1 + i, omega arith, omega arith, f)

  -- The counts fit a `size_t` with room to spare.
  pub counts_small : (c.item_count ≤ item_dim c + 1) × (c.rep_count ≤ item_dim c + 1)
  counts_small = omega (
    arith,
    v.items,
    v.rep_items,
    count-le (item_dim c + 1) (contains c.support),
    count-le (item_dim c + 1) (is_rep c),
    v.small,
  )

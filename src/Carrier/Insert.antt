-- ===== src/Carrier/Insert.antt =====
-- Carrier::unsafe_insert
use pomagma.Prelude.{
  ℕ, ◌+◌, ◌<◌, ◌≡◌, ◌≢◌, refl, ◌∙◌, true, ◌==◌, if◌then◌else◌, some, set, get_or-set, length-set,
  arith, Bool-cases, inl, inr, lt→ltb,
}
use pomagma.Prelude.Count.{count_drop}
use pomagma.Word.{inc_size}
use pomagma.DenseSet.{contains, insert}
use pomagma.DenseSet.Element.{contains-insert, insert-IsValid}
use pomagma.DenseSet.InsertOne.{FreeItem, insert_one_lem}
use pomagma.Carrier.{Carrier, item_dim, rep_at, unsafe_insert}
use pomagma.Carrier.Root.{Decreasing, root, root_unique, root_of_root, root-parent}
use pomagma.Carrier.Inv.{IsValid, is_rep, free_ob, counts_small}

-- The carrier with a new ob, its own representative.
abbrev added : Carrier → ℕ → Carrier
added c ob = record c {
  support = insert c.support ob;
  reps = set c.reps ob ob;
  item_count = inc_size c.item_count;
  rep_count = inc_size c.rep_count;
}

module _ {c : Carrier} (v : IsValid c) (ob : ℕ) (free : FreeItem c.support ob) where
  rep_at-added : (i : ℕ) → rep_at (added c ob) i ≡ (if ob == i then ob else rep_at c i)
  rep_at-added i = get_or-set c.reps ob i ob 0 (omega (arith, v.sized, free.in_range))

  contains-added :
      (i : ℕ) → contains (insert c.support ob) i ≡ (if ob == i then true else contains c.support i)
  contains-added i = contains-insert v.set ob free.in_range i

  -- No ob points to a free one.
  not_parent : (i : ℕ) → rep_at c i ≢ ob
  not_parent i e = elim (Bool-cases (contains c.support i)) [
    | inl h ↦ ground (arith, v.supported i h, free.absent)
    | inr h ↦ ground (arith, v.unsupported i h, free.positive)
  ]

  added-Decreasing : Decreasing (added c ob).reps
  added-Decreasing i = ground (arith, rep_at-added i, v.decreasing i)

  root-added : (i : ℕ) → root (added c ob).reps i ≡ (if ob == i then ob else root c.reps i)
  root-added =
      root_unique (added c ob).reps added-Decreasing (λ i. if ob == i then ob else root c.reps i)
        (λ i e. ground (arith, rep_at-added i, root_of_root c.reps v.decreasing i))
        (λ i ne. ground (arith, rep_at-added i, not_parent i, root-parent c.reps v.decreasing i))

  added-IsValid : IsValid (added c ob)
  added-IsValid = record {
    set = insert-IsValid v.set ob free.in_range free.positive;
    small = unfold insert in v.small;
    sized = unfold insert in (length-set c.reps ob ob ∙ v.sized);
    decreasing = added-Decreasing;
    supported = λ i e. ground (
      arith,
      rep_at-added i,
      contains-added i,
      contains-added (rep_at (added c ob) i),
      v.supported i,
      free.positive,
    );
    unsupported = λ i e. ground (arith, rep_at-added i, contains-added i, v.unsupported i);
    items =
        unfold insert in
        omega (
          arith,
          counts_small v,
          v.small,
          v.items,
          count_drop (item_dim c + 1) ob (contains (insert c.support ob)) (contains c.support)
              (omega (arith, free.in_range)) (ground (arith, contains-added ob))
              (λ i. ground (arith, contains-added i, free.absent)),
        );
    rep_items =
        unfold insert in
        omega (
          arith,
          counts_small v,
          v.small,
          v.rep_items,
          count_drop (item_dim c + 1) ob (is_rep (added c ob)) (is_rep c)
              (omega (arith, free.in_range))
              (unfold insert in ground (arith, rep_at-added ob, contains-added ob))
              (λ i. ground (arith, rep_at-added i, contains-added i, free.absent)),
        );
  }

-- `unsafe_insert`: below the dimension it returns the least free ob, which becomes an ob and its own
-- representative; the other obs keep theirs, both counts go up by one, and the carrier stays valid.
pub unsafe_insert_lem :
    {c : Carrier}
    → IsValid c
    → c.item_count < item_dim c
    → (ob : ℕ) × (c' : Carrier) × (unsafe_insert c ≡ some (ob, c'))
      × FreeItem c.support ob
      × IsValid c'
      × (c'.support ≡ insert c.support ob)
      × ((i : ℕ) → root c'.reps i ≡ (if ob == i then ob else root c.reps i))
      × (c'.item_count ≡ c.item_count + 1)
      × (c'.rep_count ≡ c.rep_count + 1)
unfolding unsafe_insert
unsafe_insert_lem {c} v h =
    let (j, pos, fits, out) = free_ob v h in
    let (ob, e, free) = insert_one_lem c.support j v.set pos fits out in
    (
      ob,
      added c ob,
      rw (lt→ltb _ _ h, e),
      free,
      added-IsValid v ob free,
      refl,
      root-added v ob free,
      omega (arith, counts_small v, v.small),
      omega (arith, counts_small v, v.small),
    )

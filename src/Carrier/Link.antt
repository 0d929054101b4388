-- ===== src/Carrier/Link.antt =====
-- The end of Carrier::merge: one class is put under another.
use pomagma.Prelude.{
  ℕ, suc, ◌+◌, ◌<◌, ◌≡◌, refl, ◌∙◌, true, false, ◌==◌, if◌then◌else◌, get_or-set, length-set, arith,
}
use pomagma.Prelude.Count.{count, count_drop}
use pomagma.DenseSet.{contains}
use pomagma.Carrier.{Carrier, item_dim, rep_at, link}
use pomagma.Carrier.Root.{Decreasing, root, root_unique, root_of_root, root-parent, root-le}
use pomagma.Carrier.Inv.{IsValid, is_rep, counts_small}

module _ {c : Carrier} (v : IsValid c) (dep rep : ℕ) (order : rep < dep) (top : rep_at c dep ≡ dep)
    (on_dep : contains c.support dep ≡ true) (on_rep : contains c.support rep ≡ true) where
  rep_at-link : (i : ℕ) → rep_at (link c dep rep) i ≡ (if dep == i then rep else rep_at c i)
  unfolding link
  rep_at-link i =
      get_or-set c.reps dep i rep 0 (omega (arith, v.sized, (v.set.ranged dep on_dep).1))

  link-Decreasing : Decreasing (link c dep rep).reps
  link-Decreasing i = ground (arith, rep_at-link i, v.decreasing i)

  -- The class of `dep` goes to the representative of `rep`, and the other classes stay.
  pub root-link :
      (i : ℕ)
      → root (link c dep rep).reps i
        ≡ (if root c.reps i == dep then root c.reps rep else root c.reps i)
  root-link =
      root_unique (link c dep rep).reps link-Decreasing
        (λ i. if root c.reps i == dep then root c.reps rep else root c.reps i)
        (λ i e. ground (arith, rep_at-link i, root_of_root c.reps v.decreasing i))
        (λ i ne. ground (
          arith,
          rep_at-link i,
          root_of_root c.reps v.decreasing dep top,
          root-parent c.reps v.decreasing i,
          root-le c.reps v.decreasing rep,
        ))

  pub link-IsValid : IsValid (link c dep rep)
  unfolding link
  link-IsValid = record {
    set = v.set;
    small = v.small;
    sized = length-set c.reps dep rep ∙ v.sized;
    decreasing = link-Decreasing;
    supported = λ i e.
        ground (arith, rep_at-link i, v.supported i, v.supported rep, (v.set.ranged rep on_rep).0);
    unsupported = λ i e. ground (arith, rep_at-link i, v.unsupported i);
    items = v.items;
    rep_items = omega (arith, counts_small v, v.small, v.rep_items, one_less);
  }
    where
      one_less :
          count (item_dim c + 1) (is_rep c) ≡ suc (count (item_dim c + 1) (is_rep (link c dep rep)))
      one_less =
          count_drop (item_dim c + 1) dep (is_rep c) (is_rep (link c dep rep))
            (omega (arith, (v.set.ranged dep on_dep).1)) (ground arith)
            (λ i. ground (arith, rep_at-link i))

  -- There was a representative to lose.
  pub rep_count-link : (link c dep rep).rep_count + 1 ≡ c.rep_count
  unfolding link
  rep_count-link = omega (
    arith,
    counts_small v,
    v.small,
    v.rep_items,
    count_drop (item_dim c + 1) dep (is_rep c) (λ i. if i == dep then false else is_rep c i)
        (omega (arith, (v.set.ranged dep on_dep).1)) (ground arith) (λ i. refl),
  )

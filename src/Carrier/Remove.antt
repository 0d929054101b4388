-- ===== src/Carrier/Remove.antt =====
-- Carrier::unsafe_remove
use pomagma.Prelude.{
  ℕ, suc, ◌+◌, ◌-◌, ◌≤◌, ◌<◌, ◌≡◌, ◌≢◌, refl, ap, ◌∙◌, List, true, false, ◌==◌, if◌then◌else◌, some,
  get_or, set, length, get_or-set, length-set, arith, Bool-cases, inl, inr, ==_iff,
}
use pomagma.Prelude.Count.{count, count_drop, count_congr}
use pomagma.Word.{dec_size}
use pomagma.DenseSet.{contains, remove}
use pomagma.DenseSet.Element.{contains-remove, remove-IsValid}
use pomagma.Carrier.{Carrier, item_dim, max_item_dim, next_ob, rep_at, redirect, unsafe_remove}
use pomagma.Carrier.Root.{
  Decreasing, root, root_unique, root_of_root, root-parent, root-le, parent-root, root-root,
}
use pomagma.Carrier.Inv.{IsValid, is_rep, counts_small}
use pomagma.Carrier.Redirect.{
  redirect_rounds, redirect-redirect_rounds, length-redirect_rounds, redirect_rounds_lem,
}
use pomagma.Carrier.Find.{climb-root, root-supported}

module _ {c : Carrier} (v : IsValid c) (ob : ℕ) (on : contains c.support ob ≡ true)
    (alone : root c.reps ob ≡ ob → (i : ℕ) → rep_at c i ≡ ob → i ≡ ob)
    (fits : item_dim c < max_item_dim) where
  -- The parents before the entry of `ob` is cleared.
  redirected : List ℕ
  redirected =
      if root c.reps ob == ob
      then c.reps
      else redirect_rounds (item_dim c - ob) (ob + 1) ob (root c.reps ob) c.reps

  removed : Carrier
  removed = record c {
    support = remove c.support ob;
    reps = set redirected ob 0;
    rep_count = if root c.reps ob == ob then dec_size c.rep_count else c.rep_count;
    item_count = dec_size c.item_count;
  }

  length-redirected : length redirected ≡ length c.reps
  unfolding redirected
  length-redirected = elim (Bool-cases (root c.reps ob == ob)) [
    | inl e ↦ rw e
    | inr e ↦ rw e (length-redirect_rounds (item_dim c - ob) (ob + 1) ob (root c.reps ob) c.reps)
  ]

  range : (1 ≤ ob) × (ob ≤ item_dim c)
  range = v.set.ranged ob on

  -- An ob other than `ob` that points to it is a greater ob.
  child : (i : ℕ) → i ≢ ob → rep_at c i ≡ ob → (ob < i) × (i < length c.reps)
  child i ne e = elim (Bool-cases (contains c.support i)) [
    | inl h ↦ ground (arith, v.decreasing i, v.set.ranged i h, v.sized)
    | inr h ↦ ground (arith, v.unsupported i h, range)
  ]

  get_or-redirected :
      (i : ℕ)
      → i ≢ ob
      → get_or redirected i 0 ≡ (if rep_at c i == ob then root c.reps ob else rep_at c i)
  unfolding redirected
  get_or-redirected i ne = elim (Bool-cases (root c.reps ob == ob)) [
    | inl e ↦ rw e (ground (arith, alone ((==_iff _ ob).0 e) i))
    | inr e ↦ rw e (
        ground (
          arith,
          redirect_rounds_lem (item_dim c - ob) (ob + 1) ob (root c.reps ob) c.reps i
              (omega (arith, v.sized, range)) (λ z. ground arith),
          child i ne,
        ))
  ]

  rep_at-removed :
      (i : ℕ)
      → rep_at removed i
        ≡ (if i == ob then 0 else if rep_at c i == ob then root c.reps ob else rep_at c i)
  unfolding removed
  rep_at-removed i = ground (
    arith,
    get_or-set redirected ob i 0 0 (omega (arith, length-redirected, v.sized, range)),
    get_or-redirected i,
  )

  contains-removed :
      (i : ℕ) → contains removed.support i ≡ (if ob == i then false else contains c.support i)
  unfolding removed
  contains-removed i = contains-remove v.set ob range.1 i

  removed-Decreasing : Decreasing removed.reps
  removed-Decreasing i =
      ground (arith, rep_at-removed i, v.decreasing i, root-le c.reps v.decreasing ob)

  -- Only an ob that is no representative is pointed to by others.
  moves : (i : ℕ) → i ≢ ob → rep_at c i ≡ ob → root c.reps ob ≢ ob
  moves i ne e z = ne (alone z i e)

  root-removed : (i : ℕ) → root removed.reps i ≡ (if i == ob then 0 else root c.reps i)
  root-removed =
      root_unique removed.reps removed-Decreasing (λ i. if i == ob then 0 else root c.reps i)
        (λ i e. ground (
          arith,
          range,
          rep_at-removed i,
          root_of_root c.reps v.decreasing i,
          root-le c.reps v.decreasing ob,
          v.decreasing i,
          child i,
        ))
        (λ i ne. elim (Bool-cases (rep_at c i == ob)) [
          | inl e ↦ ground (
            arith,
            range,
            rep_at-removed i,
            λ (n : i ≢ ob). moves i n ((==_iff _ ob).0 e),
            root-le c.reps v.decreasing 0,
            root-parent c.reps v.decreasing i,
            root-root c.reps v.decreasing ob,
          )
          | inr e ↦ ground (
            arith,
            range,
            rep_at-removed i,
            root-le c.reps v.decreasing 0,
            root-parent c.reps v.decreasing i,
          )
        ])

  fewer_items :
      count (item_dim c + 1) (contains c.support)
      ≡ suc (count (item_dim c + 1) (contains (remove c.support ob)))
  fewer_items =
      count_drop (item_dim c + 1) ob (contains c.support) (contains (remove c.support ob))
        (omega (arith, range)) on (λ i. contains-remove v.set ob range.1 i ∙ ground arith)

  rep_left : (i : ℕ) → is_rep removed i ≡ (if i == ob then false else is_rep c i)
  rep_left i =
      ground (arith, rep_at-removed i, contains-removed i, child i, root-le c.reps v.decreasing ob)

  reps_left : removed.rep_count ≡ count (item_dim c + 1) (is_rep removed)
  reps_left = elim (Bool-cases (root c.reps ob == ob)) [
    | inl e ↦
        let drop =
          count_drop (item_dim c + 1) ob (is_rep c) (is_rep removed) (omega (arith, range))
            (ground (arith, parent-root c.reps v.decreasing ob)) rep_left in
        unfold removed in rw e (omega (arith, counts_small v, v.small, v.rep_items, drop))
    | inr e ↦
        let same =
          count_congr (item_dim c + 1) (is_rep c) (is_rep removed)
            (λ i k. ground (arith, rep_left i, root_of_root c.reps v.decreasing ob)) in
        unfold removed in rw e (v.rep_items ∙ same)
  ]

  rep_count-removed : removed.rep_count + (if root c.reps ob == ob then 1 else 0) ≡ c.rep_count
  rep_count-removed = elim (Bool-cases (root c.reps ob == ob)) [
    | inl e ↦
        let drop =
          count_drop (item_dim c + 1) ob (is_rep c) (is_rep removed) (omega (arith, range))
            (ground (arith, parent-root c.reps v.decreasing ob)) rep_left in
        unfold removed in rw e (omega (arith, counts_small v, v.small, v.rep_items, drop))
    | inr e ↦ unfold removed in rw e (omega arith)
  ]

  removed-IsValid : IsValid removed
  removed-IsValid = record {
    set = unfold removed in remove-IsValid v.set ob range.1;
    small = unfold removed remove in v.small;
    sized = unfold removed remove in (length-set redirected ob 0 ∙ length-redirected ∙ v.sized);
    decreasing = removed-Decreasing;
    supported = λ i e. elim (Bool-cases (rep_at c i == ob)) [
      | inl p ↦ ground (
        arith,
        rep_at-removed i,
        contains-removed i,
        contains-removed (root c.reps ob),
        λ (n : i ≢ ob). moves i n ((==_iff _ ob).0 p),
        root-supported v ob on,
        v.set.ranged (root c.reps ob),
      )
      | inr p ↦ ground (
        arith,
        rep_at-removed i,
        contains-removed i,
        contains-removed (rep_at c i),
        v.supported i,
      )
    ];
    unsupported =
        λ i e. ground (arith, rep_at-removed i, contains-removed i, v.unsupported i, range);
    items = unfold removed remove in omega (arith, counts_small v, v.small, v.items, fewer_items);
    rep_items = unfold removed remove in reps_left;
  }

  parents :
      (if root c.reps ob == ob
        then some c.reps
        else redirect (item_dim c - ob + 1) (next_ob ob) (item_dim c) ob (root c.reps ob) c.reps)
      ≡ some redirected
  unfolding redirected
  parents = elim (Bool-cases (root c.reps ob == ob)) [
    | inl e ↦ rw e refl
    | inr e ↦
        let next : next_ob ob ≡ ob + 1 = omega (arith, range, fits) in
        rw e (
          ap (λ k. redirect (item_dim c - ob + 1) k (item_dim c) ob (root c.reps ob) c.reps) next
          ∙ redirect-redirect_rounds (item_dim c - ob) (ob + 1) (item_dim c) ob (root c.reps ob)
              c.reps (omega (arith, range)) fits)
  ]

  -- `unsafe_remove` in a carrier of less than the greatest dimension ends: the ob is gone, the other obs keep their representatives, the counts go down
  -- (rep_count only for a representative), and the carrier stays valid.
  pub unsafe_remove_lem :
      (c' : Carrier) × (unsafe_remove c ob ≡ some c')
      × IsValid c'
      × ((i : ℕ) → contains c'.support i ≡ (if ob == i then false else contains c.support i))
      × ((i : ℕ) → i ≢ ob → root c'.reps i ≡ root c.reps i)
      × (c'.item_count + 1 ≡ c.item_count)
      × (c'.rep_count + (if root c.reps ob == ob then 1 else 0) ≡ c.rep_count)
  unfolding unsafe_remove
  unsafe_remove_lem = (
    removed,
    rw (climb-root v ob, parents) (unfold removed in refl),
    removed-IsValid,
    contains-removed,
    λ i ne. ground (arith, root-removed i),
    unfold removed in omega (arith, counts_small v, v.small, v.items, fewer_items),
    rep_count-removed,
  )

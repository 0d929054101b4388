-- ===== src/Carrier/Merge.antt =====
-- Carrier::merge, ensure_equal, set_and_merge and set_or_merge.
use pomagma.Prelude.{
  ℕ, zero, suc, ◌+◌, ◌<◌, min, max, ◌≡◌, refl, sym, ap, ◌∙◌, [], ◌∷◌, ◌++◌, true, false, ◌==◌,
  if◌then◌else◌, ltb, some, arith, Bool-cases, inl, inr, ==_iff,
}
use pomagma.DenseSet.{contains}
use pomagma.Carrier.{Carrier, rep_at, link, merge_loop, merge, ensure_equal}
use pomagma.Carrier.Root.{root, root_of_root, root-parent, root-le}
use pomagma.Carrier.Inv.{IsValid}
use pomagma.Carrier.Link.{root-link, link-IsValid, rep_count-link}

-- What merging the classes of the representatives `a` and `b` does: the greater one goes under the
-- smaller, is no representative any more, and is handed to the callback; nothing if they are equal.
pub record Merged (c : Carrier) (a b : ℕ) (c' : Carrier) : Type 0 where
  pub valid : IsValid c'
  pub support : c'.support ≡ c.support
  pub roots :
      (i : ℕ) → root c'.reps i ≡ (if root c.reps i == max a b then min a b else root c.reps i)
  pub counts :
      (c'.item_count ≡ c.item_count) × (c'.rep_count + (if a == b then 0 else 1) ≡ c.rep_count)
  pub calls : c'.merged ≡ (if a == b then c.merged else c.merged ++ max a b ∷ [])

Merged-comm : {c c' : Carrier} {a b : ℕ} → Merged c a b c' → Merged c b a c'
Merged-comm {c} {c'} {a} {b} m = record {
  valid = m.valid;
  support = m.support;
  roots = λ i. ground (arith, m.roots i);
  counts = ground (arith, m.counts);
  calls =
      let hi : max b a ≡ max a b = omega arith in
      let eq : (b == a) ≡ (a == b) = ground arith in rw (hi, eq) m.calls;
}

pub Merged-same : {c : Carrier} {a b : ℕ} → IsValid c → a ≡ b → Merged c a b c
Merged-same {c} {a} {b} v e =
    let eq : (a == b) ≡ true = (==_iff a b).1 e in
    record {
      valid = v;
      support = refl;
      roots = λ i. ground arith;
      counts = (refl, rw eq (omega arith));
      calls = rw eq;
    }

Merged-link :
    {c : Carrier}
    → IsValid c
    → (dep rep : ℕ) → rep < dep
    → rep_at c dep ≡ dep
    → contains c.support dep ≡ true
    → contains c.support rep ≡ true
    → Merged c (root c.reps dep) (root c.reps rep) (link c dep rep)
Merged-link {c} v dep rep order top on_dep on_rep =
    let top' = root_of_root c.reps v.decreasing dep top in
    let low = root-le c.reps v.decreasing rep in
    let hi : max (root c.reps dep) (root c.reps rep) ≡ dep = omega (arith, top', low) in
    let ne : (root c.reps dep == root c.reps rep) ≡ false = ground (arith, top', low) in
    record {
      valid = link-IsValid v dep rep order top on_dep on_rep;
      support = unfold link in refl;
      roots = λ i. ground (arith, top', low, root-link v dep rep order top on_dep on_rep i);
      counts = (unfold link in refl, rw ne (rep_count-link v dep rep order top on_dep on_rep));
      calls = rw (ne, hi) (unfold link in refl);
    }

-- The loop of `merge` ends, whatever the order in which the two chains are climbed.
merge_loop_lem :
    (n : ℕ) {c : Carrier}
    → IsValid c
    → (dep rep : ℕ) → dep + rep < n
    → rep < dep
    → contains c.support dep ≡ true
    → contains c.support rep ≡ true
    → (r : ℕ) × (c' : Carrier) × (merge_loop n c dep rep ≡ some (r, c'))
      × Merged c (root c.reps dep) (root c.reps rep) c'
unfolding merge_loop
merge_loop_lem zero v dep rep h order on_dep on_rep = absurd (omega arith)
merge_loop_lem (suc n) {c} v dep rep h order on_dep on_rep =
    let up = rep_at c dep in
    let up_le = v.decreasing dep in
    let on_up = (v.supported dep on_dep).1 in
    let up_root = root-parent c.reps v.decreasing dep in
    elim (Bool-cases (up == dep)) [
      | inl e ↦ (
        rep,
        link c dep rep,
        rw e,
        Merged-link v dep rep order ((==_iff up dep).0 e) on_dep on_rep,
      )
      | inr e ↦ elim (Bool-cases (up == rep)) [
        | inl f ↦ (
          rep,
          c,
          rw (e, f),
          Merged-same v (sym up_root ∙ ap (root c.reps) ((==_iff up rep).0 f)),
        )
        | inr f ↦ elim (Bool-cases (ltb up rep)) [
          | inl g ↦
              let (r, c', run, m) =
                merge_loop_lem n v rep up (ground arith) (ground arith) on_rep on_up in
              (r, c', rw (e, f, g) run, rw up_root at (Merged-comm m))
          | inr g ↦
              let (r, c', run, m) =
                merge_loop_lem n v up rep (ground arith) (ground arith) on_up on_rep in
              (r, c', rw (e, f, g) run, rw up_root at m)
        ]
      ]
    ]

-- `merge` of two obs, the smaller one last, ends and merges their classes.
pub merge_lem :
    {c : Carrier}
    → IsValid c
    → (dep rep : ℕ) → rep < dep
    → contains c.support dep ≡ true
    → contains c.support rep ≡ true
    → (r : ℕ) × (c' : Carrier) × (merge c dep rep ≡ some (r, c'))
      × Merged c (root c.reps dep) (root c.reps rep) c'
unfolding merge
merge_lem v dep rep = merge_loop_lem (dep + rep + 1) v dep rep (omega arith)

-- `ensure_equal` of any two obs ends and merges their classes.
pub ensure_equal_lem :
    {c : Carrier}
    → IsValid c
    → (l r : ℕ) → contains c.support l ≡ true
    → contains c.support r ≡ true
    → (ob : ℕ) × (c' : Carrier) × (ensure_equal c l r ≡ some (ob, c'))
      × Merged c (root c.reps l) (root c.reps r) c'
unfolding ensure_equal
ensure_equal_lem {c} v l r on_l on_r = elim (Bool-cases (l == r)) [
  | inl e ↦ (l, c, rw e, Merged-same v (ap (root c.reps) ((==_iff l r).0 e)))
  | inr e ↦ elim (Bool-cases (ltb r l)) [
    | inl g ↦
        let g' : ltb l r ≡ false = ground arith in
        let (ob, c', run, m) = merge_lem v l r (ground arith) on_l on_r in
        (ob, c', rw (e, g, g') run, m)
    | inr g ↦
        let g' : ltb l r ≡ true = ground arith in
        let (ob, c', run, m) = merge_lem v r l (ground arith) on_r on_l in
        (ob, c', rw (e, g, g') run, Merged-comm m)
  ]
]

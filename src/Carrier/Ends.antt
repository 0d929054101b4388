-- ===== src/Carrier/Ends.antt =====
-- `Carrier::merge`, `ensure_equal`, `set_or_merge` and `set_and_merge` of
-- pomagma/atlas/macro/carrier.cpp on any carrier where no parent is greater than its ob, also where it
-- is not valid otherwise.
use pomagma.Prelude.{
  ℕ, zero, suc, ◌+◌, ◌<◌, ◌≡◌, refl, inl, inr, Bool, true, false, ◌==◌, ltb, get_or, get_or-set,
  length, List, [], ◌∷◌, ==_iff, some, arith, Bool-cases, if◌then◌else◌,
}
use pomagma.Carrier.Root.{Decreasing, root, root_unique, root_of_root, root-parent, root-le}
use pomagma.Carrier.Classes.{SameClass}
use pomagma.Carrier.{
  Carrier, rep_at, link, merge_loop, merge, ensure_equal, set_or_merge, set_and_merge,
}

-- No parent is greater than its ob, and equal obs stay equal.
abbrev pub Coarser : Carrier → Carrier → Type 0
Coarser c c' = Decreasing c'.reps × ((x y : ℕ) → SameClass c x y → SameClass c' x y)

pub Coarser-same : (c : Carrier) → Decreasing c.reps → Coarser c c
Coarser-same c d = (d, λ x y e. e)

pub Coarser-trans : (a b c : Carrier) → Coarser a b → Coarser b c → Coarser a c
Coarser-trans a b c (d, f) (d', g) = (d', λ x y e. g x y (f x y e))

nonzero-in_range : (xs : List ℕ) (i : ℕ) → 0 < get_or xs i 0 → i < length xs
nonzero-in_range [] i h = absurd (omega arith)
nonzero-in_range (x ∷ xs) zero h = omega arith
nonzero-in_range (x ∷ xs) (suc i) h = omega (arith, nonzero-in_range xs i h)

module _ (c : Carrier) (dep rep : ℕ) (order : rep < dep) (top : rep_at c dep ≡ dep)
    (d : Decreasing c.reps) where
  rep_at-link : (i : ℕ) → rep_at (link c dep rep) i ≡ (if dep == i then rep else rep_at c i)
  unfolding link
  rep_at-link i = get_or-set c.reps dep i rep 0 (nonzero-in_range c.reps dep (omega arith))

  link-Decreasing : Decreasing (link c dep rep).reps
  link-Decreasing i = ground (arith, rep_at-link i, d i)

  root-link :
      (i : ℕ)
      → root (link c dep rep).reps i
        ≡ (if root c.reps i == dep then root c.reps rep else root c.reps i)
  root-link =
      root_unique (link c dep rep).reps link-Decreasing
        (λ i. if root c.reps i == dep then root c.reps rep else root c.reps i)
        (λ i e. ground (arith, rep_at-link i, root_of_root c.reps d i))
        (λ i ne. ground (
          arith,
          rep_at-link i,
          root_of_root c.reps d dep top,
          root-parent c.reps d i,
          root-le c.reps d rep,
        ))

  link-Coarser : Coarser c (link c dep rep)
  link-Coarser = (link-Decreasing, λ x y e. ground (arith, root-link x, root-link y))

merge_loop-ends :
    (fuel : ℕ) (c : Carrier) (dep rep : ℕ)
    → Decreasing c.reps
    → rep < dep
    → dep + rep < fuel
    → (ob : ℕ) × (c' : Carrier) × (merge_loop fuel c dep rep ≡ some (ob, c')) × Coarser c c'
unfolding merge_loop
merge_loop-ends zero c dep rep d lt enough = absurd (omega arith)
merge_loop-ends (suc fuel) c dep rep d lt enough =
    let up_le = d dep in
    elim (Bool-cases (rep_at c dep == dep)) [
      | inl is_root ↦ (
        rep,
        link c dep rep,
        rw is_root refl,
        link-Coarser c dep rep lt ((==_iff (rep_at c dep) dep).0 is_root) d,
      )
      | inr below ↦ elim (Bool-cases (rep_at c dep == rep)) [
        | inl same ↦ (rep, c, rw (below, same) refl, Coarser-same c d)
        | inr differ ↦ elim (Bool-cases (ltb (rep_at c dep) rep)) [
          | inl less ↦
              let (ob, c', run, d') =
                merge_loop-ends fuel c rep (rep_at c dep) d (ground arith) (ground arith) in
              (ob, c', rw (below, differ, less) run, d')
          | inr more ↦
              let (ob, c', run, d') =
                merge_loop-ends fuel c (rep_at c dep) rep d (ground arith) (ground arith) in
              (ob, c', rw (below, differ, more) run, d')
        ]
      ]
    ]

pub ensure_equal-ends :
    (c : Carrier) (lhs rhs : ℕ)
    → Decreasing c.reps
    → (ob : ℕ) × (c' : Carrier) × (ensure_equal c lhs rhs ≡ some (ob, c')) × Coarser c c'
unfolding ensure_equal merge
ensure_equal-ends c lhs rhs d = elim (Bool-cases (lhs == rhs)) [
  | inl same ↦ (lhs, c, rw same refl, Coarser-same c d)
  | inr differ ↦
      let dep = if ltb rhs lhs then lhs else rhs in
      let rep = if ltb lhs rhs then lhs else rhs in
      let (ob, c', run, d') =
        merge_loop-ends (dep + rep + 1) c dep rep d (ground arith) (omega arith) in
      (ob, c', rw differ run, d')
]

pub set_or_merge-ends :
    (c : Carrier) (destin source : ℕ)
    → Decreasing c.reps
    → (b : Bool) × (ob : ℕ) × (c' : Carrier) × (set_or_merge c destin source ≡ some (b, ob, c'))
      × Coarser c c'
unfolding set_or_merge
set_or_merge-ends c destin source d = elim (Bool-cases (destin == 0)) [
  | inl undefined ↦ (true, source, c, rw undefined refl, Coarser-same c d)
  | inr value ↦
      let (ob, c', run, d') = ensure_equal-ends c destin source d in
      (false, destin, c', rw (value, run) refl, d')
]

pub set_and_merge-ends :
    (c : Carrier) (destin source : ℕ)
    → Decreasing c.reps
    → (b : Bool) × (ob : ℕ) × (c' : Carrier) × (set_and_merge c destin source ≡ some (b, ob, c'))
      × Coarser c c'
unfolding set_and_merge
set_and_merge-ends c destin source d = elim (Bool-cases (destin == source)) [
  | inl same ↦ (false, destin, c, rw same refl, Coarser-same c d)
  | inr differ ↦
      let (ob, c', run, d') = ensure_equal-ends c destin source d in
      (true, ob, c', rw (differ, run) refl, d')
]

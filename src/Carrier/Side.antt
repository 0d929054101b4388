-- ===== src/Carrier/Side.antt =====
-- Which ob `Carrier::set_and_merge` of pomagma/atlas/macro/carrier.hpp leaves as the new value.
use pomagma.Prelude.{
  ℕ, zero, suc, ◌+◌, ◌≡◌, sym, ap, ◌∙◌, ◌⊎◌, true, false, Bool, ◌==◌, ltb, some, arith, Bool-cases,
  inl, inr,
}
use pomagma.DenseSet.{contains}
use pomagma.Carrier.{Carrier, rep_at, merge_loop, merge, ensure_equal, set_and_merge}
use pomagma.Carrier.Root.{root, root-parent}
use pomagma.Carrier.Inv.{IsValid}
use pomagma.Carrier.Merge.{ensure_equal_lem}

-- An ob in the class of one of two obs
pub record IsSide (c : Carrier) (l r ob : ℕ) : Type 0 where
  pub on : contains c.support ob ≡ true
  pub side : (root c.reps ob ≡ root c.reps l) ⊎ (root c.reps ob ≡ root c.reps r)

IsSide-swap : {c : Carrier} {l r ob : ℕ} → IsSide c l r ob → IsSide c r l ob
IsSide-swap h = record { on = h.on; side = ground (arith, h.side) }

IsSide-right : (c : Carrier) (l r ob : ℕ) → contains c.support r ≡ true → r ≡ ob → IsSide c l r ob
IsSide-right c l r ob on e = record {
  on = ap (contains c.support) (sym e) ∙ on;
  side = inr (ap (root c.reps) (sym e));
}

merge_loop-IsSide :
    (n : ℕ) {c : Carrier}
    → IsValid c
    → (dep rep ob : ℕ) (c' : Carrier) → contains c.support dep ≡ true
    → contains c.support rep ≡ true
    → merge_loop n c dep rep ≡ some (ob, c')
    → IsSide c dep rep ob
unfolding merge_loop
merge_loop-IsSide zero v dep rep ob c' on_dep on_rep e = cc
merge_loop-IsSide (suc n) {c} v dep rep ob c' on_dep on_rep e =
    let up = rep_at c dep in
    let on_up = (v.supported dep on_dep).1 in
    let up_root = root-parent c.reps v.decreasing dep in
    elim (Bool-cases (up == dep)) [
      | inl top ↦ IsSide-right c dep rep ob on_rep (ground arith)
      | inr below ↦ elim (Bool-cases (up == rep)) [
        | inl met ↦ IsSide-right c dep rep ob on_rep (ground arith)
        | inr apart ↦ elim (Bool-cases (ltb up rep)) [
          | inl less ↦
              (let h = merge_loop-IsSide n v rep up ob c' on_rep on_up (ground arith) in
                record { on = h.on; side = ground (arith, h.side, up_root) })
          | inr more ↦
              (let h = merge_loop-IsSide n v up rep ob c' on_up on_rep (ground arith) in
                record { on = h.on; side = ground (arith, h.side, up_root) })
        ]
      ]
    ]

ensure_equal-IsSide :
    {c : Carrier}
    → IsValid c
    → (l r ob : ℕ) (c' : Carrier) → contains c.support l ≡ true
    → contains c.support r ≡ true
    → ensure_equal c l r ≡ some (ob, c')
    → IsSide c l r ob
unfolding ensure_equal merge
ensure_equal-IsSide {c} v l r ob c' on_l on_r e = elim (Bool-cases (l == r)) [
  | inl same ↦ IsSide-right c l r ob on_r (ground arith)
  | inr differ ↦ elim (Bool-cases (ltb r l)) [
    | inl less ↦
        merge_loop-IsSide (l + r + 1) v l r ob c' on_l on_r
          (let not_less : ltb l r ≡ false = ground arith in rw (differ, less, not_less) at e)
    | inr more ↦ IsSide-swap (
        merge_loop-IsSide (r + l + 1) v r l ob c' on_r on_l
          (let less : ltb l r ≡ true = ground arith in rw (differ, more, less) at e))
  ]
]

-- The new value of `set_and_merge` is an ob in the class of one of the two values.
pub set_and_merge-IsSide :
    {c : Carrier}
    → IsValid c
    → (destin source : ℕ) (b : Bool) (d : ℕ) (c' : Carrier) → contains c.support destin ≡ true
    → contains c.support source ≡ true
    → set_and_merge c destin source ≡ some (b, d, c')
    → IsSide c destin source d
unfolding set_and_merge
set_and_merge-IsSide {c} v l r b d c' on_l on_r e = elim (Bool-cases (l == r)) [
  | inl same ↦ IsSide-right c l r d on_r (ground arith)
  | inr differ ↦
      let (ob, c1, run, m) = ensure_equal_lem v l r on_l on_r in
      ensure_equal-IsSide v l r d c' on_l on_r (ground (arith, run))
]

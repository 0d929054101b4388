-- ===== src/Carrier/SameObs.antt =====
-- What `Carrier::ensure_equal`, `set_or_merge` and `set_and_merge` of pomagma/atlas/macro/carrier.cpp
-- leave alone, also where a carrier is not valid.
use pomagma.Prelude.{
  ℕ, zero, suc, ◌+◌, ◌≡◌, refl, inl, inr, Bool, ◌==◌, ltb, some, arith, Bool-cases, if◌then◌else◌,
  Option-cases,
}
use pomagma.Carrier.{
  Carrier, rep_at, link, merge_loop, merge, ensure_equal, set_or_merge, set_and_merge,
}

-- The same obs
abbrev pub SameObs : Carrier → Carrier → Type 0
SameObs c c' = (c'.support ≡ c.support) × (c'.item_count ≡ c.item_count)

link-SameObs : (c : Carrier) (dep rep : ℕ) → SameObs c (link c dep rep)
unfolding link
link-SameObs c dep rep = (refl, refl)

merge_loop-SameObs :
    (fuel : ℕ) (c c' : Carrier) (dep rep ob : ℕ)
    → merge_loop fuel c dep rep ≡ some (ob, c')
    → SameObs c c'
unfolding merge_loop
merge_loop-SameObs zero c c' dep rep ob e = cc
merge_loop-SameObs (suc fuel) c c' dep rep ob e = elim (Bool-cases (rep_at c dep == dep)) [
  | inl root ↦ ground (arith, link-SameObs c dep rep)
  | inr below ↦ elim (Bool-cases (rep_at c dep == rep)) [
    | inl same ↦ ground arith
    | inr differ ↦ elim (Bool-cases (ltb (rep_at c dep) rep)) [
      | inl less ↦ merge_loop-SameObs fuel c c' rep (rep_at c dep) ob (ground arith)
      | inr more ↦ merge_loop-SameObs fuel c c' (rep_at c dep) rep ob (ground arith)
    ]
  ]
]

pub ensure_equal-SameObs :
    (c c' : Carrier) (lhs rhs ob : ℕ) → ensure_equal c lhs rhs ≡ some (ob, c') → SameObs c c'
unfolding ensure_equal merge
ensure_equal-SameObs c c' lhs rhs ob e = elim (Bool-cases (lhs == rhs)) [
  | inl same ↦ ground arith
  | inr differ ↦
      merge_loop-SameObs
        ((if ltb rhs lhs then lhs else rhs) + (if ltb lhs rhs then lhs else rhs) + 1) c c'
        (if ltb rhs lhs then lhs else rhs) (if ltb lhs rhs then lhs else rhs) ob (ground arith)
]

pub set_or_merge-SameObs :
    (c c' : Carrier) (destin source d : ℕ) (b : Bool)
    → set_or_merge c destin source ≡ some (b, d, c')
    → SameObs c c'
unfolding set_or_merge
set_or_merge-SameObs c c' destin source d b e = elim (Option-cases (ensure_equal c destin source)) [
  | inl fails ↦ ground arith
  | inr ((ob, c1), run) ↦
      (let same = ensure_equal-SameObs c c1 destin source ob run in ground arith)
]

pub set_and_merge-SameObs :
    (c c' : Carrier) (destin source d : ℕ) (b : Bool)
    → set_and_merge c destin source ≡ some (b, d, c')
    → SameObs c c'
unfolding set_and_merge
set_and_merge-SameObs c c' destin source d b e =
    elim (Option-cases (ensure_equal c destin source)) [
      | inl fails ↦ ground arith
      | inr ((ob, c1), run) ↦
          (let same = ensure_equal-SameObs c c1 destin source ob run in ground arith)
    ]

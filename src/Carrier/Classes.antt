-- ===== src/Carrier/Classes.antt =====
-- The carrier as a partition of its obs: what ensure_equal and its callers do to the classes.
use pomagma.Prelude.{
  ℕ, min, max, ◌≡◌, ◌≢◌, ◌↔◌, ◌⊎◌, refl, sym, ap, ◌∙◌, Bool, true, false, not, ◌==◌, if◌then◌else◌,
  ltb, some, arith, Bool-cases, inl, inr, ==_iff,
}
use pomagma.DenseSet.{contains}
use pomagma.Carrier.{Carrier, ensure_equal, set_and_merge, set_or_merge, equal}
use pomagma.Carrier.Root.{root}
use pomagma.Carrier.Inv.{IsValid}
use pomagma.Carrier.Find.{equal-root}
use pomagma.Carrier.Merge.{Merged, Merged-same, ensure_equal_lem}

-- The specification of a carrier: an equivalence on obs.
abbrev pub SameClass : Carrier → ℕ → ℕ → Type 0
SameClass c x y = root c.reps x ≡ root c.reps y

-- The least equivalence above `R` that relates `l` and `r`, for an equivalence `R`.
pub data Joined (R : ℕ → ℕ → Type 0) (l r : ℕ) : ℕ → ℕ → Type 0 where
  old : {x y : ℕ} → R x y → Joined R l r x y
  new : Joined R l r l r
  back : {x y : ℕ} → Joined R l r x y → Joined R l r y x
  chain : {x y z : ℕ} → Joined R l r x y → Joined R l r y z → Joined R l r x z

module _ {c c' : Carrier} (l r : ℕ) (m : Merged c (root c.reps l) (root c.reps r) c') where
  Joined-SameClass : {x y : ℕ} → Joined (SameClass c) l r x y → SameClass c' x y
  Joined-SameClass (old {x} {y} e) = ground (arith, m.roots x, m.roots y)
  Joined-SameClass new = ground (arith, m.roots l, m.roots r)
  Joined-SameClass (back j) = sym (Joined-SameClass j)
  Joined-SameClass (chain j k) = Joined-SameClass j ∙ Joined-SameClass k

  -- An ob is joined to the class that it goes to.
  to_low :
      (x : ℕ)
      → root c.reps x ≡ max (root c.reps l) (root c.reps r)
      → (Joined (SameClass c) l r x l) × (Joined (SameClass c) l r x r)
  to_low x e = elim (Bool-cases (ltb (root c.reps l) (root c.reps r))) [
    | inl h ↦ let xr : SameClass c x r = ground arith in (chain (old xr) (back new), old xr)
    | inr h ↦ let xl : SameClass c x l = ground arith in (old xl, chain (old xl) new)
  ]

  low_end :
      (y : ℕ)
      → root c.reps y ≡ min (root c.reps l) (root c.reps r)
      → (SameClass c l y) ⊎ (SameClass c r y)
  low_end y e = elim (Bool-cases (ltb (root c.reps l) (root c.reps r))) [
    | inl h ↦ inl (ground arith)
    | inr h ↦ inr (ground arith)
  ]

  across :
      (x y : ℕ)
      → root c.reps x ≡ max (root c.reps l) (root c.reps r)
      → root c.reps y ≡ min (root c.reps l) (root c.reps r)
      → Joined (SameClass c) l r x y
  across x y hi lo = elim (low_end y lo) [
    | inl e ↦ chain (to_low x hi).0 (old e)
    | inr e ↦ chain (to_low x hi).1 (old e)
  ]

  SameClass-Joined : (x y : ℕ) → SameClass c' x y → Joined (SameClass c) l r x y
  SameClass-Joined x y e =
      let top = max (root c.reps l) (root c.reps r) in
      elim (Bool-cases (root c.reps x == top)) [
        | inl p ↦ elim (Bool-cases (root c.reps y == top)) [
          | inl q ↦ old (ground arith)
          | inr q ↦ across x y (ground arith) (ground (arith, m.roots x, m.roots y))
        ]
        | inr p ↦ elim (Bool-cases (root c.reps y == top)) [
          | inl q ↦ back (across y x (ground arith) (ground (arith, m.roots x, m.roots y)))
          | inr q ↦ old (ground (arith, m.roots x, m.roots y))
        ]
      ]

-- `ensure_equal` ends, keeps the carrier valid, and makes the equality of obs the least equivalence
-- that holds where it held and relates the two obs.
pub ensure_equal_classes :
    {c : Carrier}
    → IsValid c
    → (l r : ℕ) → contains c.support l ≡ true
    → contains c.support r ≡ true
    → (ob : ℕ) × (c' : Carrier) × (ensure_equal c l r ≡ some (ob, c'))
      × IsValid c'
      × ((x y : ℕ) → (equal c' x y ≡ some true) ↔ Joined (SameClass c) l r x y)
ensure_equal_classes {c} v l r on_l on_r =
    let (ob, c', run, m) = ensure_equal_lem v l r on_l on_r in
    (
      ob,
      c',
      run,
      m.valid,
      λ x y. (
        λ e. SameClass-Joined l r m x y (ground (arith, equal-root m.valid x y)),
        λ j. let same = Joined-SameClass l r m j in ground (arith, equal-root m.valid x y),
      ),
    )

-- `set_and_merge` of two obs ends, merges their classes, and says whether the two values differ.
pub set_and_merge_lem :
    {c : Carrier}
    → IsValid c
    → (destin source : ℕ) → contains c.support destin ≡ true
    → contains c.support source ≡ true
    → (b : Bool) × (d : ℕ) × (c' : Carrier) × (set_and_merge c destin source ≡ some (b, d, c'))
      × Merged c (root c.reps destin) (root c.reps source) c'
      × (b ≡ not (destin == source))
unfolding set_and_merge
set_and_merge_lem {c} v d s on_d on_s =
    let (ob, c', run, m) = ensure_equal_lem v d s on_d on_s in
    elim (Bool-cases (d == s)) [
      | inl e ↦ (false, d, c, rw e, Merged-same v (ap (root c.reps) ((==_iff d s).0 e)), rw e)
      | inr e ↦ (true, ob, c', rw (e, run), m, rw e)
    ]

-- `set_or_merge` ends: an empty `destin` (zero) takes the value of `source` and the carrier stays as
-- it is; a full one is kept and its class is merged with that of `source`. The result says which.
pub set_or_merge_lem :
    {c : Carrier}
    → IsValid c
    → (destin source : ℕ) → (destin ≢ 0 → contains c.support destin ≡ true)
    → contains c.support source ≡ true
    → (b : Bool) × (d : ℕ) × (c' : Carrier) × (set_or_merge c destin source ≡ some (b, d, c'))
      × (b ≡ (destin == 0))
      × (d ≡ (if destin == 0 then source else destin))
      × Merged c (root c.reps d) (root c.reps source) c'
unfolding set_or_merge
set_or_merge_lem {c} v d s on_d on_s = elim (Bool-cases (d == 0)) [
  | inl e ↦ (true, s, c, rw e, rw e, rw e, Merged-same v refl)
  | inr e ↦
      let (ob, c', run, m) = ensure_equal_lem v d s (on_d (λ z. ground arith)) on_s in
      (false, d, c', rw (e, run), rw e, rw e, m)
]

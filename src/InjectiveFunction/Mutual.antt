-- ===== src/InjectiveFunction/Mutual.antt =====
-- Two partial functions that invert one another up to an equivalence.
use mathlib.Core.Path.{subst}
use pomagma.Prelude.{
  ℕ, ◌≡◌, ◌≢◌, refl, ap, ◌∙◌, ◌==◌, ==_iff, if◌then◌else◌, arith, Bool-cases, inl, inr,
}

-- Where `v` has a value, `w` takes it back to an equal argument.
abbrev pub Inverts : (ℕ → ℕ → Type 0) → (ℕ → ℕ) → (ℕ → ℕ) → Type 0
Inverts R v w = (k : ℕ) → v k ≢ 0 → (w (v k) ≢ 0) × R (w (v k)) k

-- A new pair, where both functions keep what they have.
module _ (R R' : ℕ → ℕ → Type 0) (v w v' w' : ℕ → ℕ) (key val d e : ℕ)
    (more : (x y : ℕ) → R x y → R' x y) (hv : (k : ℕ) → v' k ≡ (if key == k then d else v k))
    (hw : (k : ℕ) → w' k ≡ (if val == k then e else w k))
    (hd : d ≡ (if v key == 0 then val else v key))
    (he : e ≡ (if w val == 0 then key else w val)) where
  kept : (x : ℕ) → w x ≢ 0 → w' x ≡ w x
  kept x nz = elim (Bool-cases (val == x)) [
    | inl y ↦ let at : val ≡ x = (==_iff val x).0 y in let same = ap w at in ground (arith, hw x)
    | inr n ↦ ground (arith, hw x)
  ]

  kept_inverse : (x k : ℕ) → w x ≢ 0 → R (w x) k → (w' x ≢ 0) × R' (w' x) k
  kept_inverse x k nz r = let same = kept x nz in rw same (nz, more (w x) k r)

  pub put-Inverts : key ≢ 0 → R' e key → Inverts R v w → Inverts R' v' w'
  put-Inverts ne new h k nz = elim (Bool-cases (key == k)) [
    | inl y ↦
        let here : key ≡ k = (==_iff key k).0 y in
        let value : v' k ≡ d = rw (hv k, y) refl in
        elim (Bool-cases (v key == 0)) [
          | inl z ↦
              let is_val : d ≡ val = rw (hd, z) refl in
              let last : w' val ≡ e = ground (arith, hw val) in
              let to_e : w' (v' k) ≡ e = ap w' (value ∙ is_val) ∙ last in
              rw to_e ((λ q. ground (arith, he)), rw here at new)
          | inr n ↦
              let is_old : d ≡ v key = rw (hd, n) refl in
              let old : v' k ≡ v key = value ∙ is_old in
              let (nz', r) = h key (λ q. ground arith) in
              rw old (kept_inverse (v key) k nz' (subst (λ j. R (w (v key)) j) here r))
        ]
    | inr n ↦
        let old : v' k ≡ v k = rw (hv k, n) refl in
        let (nz', r) = h k (λ q. nz (old ∙ q)) in rw old (kept_inverse (v k) k nz' r)
  ]

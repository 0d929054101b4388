-- ===== src/Carrier/Root.antt =====
-- The representative that an array of parents leads to.
use mathlib.Core.WellFounded
use pomagma.Prelude.{
  ℕ, zero, suc, ◌≤◌, ◌<◌, ◌≡◌, ◌≢◌, refl, sym, ap, ◌∙◌, List, ◌==◌, if◌then◌else◌, get_or, arith,
  Bool-cases, inl, inr, ==_iff,
}
use pomagma.Prelude.Order.{lt_wf}

root_fuel : ℕ → List ℕ → ℕ → ℕ
root_fuel zero reps i = i
root_fuel (suc n) reps i =
    let rest = root_fuel n reps (get_or reps i 0) in if get_or reps i 0 == i then i else rest

-- Where no parent is greater than its child, `i` steps lead to the representative of `i`.
unfoldable pub root : List ℕ → ℕ → ℕ
unfolding root_fuel
root reps i = root_fuel i reps i

-- No parent is greater than its child.
abbrev pub Decreasing : List ℕ → Type 0
Decreasing reps = (i : ℕ) → get_or reps i 0 ≤ i

root_fuel_enough :
    (reps : List ℕ)
    → Decreasing reps
    → (n m i : ℕ) → i ≤ n
    → i ≤ m
    → root_fuel n reps i ≡ root_fuel m reps i
unfolding root_fuel
root_fuel_enough reps d zero zero i h k = refl
root_fuel_enough reps d zero (suc m) i h k = ground (arith, d i)
root_fuel_enough reps d (suc n) zero i h k = ground (arith, d i)
root_fuel_enough reps d (suc n) (suc m) i h k =
    ground (arith, d i, root_fuel_enough reps d n m (get_or reps i 0))

-- One step towards the representative.
pub root_step :
    (reps : List ℕ) (i : ℕ)
    → Decreasing reps
    → root reps i ≡ (if get_or reps i 0 == i then i else root reps (get_or reps i 0))
unfolding root root_fuel
root_step reps zero d = ground (arith, d 0)
root_step reps (suc i) d =
    ground
      (arith, d (suc i), root_fuel_enough reps d i (get_or reps (suc i) 0) (get_or reps (suc i) 0))

-- What holds of the representatives and of a child if it holds of the parent holds of all.
pub root_induction :
    (reps : List ℕ)
    → Decreasing reps
    → (P : ℕ → Type 0) → ((i : ℕ) → get_or reps i 0 ≡ i → P i)
    → ((i : ℕ) → get_or reps i 0 ≢ i → get_or reps i 0 < i → P (get_or reps i 0) → P i)
    → (i : ℕ) → P i
root_induction reps d P base step i = WellFounded.induction lt_wf {C = P} i λ k ih.
    elim (Bool-cases (get_or reps k 0 == k)) [
      | inl e ↦ base k ((==_iff _ k).0 e)
      | inr e ↦
          let lt : get_or reps k 0 < k = ground (arith, d k) in
          step k (λ p. ground arith) lt (ih (get_or reps k 0) lt)
    ]

module _ (reps : List ℕ) (d : Decreasing reps) where
  pub root_of_root : (i : ℕ) → get_or reps i 0 ≡ i → root reps i ≡ i
  root_of_root i e = ground (arith, root_step reps i d)

  pub root-parent : (i : ℕ) → root reps (get_or reps i 0) ≡ root reps i
  root-parent i = elim (Bool-cases (get_or reps i 0 == i)) [
    | inl e ↦ ap (root reps) ((==_iff _ i).0 e)
    | inr e ↦ ground (arith, root_step reps i d)
  ]

  pub root-le : (i : ℕ) → root reps i ≤ i
  root-le =
      root_induction reps d (λ i. root reps i ≤ i) (λ i e. omega (arith, root_of_root i e))
        (λ i ne l h. omega (arith, root-parent i))

  -- The representative of an ob is its own parent.
  pub parent-root : (i : ℕ) → get_or reps (root reps i) 0 ≡ root reps i
  parent-root =
      root_induction reps d (λ i. get_or reps (root reps i) 0 ≡ root reps i)
        (λ i e. rw (root_of_root i e) e) (λ i ne l h. rw (root-parent i) at h)

  pub root-root : (i : ℕ) → root reps (root reps i) ≡ root reps i
  root-root i = root_of_root (root reps i) (parent-root i)

-- The root is the only function that fixes the representatives and goes along with parents.
pub root_unique :
    (reps : List ℕ)
    → Decreasing reps
    → (f : ℕ → ℕ) → ((i : ℕ) → get_or reps i 0 ≡ i → f i ≡ i)
    → ((i : ℕ) → get_or reps i 0 ≢ i → f i ≡ f (get_or reps i 0))
    → (i : ℕ) → root reps i ≡ f i
root_unique reps d f base step =
    root_induction reps d (λ i. root reps i ≡ f i) (λ i e. root_of_root reps d i e ∙ sym (base i e))
      (λ i ne l h. sym (root-parent reps d i) ∙ h ∙ sym (step i ne))

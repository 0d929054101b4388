-- ===== src/Carrier/Find.antt =====
-- Carrier::find and Carrier::equal: they return, and give the representative.
use pomagma.Prelude.{
  ℕ, zero, suc, ◌+◌, ◌≤◌, ◌<◌, ◌≡◌, sym, ap, ◌∙◌, true, ◌==◌, some, arith, Bool-cases, inl, inr,
  ==_iff,
}
use pomagma.DenseSet.{contains}
use pomagma.Carrier.{Carrier, rep_at, find_fuel, find, equal, climb}
use pomagma.Carrier.Root.{
  Decreasing, root, root_induction, root_of_root, root-parent, root-le, parent-root, root-root,
}
use pomagma.Carrier.Inv.{IsValid}

find_fuel_lem :
    (n : ℕ) (c : Carrier) (ob : ℕ)
    → Decreasing c.reps
    → ob < n
    → find_fuel n c ob ≡ some (root c.reps ob)
unfolding find_fuel
find_fuel_lem zero c ob d h = absurd (omega arith)
find_fuel_lem (suc n) c ob d h = elim (Bool-cases (rep_at c ob == ob)) [
  | inl e ↦ rw e (ap some (sym (root_of_root c.reps d ob ((==_iff _ ob).0 e))))
  | inr e ↦
      let deeper = find_fuel_lem n c (rep_at c ob) d (ground (arith, d ob)) in
      rw (e, deeper) (ground (arith, root-parent c.reps d ob, root-le c.reps d (rep_at c ob)))
]

climb_lem :
    (n : ℕ) (c : Carrier) (ob : ℕ)
    → Decreasing c.reps
    → ob < n
    → climb n c ob ≡ some (root c.reps ob)
unfolding climb
climb_lem zero c ob d h = absurd (omega arith)
climb_lem (suc n) c ob d h = elim (Bool-cases (rep_at c ob == ob)) [
  | inl e ↦ rw e (ap some (sym (root_of_root c.reps d ob ((==_iff _ ob).0 e))))
  | inr e ↦
      rw e
        (climb_lem n c (rep_at c ob) d (ground (arith, d ob)) ∙ ap some (root-parent c.reps d ob))
]

pub climb-root : {c : Carrier} → IsValid c → (ob : ℕ) → climb (ob + 1) c ob ≡ some (root c.reps ob)
climb-root {c} v ob = climb_lem (ob + 1) c ob v.decreasing (omega arith)

pub find-root : {c : Carrier} → IsValid c → (ob : ℕ) → find c ob ≡ some (root c.reps ob)
unfolding find
find-root {c} v ob = find_fuel_lem (ob + 1) c ob v.decreasing (omega arith)

-- The representative of an ob is an ob.
pub root-supported :
    {c : Carrier}
    → IsValid c
    → (ob : ℕ) → contains c.support ob ≡ true
    → contains c.support (root c.reps ob) ≡ true
root-supported {c} v =
    root_induction c.reps v.decreasing
      (λ i. contains c.support i ≡ true → contains c.support (root c.reps i) ≡ true)
      (λ i e h. rw (root_of_root c.reps v.decreasing i e) h)
      (λ i ne l h on. rw (root-parent c.reps v.decreasing i) at (h (v.supported i on).1))

-- `find` ends at every ob with a representative that is an ob no greater, its own parent, and the
-- same for an ob and its parent; a second `find` stays there.
pub find_lem :
    {c : Carrier}
    → IsValid c
    → (ob : ℕ) → contains c.support ob ≡ true
    → (rep : ℕ) × (find c ob ≡ some rep)
      × (contains c.support rep ≡ true)
      × (rep ≤ ob)
      × (rep_at c rep ≡ rep)
      × (find c (rep_at c ob) ≡ some rep)
      × (find c rep ≡ some rep)
find_lem {c} v ob h =
    let d = v.decreasing in
    (
      root c.reps ob,
      find-root v ob,
      root-supported v ob h,
      root-le c.reps d ob,
      parent-root c.reps d ob,
      find-root v (rep_at c ob) ∙ ap some (root-parent c.reps d ob),
      find-root v (root c.reps ob) ∙ ap some (root-root c.reps d ob),
    )

pub equal-root :
    {c : Carrier} → IsValid c → (l r : ℕ) → equal c l r ≡ some (root c.reps l == root c.reps r)
unfolding equal
equal-root v l r = rw (find-root v l, find-root v r)

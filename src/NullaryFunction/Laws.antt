-- ===== src/NullaryFunction/Laws.antt =====
-- The value of a nullary function after an insertion and through a merge with the removal after it.
use pomagma.Prelude.{
  ℕ, ◌<◌, ◌≡◌, ◌≢◌, refl, sym, ap, ◌∙◌, true, false, ◌==◌, ==_iff, if◌then◌else◌, some, arith,
  Bool-cases, inl, inr,
}
use pomagma.DenseSet.{contains}
use pomagma.Carrier.{Carrier, item_dim, max_item_dim, unsafe_remove}
use pomagma.Carrier.Inv
use pomagma.Carrier.Root.{root, root-root}
use pomagma.Carrier.Find.{find-root, root-supported}
use pomagma.Carrier.Remove.{unsafe_remove_lem}
use pomagma.Carrier.Classes.{SameClass, set_or_merge_lem}
use pomagma.NullaryFunction.{NullaryFunction, defined, find, insert, unsafe_merge, validate}

validate_supported :
    (c : Carrier) (f : NullaryFunction)
    → validate c f ≡ true
    → f.value ≢ 0
    → contains c.support f.value ≡ true
unfolding validate
validate_supported c f h ne = ground arith

-- `insert` ends for an ob and a function that passes `validate`. The carrier stays valid, the
-- function is defined and passes `validate` in it, the value is what it was if there was one, and
-- it is equal to the ob in the new carrier, where obs are equal that were equal before.
pub insert_value_lem :
    (c : Carrier) (val : ℕ) (f : NullaryFunction)
    → Inv.IsValid c
    → validate c f ≡ true
    → contains c.support val ≡ true
    → (f' : NullaryFunction) × (c' : Carrier) × (insert c val f ≡ some (f', c'))
      × Inv.IsValid c'
      × (validate c' f' ≡ true)
      × (defined f' ≡ true)
      × (find f' ≡ (if defined f then find f else val))
      × SameClass c' (find f') val
      × ((x y : ℕ) → SameClass c x y → SameClass c' x y)
unfolding insert validate defined find
insert_value_lem c val f v ok on =
    let (b, d, c', run, hb, hd, m) =
      set_or_merge_lem v f.value val (validate_supported c f ok) on in
    let (low, _) = v.set.ranged val on in
    let positive : (d == 0) ≡ false = ground (arith, hd) in
    let d_on : contains c.support d ≡ true = elim (Bool-cases (f.value == 0)) [
      | inl z ↦ rw (hd, z) on
      | inr n ↦ rw (hd, n) (validate_supported c f ok (λ q. ground arith))
    ] in
    (
      record { value = d },
      c',
      rw run refl,
      m.valid,
      rw (positive, m.support) d_on,
      rw positive refl,
      ground (arith, hd),
      ground (arith, m.roots d, m.roots val),
      λ x y e. ground (arith, m.roots x, m.roots y),
    )

-- For an ob `dep` that has another representative, of a valid carrier of less than the greatest
-- dimension, `unsafe_merge` and the
-- carrier's `unsafe_remove` of `dep` after it both end; the function still passes `validate`, is
-- defined if it was, and its value has the representative that it had.
pub merge_and_remove_lem :
    (c : Carrier) (dep : ℕ) (f : NullaryFunction)
    → Inv.IsValid c
    → item_dim c < max_item_dim
    → validate c f ≡ true
    → contains c.support dep ≡ true
    → root c.reps dep ≢ dep
    → (f' : NullaryFunction) × (c' : Carrier) × (unsafe_merge c dep f ≡ some f')
      × (unsafe_remove c dep ≡ some c')
      × (validate c' f' ≡ true)
      × (defined f' ≡ defined f)
      × (root c'.reps (find f') ≡ root c.reps (find f))
unfolding unsafe_merge validate defined find
merge_and_remove_lem c dep f v small ok on ne =
    let rep = root c.reps dep in
    let on_rep = root-supported v dep on in
    let (low, _) = v.set.ranged dep on in
    let (rep_low, _) = v.set.ranged rep on_rep in
    let (c', run, _, kept, roots, _, _) =
      unsafe_remove_lem v dep on (λ e i h. absurd (ne e)) small in
    elim (Bool-cases (f.value == dep)) [
      | inl y ↦
          let at = (==_iff f.value dep).0 y in
          let positive : (rep == 0) ≡ false = ground arith in
          let stays : contains c'.support rep ≡ true = ground (arith, kept rep) in
          (
            record { value = rep },
            c',
            rw (find-root v dep, y) refl,
            run,
            rw (positive, stays) refl,
            ground arith,
            roots rep ne ∙ root-root c.reps v.decreasing dep ∙ ap (root c.reps) (sym at),
          )
      | inr n ↦ (
        f,
        c',
        rw (find-root v dep, n) refl,
        run,
        (elim (Bool-cases (f.value == 0)) [
          | inl z ↦ rw z refl
          | inr nz ↦
              let stays : contains c'.support f.value ≡ true =
                ground (arith, kept f.value, validate_supported c f ok (λ q. ground arith)) in
              rw (nz, stays) refl
        ]),
        refl,
        roots f.value (λ q. ground arith),
      )
    ]

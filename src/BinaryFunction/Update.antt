-- ===== src/BinaryFunction/Update.antt =====
-- `BinaryFunction::update_values` of pomagma/atlas/macro/binary_function.cpp.
use mathlib.Core.Option
use mathlib.Core.Option.{some-injective}
use pomagma.Prelude.{
  ℕ, ◌≡◌, ◌≢◌, refl, sym, ap, ◌∙◌, List, [], ◌∷◌, true, not, ◌==◌, ==_iff, if◌then◌else◌, Option,
  none, some, arith, Bool-cases, Option-cases, inl, inr,
}
use pomagma.Prelude.Table.{pair_key, pair_same}
use pomagma.Prelude.Table.{find as find_pair}
use pomagma.DenseSet.{contains}
use pomagma.Carrier.{Carrier}
use pomagma.Carrier.Inv
use pomagma.Carrier.Inv.{is_rep}
use pomagma.Carrier.Root.{root, root-root, root_of_root, parent-root}
use pomagma.Carrier.Find.{find-root, root-supported}
use pomagma.BinaryFunction.{BinaryFunction, defined, find, update_each, update_values}
use pomagma.BinaryFunction.Insert.{IsOver}

same_if : (a b : ℕ) → (if a == b then b else a) ≡ a
same_if a b = ground arith

-- The loop over the values ends, each key has the representative of its value, and a second loop
-- changes nothing.
update_each_lem :
    (c : Carrier)
    → Inv.IsValid c
    → (m : List ((ℕ × ℕ) × ℕ))
    → (m' : List ((ℕ × ℕ) × ℕ)) × (update_each c m ≡ some m')
      × (update_each c m' ≡ some m')
      × ((p : ℕ × ℕ) → find_pair m' p ≡ Option.map (root c.reps) (find_pair m p))
unfolding update_each find_pair
update_each_lem c v [] = ([], refl, refl, λ p. refl)
update_each_lem c v ((pair, dep) ∷ m) =
    let (m', run, again, found) = update_each_lem c v m in
    let rep = root c.reps dep in
    (
      (pair, rep) ∷ m',
      rw (find-root v dep, run) (ap (λ x. some ((pair, x) ∷ m')) (same_if rep dep)),
      rw (find-root v rep, again, root-root c.reps v.decreasing dep)
          (ap (λ x. some ((pair, x) ∷ m')) (same_if rep rep)),
      λ p. elim (Bool-cases (pair_same pair p)) [
        | inl here ↦ rw here refl
        | inr away ↦ rw away (found p)
      ],
    )

root_zero : (c : Carrier) → Inv.IsValid c → root c.reps 0 ≡ 0
root_zero c v = root_of_root c.reps v.decreasing 0 (omega (arith, v.decreasing 0))

value_map :
    (g : ℕ → ℕ)
    → g 0 ≡ 0
    → (o : Option ℕ)
    → elim (Option.map g o) as (λ _. ℕ) [ none ↦ 0 | some x ↦ x ]
      ≡ g (elim o as (λ _. ℕ) [ none ↦ 0 | some x ↦ x ])
value_map g e none = sym e
value_map g e (some x) = refl

root-is_rep :
    (c : Carrier)
    → Inv.IsValid c
    → (ob : ℕ) → contains c.support ob ≡ true
    → is_rep c (root c.reps ob) ≡ true
root-is_rep c v ob on =
    let top = parent-root c.reps v.decreasing ob in ground (arith, root-supported v ob on, top)

root-none :
    (c : Carrier)
    → Inv.IsValid c
    → (x : ℕ) → (x ≢ 0 → contains c.support x ≡ true)
    → (root c.reps x == 0) ≡ (x == 0)
root-none c v x on = elim (Bool-cases (x == 0)) [
  | inl zero_x ↦
      let e = ap (root c.reps) ((==_iff x 0).0 zero_x) ∙ root_zero c v in ground (arith, e)
  | inr more ↦
      let above = v.set.ranged (root c.reps x) (root-supported v x (on (λ z. ground arith))) in
      ground (arith, above)
]

module _ (c : Carrier) (v : Inv.IsValid c) (f : BinaryFunction) (h : IsOver c f)
    (m : List ((ℕ × ℕ) × ℕ))
    (found : (i j : ℕ)
      → find (record { lines = f.lines; values = m }) i j ≡ root c.reps (find f i j))
    (mapped : (p : ℕ × ℕ) → find_pair m p ≡ Option.map (root c.reps) (find_pair f.values p)) where
  defined-nonzero : (i j : ℕ) → defined f i j ≡ true → find f i j ≢ 0
  defined-nonzero i j on z = ground (arith, h.agrees i j)

  root_values-nonzero : (p : ℕ × ℕ) → find_pair m p ≢ some 0
  unfolding find
  root_values-nonzero (i, j) e = elim (Option-cases (find_pair f.values (i, j))) [
    | inl absent ↦ cc (mapped (i, j), absent, e)
    | inr (x, there) ↦
        let value : find f i j ≡ x =
          ap (λ (o : Option ℕ). elim o as (λ _. ℕ) [ none ↦ 0 | some y ↦ y ]) there in
        let low : root c.reps x ≡ 0 =
          some-injective _ _
            (sym (ap (Option.map (root c.reps)) there) ∙ sym (mapped (i, j)) ∙ e) in
        let more : x ≢ 0 = λ z. h.full (i, j) (there ∙ ap some z) in
        let on = (h.supported i j (λ z. more (sym value ∙ z))).2 in
        let x_on : contains c.support x ≡ true = sym (ap (contains c.support) value) ∙ on in
        ground (arith, low, root-none c v x (λ _. x_on))
  ]

  root_values-IsOver : IsOver c (record { lines = f.lines; values = m })
  unfolding defined
  root_values-IsOver = record {
    lines = h.lines;
    agrees = λ i j.
        let same = root-none c v (find f i j) (λ n. (h.supported i j n).2) in
        h.agrees i j ∙ ap not (sym (ap (λ x. x == 0) (found i j) ∙ same));
    supported = λ i j n.
        let n' : find f i j ≢ 0 = λ z. n (found i j ∙ ap (root c.reps) z ∙ root_zero c v) in
        let (on, on', on_value) = h.supported i j n' in
        (on, on', ap (contains c.support) (found i j) ∙ root-supported v (find f i j) on_value);
    full = root_values-nonzero;
  }

  root_values-is_rep :
      (i j : ℕ)
      → defined f i j ≡ true
      → is_rep c (find (record { lines = f.lines; values = m }) i j) ≡ true
  root_values-is_rep i j on =
      ap (is_rep c) (found i j)
      ∙ root-is_rep c v (find f i j) (h.supported i j (defined-nonzero i j on)).2

-- On a valid carrier and a function for which what `validate` asserts holds, `update_values` ends: the
-- value of each pair becomes its representative, so that all values are representatives, as the code's
-- postcondition says. What `validate` asserts holds again, and a second call changes nothing.
pub update_values_lem :
    (c : Carrier)
    → Inv.IsValid c
    → (f : BinaryFunction) → IsOver c f
    → (f' : BinaryFunction) × (update_values c f ≡ some f')
      × IsOver c f'
      × ((i j : ℕ) → find f' i j ≡ root c.reps (find f i j))
      × ((i j : ℕ) → defined f' i j ≡ true → is_rep c (find f' i j) ≡ true)
      × (update_values c f' ≡ some f')
unfolding update_values defined find
update_values_lem c v f h =
    let (m', run, again, values) = update_each_lem c v f.values in
    let f' : BinaryFunction = record { lines = f.lines; values = m' } in
    let found : (i j : ℕ) → find f' i j ≡ root c.reps (find f i j) = λ i j.
      ap (λ o. elim o as (λ _. ℕ) [ none ↦ 0 | some x ↦ x ]) (values (i, j))
      ∙ value_map (root c.reps) (root_zero c v) (find_pair f.values (i, j)) in
    (
      f',
      rw run refl,
      root_values-IsOver c v f h m' found values,
      found,
      root_values-is_rep c v f h m' found values,
      rw again refl,
    )

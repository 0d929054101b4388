-- ===== src/SymmetricFunction/Examples.antt =====
-- Inputs of pomagma/atlas/macro/symmetric_function.hpp: tests and instances of the theorems.
use mathlib.Core.Option
use pomagma.Prelude.{ℕ, List, [], ◌∷◌, ◌≡◌, refl, true, false, ◌==◌, if◌then◌else◌, some, arith}
use pomagma.Prelude.Table.{pair_key}
use pomagma.Prelude.Table.{find as find_pair, put as put_pair}
use pomagma.DenseSet.{contains}
use pomagma.Carrier.{Carrier}
use pomagma.Carrier.Root.{root}
use pomagma.Carrier.Merge.{Merged}
use pomagma.Carrier.Classes.{SameClass}
use pomagma.Carrier.Examples.{sample, sample-IsValid}
use pomagma.SymmetricFunction.{
  SymmetricFunction, defined, find, insert, clear, one_both, make_sorted_pair,
}
use pomagma.SymmetricFunction.Insert.{
  same_pair, IsOver, clear-IsOver, one_both_lem, put-IsOver, insert_both_lem,
}

abbrev no_values : SymmetricFunction
no_values = clear sample (record { lines = []; values = [] })

-- The ob 3, which is merged into 1, is the value of 3 and 2.
abbrev one_value : SymmetricFunction
one_value = record {
  lines = one_both 3 2 no_values.lines;
  values = put_pair no_values.values (make_sorted_pair 3 2) 3;
}

on_2 : contains sample.support 2 ≡ true
unfolding contains
on_2 = refl

on_3 : contains sample.support 3 ≡ true
unfolding contains
on_3 = refl

one_value-IsOver : IsOver sample one_value
one_value-IsOver =
    let empty = clear-IsOver sample (record { lines = []; values = [] }) in
    let (lines, bits) =
      one_both_lem 4 3 2 (omega arith) (omega arith) (omega arith) (omega arith) no_values.lines
        empty.lines in
    put-IsOver sample sample no_values one_value.lines 3 2 3 refl empty lines bits on_3 on_2 on_3
      (λ e. absurd (omega arith))

-- A value of the pair in the other order is merged with the first.
second_value :
    Option.map {B = ℕ × List ℕ}
      (λ (r : SymmetricFunction × Carrier). (find r.0 3 2, r.1.reps))
      (insert sample 2 3 2 one_value)
    ≡ some (1, 0 ∷ 1 ∷ 1 ∷ 1 ∷ 0 ∷ [])
unfolding insert find find_pair put_pair clear make_sorted_pair pomagma.Carrier.set_and_merge
    pomagma.Carrier.ensure_equal pomagma.Carrier.merge pomagma.Carrier.merge_loop
    pomagma.Carrier.link
second_value = refl

insert_both_lem_example :
    (f' : SymmetricFunction) × (c' : Carrier) × (insert sample 2 3 2 one_value ≡ some (f', c'))
    × Merged sample
        (root sample.reps (if find one_value 2 3 == 0 then 2 else find one_value 2 3))
        (root sample.reps 2)
        c'
    × IsOver c' f'
    × SameClass c' (find f' 2 3) 2
    × (find f' 3 2 ≡ find f' 2 3)
    × (defined f' 2 3 ≡ true)
    × ((i j : ℕ) → same_pair 2 3 i j ≡ false → find f' i j ≡ find one_value i j)
insert_both_lem_example =
    insert_both_lem sample sample-IsValid one_value one_value-IsOver 2 3 2 on_2 on_3 on_2

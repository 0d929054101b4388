-- ===== src/BinaryFunction/Examples.antt =====
-- Inputs of pomagma/atlas/macro/binary_function.hpp: tests and instances of the theorems.
use mathlib.Core.Option
use pomagma.Prelude.{
  ◌≤◌, ◌↔◌, ℕ, List, ◌∷◌, ◌≡◌, refl, true, false, ◌&&◌, ◌==◌, [], if◌then◌else◌, some, arith,
}
use pomagma.Prelude.Table.{pair_key}
use pomagma.Prelude.Table.{find as find_pair, put as put_pair}
use pomagma.DenseSet.{contains}
use pomagma.Carrier.{Carrier}
use pomagma.Carrier.Inv.{is_rep}
use pomagma.Carrier.Root.{root}
use pomagma.Carrier.Merge.{Merged}
use pomagma.Carrier.Classes.{SameClass}
use pomagma.Carrier.Examples.{sample, sample-IsValid}
use pomagma.BinaryRelation.{empty}
use pomagma.BinaryFunction.{
  BinaryFunction, defined, find, insert, clear, one_pair, update_values, validate_values, all_from,
  check_value,
}
use pomagma.BinaryFunction.Validate.{Consistent, validate_values_lem, validate_values_iff}
use pomagma.BinaryFunction.Update.{update_values_lem}
use pomagma.BinaryFunction.Insert.{
  IsOver, clear-IsOver, one_pair_lem, put-IsOver, insert_pair_value_lem,
}

abbrev no_values : BinaryFunction
no_values = clear sample (record { lines = empty sample; values = [] })

-- The ob 3, which is merged into 1, is the value of (3, 2).
abbrev one_value : BinaryFunction
one_value = record {
  lines = one_pair 3 2 no_values.lines;
  values = put_pair no_values.values (3, 2) 3;
}

on_2 : contains sample.support 2 ≡ true
unfolding contains
on_2 = refl

on_3 : contains sample.support 3 ≡ true
unfolding contains
on_3 = refl

one_value-IsOver : IsOver sample one_value
one_value-IsOver =
    let empty = clear-IsOver sample (record { lines = empty sample; values = [] }) in
    let (lines, bits) =
      one_pair_lem 4 3 2 (omega arith) (omega arith) (omega arith) (omega arith) no_values.lines
        empty.lines in
    put-IsOver sample sample no_values one_value.lines 3 2 3 refl empty lines bits on_3 on_2 on_3
      (λ e. absurd (omega arith))

-- A second value of the pair is merged with the first.
second_value :
    Option.map {B = ℕ × List ℕ}
      (λ (r : BinaryFunction × Carrier). (find r.0 3 2, r.1.reps))
      (insert sample 3 2 2 one_value)
    ≡ some (1, 0 ∷ 1 ∷ 1 ∷ 1 ∷ 0 ∷ [])
unfolding insert find find_pair put_pair clear pomagma.Carrier.set_and_merge
    pomagma.Carrier.ensure_equal pomagma.Carrier.merge pomagma.Carrier.merge_loop
    pomagma.Carrier.link
second_value = refl

insert_pair_value_lem_example :
    (f' : BinaryFunction) × (c' : Carrier) × (insert sample 3 2 2 one_value ≡ some (f', c'))
    × Merged sample
        (root sample.reps (if find one_value 3 2 == 0 then 2 else find one_value 3 2))
        (root sample.reps 2)
        c'
    × IsOver c' f'
    × SameClass c' (find f' 3 2) 2
    × (defined f' 3 2 ≡ true)
    × ((i j : ℕ) → (3 == i && 2 == j) ≡ false → find f' i j ≡ find one_value i j)
insert_pair_value_lem_example =
    insert_pair_value_lem sample sample-IsValid one_value one_value-IsOver 3 2 2 on_3 on_2 on_2

update_values_lem_example :
    (f' : BinaryFunction) × (update_values sample one_value ≡ some f')
    × IsOver sample f'
    × ((i j : ℕ) → find f' i j ≡ root sample.reps (find one_value i j))
    × ((i j : ℕ) → defined f' i j ≡ true → is_rep sample (find f' i j) ≡ true)
    × (update_values sample f' ≡ some f')
update_values_lem_example = update_values_lem sample sample-IsValid one_value one_value-IsOver

validate_values_iff_example :
    (validate_values sample one_value ≡ true)
    ↔ ((i j : ℕ) → 1 ≤ i → i ≤ 4 → 1 ≤ j → j ≤ 4 → Consistent sample one_value i j)
validate_values_iff_example = validate_values_iff sample one_value

-- The function with one value passes.
one_value-passes : validate_values sample one_value ≡ true
one_value-passes = validate_values_lem sample one_value one_value-IsOver

-- A bit without a value
bit_alone :
    validate_values sample (record { lines = one_pair 3 2 no_values.lines; values = [] }) ≡ false
unfolding validate_values all_from check_value defined clear find_pair contains one_pair
    pomagma.BinaryRelation.empty pomagma.BinaryRelation.one_at pomagma.DenseSet.raw_insert
    pomagma.DenseSet.new pomagma.Word.one_bit
bit_alone = refl

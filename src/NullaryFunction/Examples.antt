-- ===== src/NullaryFunction/Examples.antt =====
-- A nullary function whose value was merged: tests of the operations, and the theorems there.
use pomagma.Prelude.{ℕ, ◌≡◌, ◌≢◌, refl, true, some, if◌then◌else◌, arith}
use pomagma.DenseSet.{contains}
use pomagma.Carrier.{Carrier, unsafe_remove}
use pomagma.Carrier.Inv
use pomagma.Carrier.Root.{root}
use pomagma.Carrier.Classes.{SameClass}
use pomagma.Carrier.Examples.{sample, sample-IsValid}
use pomagma.NullaryFunction.{NullaryFunction, create, defined, find, insert, unsafe_merge, validate}
use pomagma.NullaryFunction.Laws.{insert_value_lem, merge_and_remove_lem}

abbrev at_three : NullaryFunction
at_three = record { value = 3 }

at_three_ok :
    (contains sample.support 3 ≡ true)
    × (validate sample at_three ≡ true)
    × (validate sample create ≡ true)
unfolding contains validate create
at_three_ok = (refl, refl, refl)

insert_value_lem_example :
    (f' : NullaryFunction) × (c' : Carrier) × (insert sample 3 create ≡ some (f', c'))
    × Inv.IsValid c'
    × (validate c' f' ≡ true)
    × (defined f' ≡ true)
    × (find f' ≡ (if defined create then find create else 3))
    × SameClass c' (find f') 3
    × ((x y : ℕ) → SameClass sample x y → SameClass c' x y)
insert_value_lem_example =
    insert_value_lem sample 3 create sample-IsValid at_three_ok.2 at_three_ok.0

other_root : root sample.reps 3 ≢ 3
unfolding root
other_root e = absurd (omega arith)

merge_and_remove_lem_example :
    (f' : NullaryFunction) × (c' : Carrier) × (unsafe_merge sample 3 at_three ≡ some f')
    × (unsafe_remove sample 3 ≡ some c')
    × (validate c' f' ≡ true)
    × (defined f' ≡ defined at_three)
    × (root c'.reps (find f') ≡ root sample.reps (find at_three))
merge_and_remove_lem_example =
    merge_and_remove_lem sample 3 at_three sample-IsValid (omega arith) at_three_ok.1 at_three_ok.0
      other_root

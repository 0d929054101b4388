-- ===== src/SymmetricFunction/Validate.antt =====
-- `SymmetricFunction::validate` of pomagma/atlas/macro/symmetric_function.cpp: the consistency of lines
-- and values.
use pomagma.Prelude.{ℕ, ◌+◌, ◌-◌, ◌≤◌, ◌≡◌, refl, sym, ap, true, false, none, some, ltb, arith}
use pomagma.Prelude.Table.{pair_key}
use pomagma.Prelude.Table.{find as find_pair}
use pomagma.Carrier.{Carrier, item_dim}
use pomagma.BinaryFunction.Validate.{all_from_lem, check_value_lem}
use pomagma.SymmetricFunction.{SymmetricFunction, defined, find, make_sorted_pair, validate_values}
use pomagma.SymmetricFunction.Insert.{IsOver}

ascending : (i j : ℕ) → i ≤ j → make_sorted_pair i j ≡ (i, j)
unfolding make_sorted_pair
ascending i j le = let less : ltb j i ≡ false = ground arith in rw less refl

find-ascending :
    (f : SymmetricFunction) (i j : ℕ)
    → i ≤ j
    → elim (find_pair f.values (i, j)) as (λ _. ℕ) [ none ↦ 0 | some x ↦ x ] ≡ find f i j
unfolding find
find-ascending f i j le =
    ap (λ p. elim (find_pair f.values p) as (λ _. ℕ) [ none ↦ 0 | some x ↦ x ])
      (sym (ascending i j le))

-- The assertions on pairs of `validate` hold of every function for which `IsOver` says that bits and
-- values agree, on pairs of obs with obs as values.
pub validate_ascending_lem :
    (c : Carrier) (f : SymmetricFunction) → IsOver c f → validate_values c f ≡ true
unfolding validate_values
validate_ascending_lem c f h = all_from_lem (item_dim c) 1 _ λ i low.
    all_from_lem (item_dim c + 1 - i) i _ λ j le.
      check_value_lem c i j (find f i j) (defined f i j) (find_pair f.values (i, j)) (h.agrees i j)
        (find-ascending f i j le) (h.full (i, j)) (h.supported i j)

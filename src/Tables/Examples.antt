-- ===== src/Tables/Examples.antt =====
-- Programs of the virtual machine on small tables of pomagma/atlas/macro: tests and instances of the
-- theorems on pomagma/atlas/vm_impl.hpp and vm.hpp.
use pomagma.Prelude.{
  ℕ, zero, suc, ◌+◌, ◌≡◌, ◌≢◌, ◌≤◌, ◌<◌, refl, List, [], ◌∷◌, Bool, true, false, Option, some, none,
  get_elem?, get_or, Each, ◌^◌, length, arith, if◌then◌else◌,
}
use pomagma.Carrier.{Carrier}
use pomagma.DenseSet.{DenseSet}
use pomagma.UnaryRelation.{UnaryRelation}
use pomagma.BinaryFunction.{BinaryFunction}
use pomagma.Vm.{Context, cleared, Outcome, ok, err, no_fuel, Program, set_ob, ◌>>=◌}
use pomagma.Vm.Execute.{execute, execute_args}
use pomagma.Vm.Total.{execute_lem}
use pomagma.Tables.{Tables, machine}
use pomagma.Tables.Counts.{
  SameSpace, SameSpace-refl, Steady, Fits, machine-Keeps, execute-SameSpace,
}
use pomagma.Tables.Narrow.{SmallLines, SmallPair, SmallDomains}
use pomagma.DenseSet.Flip.{Small}
use pomagma.Carrier.Root.{Decreasing}
use mathlib.Core.Path.{subst}
use mathlib.Core.Option.{some-injective}

abbrev three_obs : Carrier
three_obs = record {
  support = record { item_dim = 4; words = 14 ∷ [] };
  item_count = 3;
  rep_count = 3;
  reps = 0 ∷ 1 ∷ 2 ∷ 3 ∷ 0 ∷ [];
  merged = [];
}

abbrev unary_words : List UnaryRelation → List ℕ
unary_words [] = []
unary_words (r ∷ rs) = get_or r.set.words 0 0 ∷ unary_words rs

-- Two unary relations, {2, 3} and { }, a constant 2, and a function with (2, 3) ↦ 1.
abbrev line : ℕ → DenseSet
line word = record { item_dim = 4; words = word ∷ [] }

abbrev one_value : BinaryFunction
one_value = record {
  lines = record {
    lx = line 0 ∷ line 0 ∷ line 8 ∷ line 0 ∷ line 0 ∷ [];
    rx = line 0 ∷ line 0 ∷ line 0 ∷ line 4 ∷ line 0 ∷ [];
  };
  values = ((2, 3), 1) ∷ [];
}

abbrev tables : Tables
tables = record {
  carrier = three_obs;
  unary_relations = record { set = line 12 } ∷ record { set = line 0 } ∷ [];
  binary_relations = [];
  nullary_functions = record { value = 2 } ∷ [];
  injective_functions = [];
  binary_functions = one_value ∷ [];
  symmetric_functions = [];
}

-- FOR_UNARY_RELATION 0 x; INFER_UNARY_RELATION 1 x
abbrev copy_program : Program
copy_program = 29 ∷ 0 ∷ 0 ∷ 60 ∷ 1 ∷ 0 ∷ []

-- FOR_UNARY_RELATION 0 x; FOR_BINARY_FUNCTION_LHS 0 x y z; INFER_EQUAL y z
abbrev merge_program : Program
merge_program = 29 ∷ 0 ∷ 0 ∷ 36 ∷ 0 ∷ 0 ∷ 1 ∷ 2 ∷ 59 ∷ 1 ∷ 2 ∷ []

program : Unit {0}
unfolding execute cleared machine pomagma.Vm.Execute.step pomagma.Vm.Steps.run_for_unary
    pomagma.Vm.pop_arg pomagma.Vm.pop_ob pomagma.Vm.Loop.loop pomagma.DenseSet.Iter.iter_words
    pomagma.DenseSet.Iter.next_block pomagma.DenseSet.Iter.intersection
    pomagma.DenseSet.Iter.first_bit pomagma.DenseSet.Iter.next pomagma.DenseSet.Iter.next_bit
    pomagma.Vm.Functions.run_infer_fact pomagma.Vm.Steps.pop_fact pomagma.UnaryRelation.insert
    pomagma.DenseSet.raw_insert pomagma.Word.one_bit pomagma.Vm.Functions.run_for_lhs
    pomagma.Vm.Functions.run_infer_equal pomagma.Carrier.ensure_equal pomagma.BinaryFunction.find
    pomagma.Prelude.Table.find pomagma.Carrier.merge pomagma.Carrier.merge_loop pomagma.Carrier.link
    execute_args
program = tt

-- The unary relations and the parents of the obs after a program
abbrev outcome : Program → Context → Option (List ℕ × List ℕ)
outcome p c = elim (execute (machine 4) p c tables) [
  | err e ↦ none
  | ok (c', s) ↦ some (unary_words s.unary_relations, s.carrier.reps)
]

copied : outcome copy_program cleared ≡ some (12 ∷ 12 ∷ [], 0 ∷ 1 ∷ 2 ∷ 3 ∷ 0 ∷ [])
unfolding program
copied = refl

merged : outcome merge_program cleared ≡ some (12 ∷ 0 ∷ [], 0 ∷ 1 ∷ 2 ∷ 1 ∷ 0 ∷ [])
unfolding program
merged = refl

cons-Each {ℓ} :
    {A : Type ℓ} (Q : A → Type 0) (x : A) (xs : List A) → Q x → Each Q xs → Each Q (x ∷ xs)
cons-Each Q x xs q h zero y e = subst Q (some-injective x y e) q
cons-Each Q x xs q h (suc i) y e = h i y e

nil-Each {ℓ} : {A : Type ℓ} (Q : A → Type 0) → Each Q []
nil-Each Q i y e = cc

line-Small : (w : ℕ) → w < 2 ^ 64 → Small (line w).words
line-Small w lt zero = lt
line-Small w lt (suc q) = omega arith

no_lines : SmallLines []
unfolding pomagma.DenseSet.new
no_lines ob zero = omega arith
no_lines ob (suc q) = omega arith

lines-Small :
    (a b c d e : ℕ)
    → a < 16
    → b < 16
    → c < 16
    → d < 16
    → e < 16
    → SmallLines (line a ∷ line b ∷ line c ∷ line d ∷ line e ∷ [])
lines-Small a b c d e la lb lc ld le zero = line-Small a (omega arith)
lines-Small a b c d e la lb lc ld le (suc zero) = line-Small b (omega arith)
lines-Small a b c d e la lb lc ld le (suc (suc zero)) = line-Small c (omega arith)
lines-Small a b c d e la lb lc ld le (suc (suc (suc zero))) = line-Small d (omega arith)
lines-Small a b c d e la lb lc ld le (suc (suc (suc (suc zero)))) = line-Small e (omega arith)
lines-Small a b c d e la lb lc ld le (suc (suc (suc (suc (suc ob))))) = no_lines ob

three_obs-Decreasing : Decreasing three_obs.reps
three_obs-Decreasing zero = omega arith
three_obs-Decreasing (suc zero) = omega arith
three_obs-Decreasing (suc (suc zero)) = omega arith
three_obs-Decreasing (suc (suc (suc zero))) = omega arith
three_obs-Decreasing (suc (suc (suc (suc zero)))) = omega arith
three_obs-Decreasing (suc (suc (suc (suc (suc i))))) = omega arith

tables-Steady : Steady tables
tables-Steady = record {
  decreasing = three_obs-Decreasing;
  small = record {
    support = line-Small 14 (omega arith);
    unary_relations =
        cons-Each (λ r. Small r.set.words) (record { set = line 12 }) (record { set = line 0 } ∷ [])
          (line-Small 12 (omega arith))
          (cons-Each (λ r. Small r.set.words) (record { set = line 0 }) []
            (line-Small 0 (omega arith)) (nil-Each (λ r. Small r.set.words)));
    binary_relations = nil-Each SmallPair;
    injective_functions = nil-Each SmallDomains;
    binary_functions =
        cons-Each (λ f. SmallPair f.lines) one_value []
          (
            lines-Small 0 0 8 0 0 (omega arith) (omega arith) (omega arith) (omega arith)
                (omega arith),
            lines-Small 0 0 0 4 0 (omega arith) (omega arith) (omega arith) (omega arith)
                (omega arith),
          )
          (nil-Each (λ f. SmallPair f.lines));
    symmetric_functions = nil-Each (λ f. SmallLines f.lines);
  };
}

execute-SameSpace_example :
    (execute (machine 4) merge_program cleared tables ≢ err no_fuel)
    × ((c' : Context) (s' : Tables)
        → execute (machine 4) merge_program cleared tables ≡ ok (c', s')
        → SameSpace tables s' × Steady s')
execute-SameSpace_example = execute-SameSpace 4 merge_program cleared tables tables-Steady

execute_lem_example :
    (execute (machine 4) copy_program cleared tables ≢ err no_fuel)
    × ((c' : Context) (s' : Tables)
        → execute (machine 4) copy_program cleared tables ≡ ok (c', s')
        → Fits tables s')
execute_lem_example =
    execute_lem (machine 4) (Fits tables) (machine-Keeps tables 4) copy_program cleared tables
      (SameSpace-refl tables, tables-Steady)

-- Two obs that are parents of each other: the loop of `merge` does not end.
cyclic_parents :
    execute
      (machine 4)
      merge_program
      cleared
      (record tables { carrier = record three_obs { reps = 0 ∷ 1 ∷ 3 ∷ 2 ∷ 0 ∷ [] } })
    ≡ err no_fuel
unfolding program
cyclic_parents = refl

-- GIVEN_BINARY_FUNCTION declares registers for both arguments and for the value, but the event hands
-- only the arguments over: INFER_UNARY_RELATION 1 z, for a new value of (2, 3), reads what register 2
-- held before, the ob 3, and not the value 1.
stale_value :
    (execute_args (machine 4) (60 ∷ 1 ∷ 2 ∷ []) (2 ∷ 3 ∷ []) (set_ob cleared 2 3) tables >>= λ r.
    ok (unary_words r.1.unary_relations))
    ≡ ok (12 ∷ 8 ∷ [])
unfolding program
stale_value = refl

-- ===== src/BinaryFunction.antt =====
-- pomagma/atlas/macro/binary_function.hpp and binary_function.cpp: a partial function of two obs, as a
-- map of pairs to values and two tables of lines that say where it is defined. 0 stands for no value.
-- The carrier is a result of the operations that can merge obs of it.
pub mod Insert
pub mod Update
pub mod Validate
pub mod Examples
use pomagma.Prelude.{
  ℕ, zero, suc, ◌+◌, List, [], ◌∷◌, Bool, true, not, ◌&&◌, ◌==◌, if◌then◌else◌, Option, none, some,
  set,
}
use pomagma.Prelude.Table.{pair_key}
use pomagma.Prelude.Table.{find as find_pair, put as put_pair, insert as insert_new, erase}
use pomagma.DenseSet.{DenseSet, contains}
use pomagma.DenseSet.Whole.{merge}
use pomagma.Carrier.{Carrier, item_dim, set_or_merge, set_and_merge, ◌>>=◌}
use pomagma.Carrier.{find as find_rep}
use pomagma.BinaryRelation.{BinaryRelation, line, one_at, zero_at, items}
use pomagma.BinaryRelation.{empty as empty_lines, create as create_lines}

pub record BinaryFunction : Type 0 where
  pub lines : BinaryRelation
  pub values : List ((ℕ × ℕ) × ℕ)

unfoldable pub create : Carrier → Option BinaryFunction
create c = do lines ← create_lines c; some (record { lines = lines; values = [] })

unfoldable pub clear : Carrier → BinaryFunction → BinaryFunction
clear c f = record { lines = empty_lines c; values = [] }

unfoldable pub defined : BinaryFunction → ℕ → ℕ → Bool
defined f lhs rhs = contains (line f.lines.lx lhs) rhs

unfoldable pub find : BinaryFunction → ℕ → ℕ → ℕ
find f lhs rhs = elim (find_pair f.values (lhs, rhs)) [ none ↦ 0 | some val ↦ val ]

-- `Lx(lhs, rhs).one(); Rx(lhs, rhs).one();`
unfoldable pub one_pair : ℕ → ℕ → BinaryRelation → BinaryRelation
one_pair lhs rhs r = record { lx = one_at r.lx lhs rhs; rx = one_at r.rx rhs lhs }

unfoldable pub raw_insert : ℕ → ℕ → ℕ → BinaryFunction → BinaryFunction
unfolding one_pair
raw_insert lhs rhs val f = record {
  lines = one_pair lhs rhs f.lines;
  values = insert_new f.values (lhs, rhs) val;
}

unfoldable pub insert : Carrier → ℕ → ℕ → ℕ → BinaryFunction → Option (BinaryFunction × Carrier)
unfolding find one_pair
insert c lhs rhs val f =
    let old = find f lhs rhs in
    let merged = (do
      (changed, value, c') ← set_and_merge c old val
      some (record { lines = f.lines; values = put_pair f.values (lhs, rhs) value }, c')) in
    if old == 0
    then some
        (record { lines = one_pair lhs rhs f.lines; values = put_pair f.values (lhs, rhs) val }, c)
    else merged

-- A loop over `n` obs from `ob` on, with an assertion for each
unfoldable pub all_from : ℕ → ℕ → (ℕ → Bool) → Bool
all_from zero ob check = true
all_from (suc n) ob check = check ob && all_from n (ob + 1) check

-- The assertions of `validate` on a pair: whether it is a pair of obs, its bit, and its entry
unfoldable pub check_value : Carrier → Bool → Bool → Option ℕ → Bool
check_value c on bit none = not (on && bit)
check_value c on bit (some val) = on && (bit && (not (val == 0) && contains c.support val))

-- "validating line-value consistency"
unfoldable pub validate_values : Carrier → BinaryFunction → Bool
unfolding all_from check_value defined
validate_values c f = all_from (item_dim c) 1 λ i. all_from (item_dim c) 1 λ j.
    let on = contains c.support i && contains c.support j in
    check_value c on (defined f i j) (find_pair f.values (i, j))

-- The loop of `update_values`: every value gives way to its representative.
unfoldable pub update_each : Carrier → List ((ℕ × ℕ) × ℕ) → Option (List ((ℕ × ℕ) × ℕ))
update_each c [] = some []
update_each c ((pair, dep) ∷ rest) = do
  rep ← find_rep c dep
  rest' ← update_each c rest
  some ((pair, if rep == dep then dep else rep) ∷ rest')

unfoldable pub update_values : Carrier → BinaryFunction → Option BinaryFunction
unfolding update_each
update_values c f = do
  values ← update_each c f.values
  some (record { lines = f.lines; values = values })

-- The value of a pair goes to another pair. `none` is a pair without a value.
unfoldable pub move_value :
    Carrier → ℕ × ℕ → ℕ × ℕ → List ((ℕ × ℕ) × ℕ) → Option (Bool × List ((ℕ × ℕ) × ℕ) × Carrier)
move_value c from to values = do
  dep_val ← find_pair values from
  let rest = erase values from
  (was_set, rep_val, c') ←
      set_or_merge c (elim (find_pair rest to) [ none ↦ 0 | some val ↦ val ]) dep_val
  some (was_set, put_pair rest to rep_val, c')

-- The bits of a moved pair in one table: `zero` at the old line, and `one` at the new one if the value
-- was set there.
abbrev pub move_bit : Bool → List DenseSet → ℕ → ℕ → ℕ → ℕ → List DenseSet
move_bit was_set table old_line old_bit new_line new_bit =
    let cleared = zero_at table old_line old_bit in
    if was_set then one_at cleared new_line new_bit else cleared

-- The loop over the pairs (lhs, dep)
unfoldable pub merge_rhs :
    ℕ → ℕ → List ℕ → BinaryFunction × Carrier → Option (BinaryFunction × Carrier)
unfolding move_value
merge_rhs dep rep [] state = some state
merge_rhs dep rep (lhs ∷ obs) (f, c) = do
  (was_set, values, c') ← move_value c (lhs, dep) (lhs, rep) f.values
  let lines = record f.lines { lx = move_bit was_set f.lines.lx lhs dep lhs rep }
  merge_rhs dep rep obs (record { lines = lines; values = values }, c')

-- The loop over the pairs (dep, rhs)
unfoldable pub merge_lhs :
    ℕ → ℕ → List ℕ → BinaryFunction × Carrier → Option (BinaryFunction × Carrier)
unfolding move_value
merge_lhs dep rep [] state = some state
merge_lhs dep rep (rhs ∷ obs) (f, c) = do
  (was_set, values, c') ← move_value c (dep, rhs) (rep, rhs) f.values
  let lines = record f.lines { rx = move_bit was_set f.lines.rx rhs dep rhs rep }
  merge_lhs dep rep obs (record { lines = lines; values = values }, c')

-- `rep_set.merge(dep_set)` for two lines of a table
unfoldable pub merge_line : ℕ → ℕ → List DenseSet → List DenseSet
merge_line dep rep table =
    let (rep_set, dep_set) = merge (line table rep) (line table dep) in
    set (set table rep rep_set) dep dep_set

unfoldable pub unsafe_merge : Carrier → ℕ → BinaryFunction → Option (BinaryFunction × Carrier)
unfolding merge_rhs merge_lhs merge_line
unsafe_merge c dep f = do
  rep ← find_rep c dep
  lhs_obs ← items (line f.lines.rx dep)
  (f1, c1) ← merge_rhs dep rep lhs_obs (f, c)
  let lines1 = record f1.lines { rx = merge_line dep rep f1.lines.rx }
  rep' ← find_rep c1 rep
  rhs_obs ← items (line lines1.lx dep)
  (f2, c2) ← merge_lhs dep rep' rhs_obs (record { lines = lines1; values = f1.values }, c1)
  let lines2 = record f2.lines { lx = merge_line dep rep' f2.lines.lx }
  some (record { lines = lines2; values = f2.values }, c2)

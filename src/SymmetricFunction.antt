-- ===== src/SymmetricFunction.antt =====
-- pomagma/atlas/macro/symmetric_function.hpp and symmetric_function.cpp: a partial function of two obs
-- in any order, as a map of ascending pairs to values. Its table of lines is its own transpose: Lx and
-- Rx are one array. The carrier is a result of the operations that can merge obs of it.
pub mod Insert
pub mod Validate
pub mod Examples
use pomagma.Prelude.{
  ℕ, ◌+◌, List, [], ◌∷◌, Bool, ltb, ◌-◌, ◌&&◌, ◌==◌, if◌then◌else◌, Option, none, some, replicate,
}
use pomagma.Prelude.Table.{pair_key}
use pomagma.Prelude.Table.{find as find_pair, put as put_pair, insert as insert_new}
use pomagma.DenseSet.{DenseSet, new, round_item_dim, contains}
use pomagma.Carrier.{Carrier, item_dim, max_item_dim, set_and_merge, ◌>>=◌}
use pomagma.Carrier.{find as find_rep}
use pomagma.BinaryRelation.{line, one_at, items}
use pomagma.BinaryFunction.{move_value, move_bit, merge_line, update_each, all_from, check_value}

pub record SymmetricFunction : Type 0 where
  pub lines : List DenseSet
  pub values : List ((ℕ × ℕ) × ℕ)

-- The table after `zero_blocks` of a symmetric relation
abbrev pub empty_lines : Carrier → List DenseSet
empty_lines c = replicate (1 + item_dim c) (new (item_dim c))

unfoldable pub create : Carrier → Option SymmetricFunction
create c =
    if ltb max_item_dim (round_item_dim (item_dim c))
    then none
    else some (record { lines = empty_lines c; values = [] })

unfoldable pub clear : Carrier → SymmetricFunction → SymmetricFunction
clear c f = record { lines = empty_lines c; values = [] }

unfoldable pub make_sorted_pair : ℕ → ℕ → ℕ × ℕ
make_sorted_pair i j = if ltb j i then (j, i) else (i, j)

unfoldable pub defined : SymmetricFunction → ℕ → ℕ → Bool
defined f lhs rhs = contains (line f.lines lhs) rhs

unfoldable pub find : SymmetricFunction → ℕ → ℕ → ℕ
unfolding make_sorted_pair
find f lhs rhs = elim (find_pair f.values (make_sorted_pair lhs rhs)) [ none ↦ 0 | some val ↦ val ]

-- `Lx(lhs, rhs).one(); Rx(lhs, rhs).one();` on the one array
unfoldable pub one_both : ℕ → ℕ → List DenseSet → List DenseSet
one_both lhs rhs lines = one_at (one_at lines lhs rhs) rhs lhs

-- The caller gives the obs in ascending order.
unfoldable pub raw_insert : ℕ → ℕ → ℕ → SymmetricFunction → SymmetricFunction
unfolding one_both
raw_insert lhs rhs val f = record {
  lines = one_both lhs rhs f.lines;
  values = insert_new f.values (lhs, rhs) val;
}

unfoldable pub insert :
    Carrier → ℕ → ℕ → ℕ → SymmetricFunction → Option (SymmetricFunction × Carrier)
unfolding find one_both make_sorted_pair
insert c lhs rhs val f =
    let old = find f lhs rhs in
    let pair = make_sorted_pair lhs rhs in
    let merged = (do
      (changed, value, c') ← set_and_merge c old val
      some (record { lines = f.lines; values = put_pair f.values pair value }, c')) in
    if old == 0
    then some (record { lines = one_both lhs rhs f.lines; values = put_pair f.values pair val }, c)
    else merged

-- "validating line-value consistency", for the ascending pairs
unfoldable pub validate_values : Carrier → SymmetricFunction → Bool
unfolding defined
validate_values c f = all_from (item_dim c) 1 λ i. all_from (item_dim c + 1 - i) i λ j.
    let on = contains c.support i && contains c.support j in
    check_value c on (defined f i j) (find_pair f.values (i, j))

unfoldable pub update_values : Carrier → SymmetricFunction → Option SymmetricFunction
unfolding update_each
update_values c f = do
  values ← update_each c f.values
  some (record { lines = f.lines; values = values })

-- (dep, dep) --> (rep, rep)
unfoldable pub merge_diagonal :
    ℕ → ℕ → SymmetricFunction × Carrier → Option (SymmetricFunction × Carrier)
unfolding defined move_value
merge_diagonal dep rep (f, c) =
    let moved = (do
      (was_set, values, c') ← move_value c (dep, dep) (rep, rep) f.values
      some (record { lines = move_bit was_set f.lines dep dep rep rep; values = values }, c')) in
    if defined f dep dep then moved else some (f, c)

-- (dep, rhs) --> (rep, rhs) for each rhs of a loop
unfoldable pub merge_obs :
    ℕ → ℕ → List ℕ → SymmetricFunction × Carrier → Option (SymmetricFunction × Carrier)
unfolding move_value make_sorted_pair
merge_obs dep rep [] state = some state
merge_obs dep rep (rhs ∷ obs) (f, c) = do
  (was_set, values, c') ←
      move_value c (make_sorted_pair dep rhs) (make_sorted_pair rep rhs) f.values
  merge_obs dep rep obs
      (record { lines = move_bit was_set f.lines rhs dep rhs rep; values = values }, c')

unfoldable pub unsafe_merge : Carrier → ℕ → SymmetricFunction → Option (SymmetricFunction × Carrier)
unfolding merge_diagonal merge_obs merge_line
unsafe_merge c dep f = do
  rep ← find_rep c dep
  (f1, c1) ← merge_diagonal dep rep (f, c)
  rep' ← find_rep c1 rep
  obs ← items (line f1.lines dep)
  (f2, c2) ← merge_obs dep rep' obs (f1, c1)
  some (record { lines = merge_line dep rep' f2.lines; values = f2.values }, c2)

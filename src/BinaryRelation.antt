-- ===== src/BinaryRelation.antt =====
-- pomagma/atlas/macro/base_bin_rel.hpp and binary_relation.hpp and .cpp: a binary relation on the obs
-- of a carrier as two tables of lines, one the transpose of the other: `lx` has for each lhs the set
-- of its rhs, and `rx` for each rhs the set of its lhs. A line that the code reads beyond the item_dim
-- stays empty and is left out.
pub mod Lines
pub mod Rows
pub mod Merge
pub mod Insert
pub mod Examples
use mathlib.Core.Option
use pomagma.Prelude.{
  ℕ, ◌+◌, List, [], ◌∷◌, Bool, true, false, not, ltb, if◌then◌else◌, Option, none, some, get_or,
  set, replicate,
}
use pomagma.DenseSet.{DenseSet, round_item_dim, new, contains, try_insert, raw_insert, raw_remove}
use pomagma.DenseSet.Whole.{merge_diff, ensure}
use pomagma.DenseSet.Iter.{iter_words, visit}
use pomagma.Carrier.{Carrier, item_dim, max_item_dim, ◌>>=◌}
use pomagma.Carrier.{find as find_rep}

pub record BinaryRelation : Type 0 where
  pub lx : List DenseSet
  pub rx : List DenseSet

-- One line of a table
abbrev pub line : List DenseSet → ℕ → DenseSet
line table ob = get_or table ob (new 0)

-- The tables after `zero_blocks`, which `clear` calls too
unfoldable pub empty : Carrier → BinaryRelation
empty c = record {
  lx = replicate (1 + item_dim c) (new (item_dim c));
  rx = replicate (1 + item_dim c) (new (item_dim c));
}

-- The constructor. `none` is its assertion, that the rounded size fits an `Ob`.
unfoldable pub create : Carrier → Option BinaryRelation
unfolding empty
create c = if ltb max_item_dim (round_item_dim (item_dim c)) then none else some (empty c)

unfoldable pub find_lx : BinaryRelation → ℕ → ℕ → Bool
find_lx r i j = contains (line r.lx i) j

unfoldable pub find_rx : BinaryRelation → ℕ → ℕ → Bool
find_rx r i j = contains (line r.rx j) i

-- `one` and `zero` at a bit of a table
unfoldable pub one_at : List DenseSet → ℕ → ℕ → List DenseSet
one_at table ob bit = set table ob (raw_insert (line table ob) bit)

unfoldable pub zero_at : List DenseSet → ℕ → ℕ → List DenseSet
zero_at table ob bit = set table ob (raw_remove (line table ob) bit)

-- `insert_Lx`, which `insert` calls
unfoldable pub insert_lx : ℕ → ℕ → BinaryRelation → BinaryRelation
unfolding one_at
insert_lx i j r =
    let (is_new, row) = try_insert (line r.lx i) j in
    record { lx = set r.lx i row; rx = if is_new then one_at r.rx j i else r.rx }

unfoldable pub insert_rx : ℕ → ℕ → BinaryRelation → BinaryRelation
unfolding one_at
insert_rx i j r =
    let (is_new, column) = try_insert (line r.rx j) i in
    record { lx = if is_new then one_at r.lx i j else r.lx; rx = set r.rx j column }

-- The items that a loop over the iterator of a set visits
unfoldable pub items : DenseSet → Option (List ℕ)
items s = do iter ← iter_words s.words; visit (s.item_dim + 1) iter

-- A loop that writes one bit in several lines
unfoldable pub one_each : List ℕ → ℕ → List DenseSet → List DenseSet
unfolding one_at
one_each [] bit table = table
one_each (ob ∷ obs) bit table = one_each obs bit (one_at table ob bit)

unfoldable pub zero_each : List ℕ → ℕ → List DenseSet → List DenseSet
unfolding zero_at
zero_each [] bit table = table
zero_each (ob ∷ obs) bit table = zero_each obs bit (zero_at table ob bit)

-- `insert` of a row, for a table and its transpose. The overload that inserts a column is this
-- with the two tables exchanged.
unfoldable pub insert_line :
    ℕ → DenseSet → List DenseSet → List DenseSet → Option (List DenseSet × List DenseSet)
unfolding items one_each
insert_line i js table transpose = do
  let (dest, diff, changed) = ensure (line table i) js (new (line table i).item_dim)
  if changed
      then (do ks ← items diff; some (set table i dest, one_each ks i transpose))
      else some (set table i dest, transpose)

unfoldable pub insert_row : ℕ → DenseSet → BinaryRelation → Option BinaryRelation
insert_row i js r = do (lx, rx) ← insert_line i js r.lx r.rx; some (record { lx = lx; rx = rx })

unfoldable pub insert_column : DenseSet → ℕ → BinaryRelation → Option BinaryRelation
insert_column is j r = do (rx, lx) ← insert_line j is r.rx r.lx; some (record { lx = lx; rx = rx })

-- One half of `unsafe_merge`: line i of a table goes to line j, and the transpose follows. The halves
-- are the same with the two tables exchanged.
unfoldable pub move_line :
    ℕ → ℕ → List DenseSet → List DenseSet → Option (List DenseSet × List DenseSet)
unfolding items one_each zero_each
move_line i j table transpose = do
  removed ← items (line table i)
  let transpose' = zero_each removed i transpose
  let (rep, dep, diff, changed) =
      merge_diff (line table j) (line table i) (new (line table i).item_dim)
  let table' = set (set table j rep) i dep
  if changed
      then (do ks ← items diff; some (table', one_each ks j transpose'))
      else some (table', transpose')

unfoldable pub unsafe_merge : Carrier → ℕ → BinaryRelation → Option BinaryRelation
unfolding move_line
unsafe_merge c i r = do
  j ← find_rep c i
  (lx, rx) ← move_line i j r.lx r.rx
  (rx', lx') ← move_line i j rx lx
  some (record { lx = lx'; rx = rx' })

-- ===== src/UnaryRelation.antt =====
-- pomagma/atlas/macro/unary_relation.hpp and unary_relation.cpp: a set of obs of a carrier. The
-- carrier is an argument of the operations that look at it.
pub mod Laws
pub mod Examples
use mathlib.Core.Option
use pomagma.Prelude.{
  ℕ, ◌+◌, List, [], ◌∷◌, Bool, true, false, ◌&&◌, ◌==◌, if◌then◌else◌, Option, none, some,
}
use pomagma.DenseSet.{DenseSet, new, contains, raw_insert, try_remove}
use pomagma.DenseSet.Whole.{zero_all, likely_disjoint, equal}
use pomagma.DenseSet.Scan.{count_items}
use pomagma.DenseSet.Iter.{iter_words, visit}
use pomagma.Carrier.{Carrier, item_dim, ◌>>=◌}
use pomagma.Carrier.{find as find_rep}

pub record UnaryRelation : Type 0 where
  pub set : DenseSet

unfoldable pub create : Carrier → UnaryRelation
create c = record { set = new (item_dim c) }

unfoldable pub raw_insert_each : List ℕ → DenseSet → DenseSet
raw_insert_each [] s = s
raw_insert_each (ob ∷ obs) s = raw_insert_each obs (raw_insert s ob)

-- The constructor that takes the items of another relation over. The relation that is moved from is
-- read by an iterator, which visits at most `item_dim` items.
unfoldable pub resize : Carrier → UnaryRelation → Option UnaryRelation
resize c other = do
  iter ← iter_words other.set.words
  obs ← visit (other.set.item_dim + 1) iter
  some (record { set = raw_insert_each obs (new (item_dim c)) })

unfoldable pub clear : UnaryRelation → UnaryRelation
clear r = record { set = zero_all r.set }

unfoldable pub find : UnaryRelation → ℕ → Bool
find r ob = contains r.set ob

unfoldable pub insert : UnaryRelation → ℕ → UnaryRelation
insert r ob = record { set = raw_insert r.set ob }

-- `dep` gives way to its representative.
unfoldable pub unsafe_merge : Carrier → ℕ → UnaryRelation → Option UnaryRelation
unsafe_merge c dep r = do
  rep ← find_rep c dep
  let (was, s) = try_remove r.set dep
  some (record { set = if was then raw_insert s rep else s })

-- Whether no assertion of `validate_disjoint` fails.
unfoldable pub validate_disjoint : Carrier → UnaryRelation → Carrier → UnaryRelation → Bool
validate_disjoint c r c' r' =
    item_dim c == item_dim c'
    && count_items c.support == count_items c'.support
    && equal c.support c'.support
    && likely_disjoint r.set r'.set

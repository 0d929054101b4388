-- ===== src/NullaryFunction.antt =====
-- pomagma/atlas/macro/nullary_function.hpp and nullary_function.cpp: one ob of a carrier, or 0 for
-- none. The carrier is an argument of the operations that look at it, and a result of `insert`.
pub mod Laws
pub mod Examples
use pomagma.Prelude.{ℕ, Bool, true, false, not, ◌==◌, if◌then◌else◌, Option, none, some, leb}
use pomagma.DenseSet.{contains}
use pomagma.Carrier.{Carrier, item_dim, set_or_merge, ◌>>=◌}
use pomagma.Carrier.{find as find_rep}

pub record NullaryFunction : Type 0 where
  pub value : ℕ

unfoldable pub create : NullaryFunction
create = record { value = 0 }

-- The constructor that takes the value over. `none` is its assertion, that the value fits.
unfoldable pub resize : Carrier → NullaryFunction → Option NullaryFunction
resize c other =
    if leb other.value (item_dim c) then some (record { value = other.value }) else none

unfoldable pub clear : NullaryFunction → NullaryFunction
clear f = record { value = 0 }

unfoldable pub raw_insert : ℕ → NullaryFunction → NullaryFunction
raw_insert val f = record { value = val }

unfoldable pub defined : NullaryFunction → Bool
defined f = not (f.value == 0)

unfoldable pub find : NullaryFunction → ℕ
find f = f.value

unfoldable pub insert : Carrier → ℕ → NullaryFunction → Option (NullaryFunction × Carrier)
insert c val f = do
  (was_set, value, c') ← set_or_merge c f.value val
  some (record { value = value }, c')

unfoldable pub unsafe_merge : Carrier → ℕ → NullaryFunction → Option NullaryFunction
unsafe_merge c dep f = do
  rep ← find_rep c dep
  some (if f.value == dep then record { value = rep } else f)

-- Whether the assertion of `validate` holds.
unfoldable pub validate : Carrier → NullaryFunction → Bool
validate c f = if f.value == 0 then true else contains c.support f.value

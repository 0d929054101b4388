-- ===== src/InjectiveFunction.antt =====
-- pomagma/atlas/macro/injective_function.hpp and injective_function.cpp: a partial injective function
-- on the obs of a carrier, with its inverse. 0 stands for no value. The carrier is an argument of the
-- operations that look at it, and a result of those that can merge obs of it.
pub mod Mutual
pub mod Insert
pub mod Validate
pub mod Examples
use mathlib.Core.Option
use pomagma.Prelude.{
  ℕ, zero, suc, ◌+◌, List, [], ◌∷◌, Bool, true, false, not, ◌&&◌, ◌==◌, ltb, if◌then◌else◌, Option,
  none, some, get_or, set, replicate,
}
use pomagma.DenseSet.{DenseSet, new, contains, raw_insert, try_remove}
use pomagma.DenseSet.Whole.{zero_all}
use pomagma.DenseSet.Iter.{iter_words, visit}
use pomagma.Carrier.{Carrier, next_ob, item_dim, set_or_merge, set_and_merge, equal, ◌>>=◌}
use pomagma.Carrier.{find as find_rep}

pub record InjectiveFunction : Type 0 where
  pub domain : DenseSet
  pub inverse_domain : DenseSet
  pub values : List ℕ
  pub inverse : List ℕ

unfoldable pub create : Carrier → InjectiveFunction
create c = record {
  domain = new (item_dim c);
  inverse_domain = new (item_dim c);
  values = replicate (1 + item_dim c) 0;
  inverse = replicate (1 + item_dim c) 0;
}

unfoldable pub defined : InjectiveFunction → ℕ → Bool
defined f key = contains f.domain key

unfoldable pub inverse_defined : InjectiveFunction → ℕ → Bool
inverse_defined f val = contains f.inverse_domain val

abbrev pub find : InjectiveFunction → ℕ → ℕ
find f key = get_or f.values key 0

abbrev pub inverse_find : InjectiveFunction → ℕ → ℕ
inverse_find f val = get_or f.inverse val 0

unfoldable pub put : InjectiveFunction → ℕ → ℕ → InjectiveFunction
put f key val = record {
  domain = raw_insert f.domain key;
  inverse_domain = raw_insert f.inverse_domain val;
  values = set f.values key val;
  inverse = set f.inverse val key;
}

-- The loop of the constructor that takes the pairs of another function over
unfoldable pub put_each : List ℕ → InjectiveFunction → InjectiveFunction → InjectiveFunction
unfolding put
put_each [] other f = f
put_each (key ∷ keys) other f = put_each keys other (put f key (find other key))

unfoldable pub resize : Carrier → InjectiveFunction → Option InjectiveFunction
unfolding put_each create
resize c other = do
  iter ← iter_words other.domain.words
  keys ← visit (other.domain.item_dim + 1) iter
  some (put_each keys other (create c))

unfoldable pub clear : Carrier → InjectiveFunction → InjectiveFunction
clear c f = record {
  domain = zero_all f.domain;
  inverse_domain = zero_all f.inverse_domain;
  values = replicate (1 + item_dim c) 0;
  inverse = replicate (1 + item_dim c) 0;
}

-- `if (flag) set(ob).one();`
abbrev pub one_if : Bool → DenseSet → ℕ → DenseSet
one_if flag s ob = if flag then raw_insert s ob else s

unfoldable pub insert : Carrier → ℕ → ℕ → InjectiveFunction → Option (InjectiveFunction × Carrier)
insert c key val f = do
  (was_set, value, c₁) ← set_or_merge c (find f key) val
  (was_set', key', c₂) ← set_or_merge c₁ (inverse_find f val) key
  some (
    record {
      domain = one_if was_set f.domain key;
      inverse_domain = one_if was_set' f.inverse_domain val;
      values = set f.values key value;
      inverse = set f.inverse val key';
    },
    c₂,
  )

-- `replace(patt, repl, values[i])` for each `i` of a loop
unfoldable pub replace_each : ℕ → ℕ → List ℕ → List ℕ → List ℕ
replace_each patt repl [] values = values
replace_each patt repl (i ∷ is) values =
    replace_each patt repl is (if get_or values i 0 == patt then set values i repl else values)

-- One half of `unsafe_merge`: a domain and its array, from `dep` to `rep`
unfoldable pub move : Carrier → ℕ → ℕ → DenseSet → List ℕ → Option (DenseSet × List ℕ × Carrier)
unfolding replace_each
move c dep rep domain values = do
  let (was, domain') = try_remove domain dep
  (moved, values', c') ←
      if was
      then (do
        (changed, value, c') ← set_and_merge c (get_or values rep 0) (get_or values dep 0)
        some (raw_insert domain' rep, set (set values rep value) dep 0, c'))
      else some (domain', values, c)
  iter ← iter_words moved.words
  keys ← visit (moved.item_dim + 1) iter
  some (moved, replace_each dep rep keys values', c')

unfoldable pub unsafe_merge : Carrier → ℕ → InjectiveFunction → Option (InjectiveFunction × Carrier)
unfolding move
unsafe_merge c dep f = do
  rep ← find_rep c dep
  (domain, values, c₁) ← move c dep rep f.domain f.values
  rep' ← find_rep c₁ rep
  (inverse_domain, inverse, c₂) ← move c₁ dep rep' f.inverse_domain f.inverse
  some (
    record { domain = domain; inverse_domain = inverse_domain; values = values; inverse = inverse },
    c₂,
  )

-- The body of a loop of `validate`: whether no assertion fails for `ob`
unfoldable pub check_entry : Carrier → DenseSet → List ℕ → List ℕ → ℕ → Option Bool
check_entry c domain values inverse ob =
    let bit = contains domain ob in
    let val = get_or values ob 0 in
    if not (contains c.support ob)
    then some (val == 0 && not bit)
    else if val == 0
    then some (not bit)
    else if bit
    then equal c (get_or inverse val 0) ob
    else some false

-- `for (Ob key = 1; key <= item_dim(); ++key)`, from `ob` on. `none` is a round too many: if the
-- dimension is the greatest `Ob`, the loop never ends.
unfoldable pub check_entries : Carrier → DenseSet → List ℕ → List ℕ → ℕ → ℕ → Option Bool
unfolding check_entry
check_entries c domain values inverse zero ob = none
check_entries c domain values inverse (suc fuel) ob =
    let round = (do
      ok ← check_entry c domain values inverse ob
      rest ← check_entries c domain values inverse fuel (next_ob ob)
      some (ok && rest)) in
    if ltb (item_dim c) ob then some true else round

-- Whether no assertion of the two loops of `validate` fails. A loop has `item_dim` rounds, and the fuel
-- is one more for the test at the end.
unfoldable pub validate_entries : Carrier → InjectiveFunction → Option Bool
unfolding check_entries
validate_entries c f = do
  ok ← check_entries c f.domain f.values f.inverse (item_dim c + 1) 1
  ok' ← check_entries c f.inverse_domain f.inverse f.values (item_dim c + 1) 1
  some (ok && ok')

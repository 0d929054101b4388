-- ===== src/Carrier.antt =====
-- pomagma/atlas/macro/carrier.hpp and carrier.cpp: the set of obs of a structure, with the
-- representative of each. An ob that was merged points to a smaller one, down to the representative
-- of its class. `merged` lists the arguments of the calls of m_merge_callback, in order.
-- The state is that of one thread at a time: m_merge_mutex serializes the writers.
pub mod Root
pub mod Inv
pub mod Insert
pub mod Find
pub mod Link
pub mod Merge
pub mod Redirect
pub mod Remove
pub mod Classes
pub mod Side
pub mod Validate
pub mod SameObs
pub mod Ends
pub mod Examples
use pomagma.Prelude.{
  ◌%◌, ℕ, zero, suc, ◌+◌, ◌-◌, ◌≤◌, ◌<◌, ◌^◌, List, [], ◌∷◌, ◌++◌, Bool, true, false, not, ◌==◌,
  ltb, if◌then◌else◌, Option, none, some, get_or, set, replicate,
}
use pomagma.Word.{inc_size, dec_size}
use pomagma.DenseSet.{DenseSet, contains, insert, remove, new}
use pomagma.DenseSet.Whole.{zero_all}
use pomagma.DenseSet.Scan.{count_items, insert_one}

pub record Carrier : Type 0 where
  pub support : DenseSet
  pub item_count : ℕ
  pub rep_count : ℕ
  pub reps : List ℕ
  pub merged : List ℕ

-- The option monad of the operations that can fail.
infixl 5 ◌>>=◌
abbrev pub ◌>>=◌ {ℓ κ} : {A : Type ℓ} {B : Type κ} → Option A → (A → Option B) → Option B
none >>= f = none
some a >>= f = f a

-- MAX_ITEM_DIM, for a 32-bit `Ob`
abbrev pub max_item_dim : ℕ
max_item_dim = 2 ^ 32 - 1

abbrev pub item_dim : Carrier → ℕ
item_dim c = c.support.item_dim

abbrev pub rep_at : Carrier → ℕ → ℕ
rep_at c ob = get_or c.reps ob 0

abbrev pub set_rep : Carrier → ℕ → ℕ → Carrier
set_rep c ob rep = record c { reps = set c.reps ob rep }

-- The constructor. `none` is its assertion, that a dimension fits an `Ob`.
unfoldable pub create : ℕ → Option Carrier
create n =
    if ltb max_item_dim n
    then none
    else some (record {
      support = new n;
      item_count = 0;
      rep_count = 0;
      reps = replicate (1 + n) 0;
      merged = [];
    })

unfoldable pub clear : Carrier → Carrier
clear c = record c {
  support = zero_all c.support;
  reps = replicate (1 + item_dim c) 0;
  rep_count = 0;
  item_count = 0;
}

unfoldable pub raw_insert : Carrier → ℕ → Carrier
raw_insert c ob = record c { support = insert c.support ob; reps = set c.reps ob ob }

unfoldable pub update : Carrier → Carrier
update c = record c { item_count = count_items c.support; rep_count = count_items c.support }

-- `none` is the assertion that there is room.
unfoldable pub unsafe_insert : Carrier → Option (ℕ × Carrier)
unsafe_insert c =
    if ltb c.item_count (item_dim c)
    then (do
      (ob, support) ← insert_one c.support
      some (
        ob,
        record c {
          support = support;
          reps = set c.reps ob ob;
          item_count = inc_size c.item_count;
          rep_count = inc_size c.rep_count;
        },
      ))
    else none

-- `find` and `_find`, which call one another; each call goes to a smaller ob, so that the fuel
-- `ob + 1` is enough in a valid carrier, and `none` is a call too many.
unfoldable pub find_fuel : ℕ → Carrier → ℕ → Option ℕ
find_fuel zero c ob = none
find_fuel (suc fuel) c ob =
    let rep = rep_at c ob in
    let deeper = find_fuel fuel c rep in
    if rep == ob then some ob else do
      rep_rep ← deeper
      if rep_at c ob == rep_rep
          then some rep_rep
          else some (if ltb rep rep_rep then rep else rep_rep)

unfoldable pub find : Carrier → ℕ → Option ℕ
find c ob = find_fuel (ob + 1) c ob

unfoldable pub equal : Carrier → ℕ → ℕ → Option Bool
equal c lhs rhs = do l ← find c lhs; r ← find c rhs; some (l == r)

-- The end of `merge`, at a representative `dep`.
unfoldable pub link : Carrier → ℕ → ℕ → Carrier
link c dep rep = record c {
  reps = set c.reps dep rep;
  merged = c.merged ++ dep ∷ [];
  rep_count = dec_size c.rep_count;
}

-- The loop of `merge`. A round lowers `dep + rep`.
unfoldable pub merge_loop : ℕ → Carrier → ℕ → ℕ → Option (ℕ × Carrier)
merge_loop zero c dep rep = none
merge_loop (suc fuel) c dep rep =
    let dep' = rep_at c dep in
    let swapped = merge_loop fuel c rep dep' in
    let straight = merge_loop fuel c dep' rep in
    if dep' == dep
    then some (rep, link c dep rep)
    else if dep' == rep
    then some (rep, c)
    else if ltb dep' rep
    then swapped
    else straight

unfoldable pub merge : Carrier → ℕ → ℕ → Option (ℕ × Carrier)
merge c dep rep = merge_loop (dep + rep + 1) c dep rep

unfoldable pub ensure_equal : Carrier → ℕ → ℕ → Option (ℕ × Carrier)
ensure_equal c lhs rhs =
    if lhs == rhs
    then some (lhs, c)
    else merge c (if ltb rhs lhs then lhs else rhs) (if ltb lhs rhs then lhs else rhs)

-- The value set, the new `destin`, and the carrier.
unfoldable pub set_and_merge : Carrier → ℕ → ℕ → Option (Bool × ℕ × Carrier)
set_and_merge c destin source =
    if destin == source
    then some (false, destin, c)
    else do (ob, c') ← ensure_equal c destin source; some (true, ob, c')

unfoldable pub set_or_merge : Carrier → ℕ → ℕ → Option (Bool × ℕ × Carrier)
set_or_merge c destin source =
    if destin == 0
    then some (true, source, c)
    else do (ob, c') ← ensure_equal c destin source; some (false, destin, c')

-- `while (m_reps[rep] != rep) rep = m_reps[rep]`
unfoldable pub climb : ℕ → Carrier → ℕ → Option ℕ
climb zero c rep = none
climb (suc fuel) c rep =
    let rest = climb fuel c (rep_at c rep) in if rep_at c rep == rep then some rep else rest

-- `++ob`, on an `Ob` of 32 bits
abbrev pub next_ob : ℕ → ℕ
next_ob ob = (ob + 1) % 2 ^ 32

-- `for (Ob other = ob + 1, end = item_dim(); other <= end; ++other)`, from `other` on: it points past
-- `ob`. `none` is a round too many. If `end` is the greatest `Ob`, the loop never ends.
unfoldable pub redirect : ℕ → ℕ → ℕ → ℕ → ℕ → List ℕ → Option (List ℕ)
redirect zero other end ob rep reps = none
redirect (suc fuel) other end ob rep reps =
    let rest =
      redirect fuel (next_ob other) end ob rep
        (if get_or reps other 0 == ob then set reps other rep else reps) in
    if ltb end other then some reps else rest

-- The loop for a representative only asserts. The other has `item_dim - ob` rounds, and the fuel is
-- one more for the test at the end.
unfoldable pub unsafe_remove : Carrier → ℕ → Option Carrier
unfolding redirect
unsafe_remove c ob = do
  rep ← climb (ob + 1) c ob
  reps' ←
      if rep == ob
      then some c.reps
      else redirect (item_dim c - ob + 1) (next_ob ob) (item_dim c) ob rep c.reps
  some (record c {
    support = remove c.support ob;
    reps = set reps' ob 0;
    rep_count = if rep == ob then dec_size c.rep_count else c.rep_count;
    item_count = dec_size c.item_count;
  })

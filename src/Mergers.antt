-- ===== src/Mergers.antt =====
-- `process_mergers` of pomagma/atlas/macro/scheduler.cpp, on the tables of pomagma/atlas/macro. The
-- calls of the merge callback that a step makes go to the queue at the end of the step; the code
-- reads the queue only then. The tables of one kind are in the order of their numbers.
pub mod Examples
use mathlib.Core.Option
use pomagma.Prelude.{
  ℕ, zero, suc, List, [], ◌∷◌, ◌++◌, ltb, ◌==◌, if◌then◌else◌, Option, none, some, drop, length,
  ◌+◌,
}
use pomagma.Carrier.{Carrier, unsafe_remove, ◌>>=◌}
use pomagma.Carrier.{find as find_rep}
use pomagma.NullaryFunction
use pomagma.InjectiveFunction
use pomagma.BinaryFunction
use pomagma.SymmetricFunction
use pomagma.UnaryRelation
use pomagma.BinaryRelation
use pomagma.Scheduler.{UniqueFifoQueue, schedule, pop}
use pomagma.Tables.{Tables}

-- `POMAGMA_MERGE` for functions that can merge obs of the carrier
unfoldable pub merge_each {ℓ} :
    {F : Type ℓ}
    → (Carrier → F → Option (F × Carrier))
    → Carrier
    → List F
    → Option (List F × Carrier)
merge_each unsafe_merge c [] = some ([], c)
merge_each unsafe_merge c (f ∷ fs) = do
  (f', c1) ← unsafe_merge c f
  (fs', c2) ← merge_each unsafe_merge c1 fs
  some (f' ∷ fs', c2)

-- `POMAGMA_MERGE` and `POMAGMA_UPDATE` for tables that leave the carrier alone
unfoldable pub each {ℓ} : {F : Type ℓ} → (F → Option F) → List F → Option (List F)
each unsafe_merge [] = some []
each unsafe_merge (f ∷ fs) = do f' ← unsafe_merge f; fs' ← each unsafe_merge fs; some (f' ∷ fs')

-- The merges of one ob in all tables
unfoldable pub merge_tables : ℕ → Tables → Option Tables
unfolding merge_each each
merge_tables dep s = do
  (bs, c1) ← merge_each (λ c. BinaryFunction.unsafe_merge c dep) s.carrier s.binary_functions
  (ss, c2) ← merge_each (λ c. SymmetricFunction.unsafe_merge c dep) c1 s.symmetric_functions
  (is, c3) ← merge_each (λ c. InjectiveFunction.unsafe_merge c dep) c2 s.injective_functions
  ns ← each (NullaryFunction.unsafe_merge c3 dep) s.nullary_functions
  us ← each (UnaryRelation.unsafe_merge c3 dep) s.unary_relations
  rs ← each (BinaryRelation.unsafe_merge c3 dep) s.binary_relations
  some (record {
    carrier = c3;
    unary_relations = us;
    binary_relations = rs;
    nullary_functions = ns;
    injective_functions = is;
    binary_functions = bs;
    symmetric_functions = ss;
  })

-- `while (Ob dep = g_merge_queue.pop())`: the tables and `remove_queue` at the end. `none` is also
-- the assertion that the merge is well-formed.
unfoldable pub merge_queued : ℕ → UniqueFifoQueue → Tables → Option (List ℕ × Tables)
unfolding merge_tables
merge_queued zero q s = none
merge_queued (suc fuel) q s =
    let (dep, q1) = pop q in
    let round = (do
      rep ← find_rep s.carrier dep
      s1 ← if ltb rep dep then merge_tables dep s else none
      let called = drop (length s.carrier.merged) s1.carrier.merged
      (deps, s2) ← merge_queued fuel (schedule called q1) s1
      some (dep ∷ deps, s2)) in
    if dep == 0 then some ([], s) else round

-- `POMAGMA_UPDATE` for all functions; those of the other two kinds have nothing to update.
unfoldable pub update_tables : Tables → Option Tables
unfolding each
update_tables s = do
  bs ← each (BinaryFunction.update_values s.carrier) s.binary_functions
  ss ← each (SymmetricFunction.update_values s.carrier) s.symmetric_functions
  some (record s { binary_functions = bs; symmetric_functions = ss })

unfoldable pub remove_each : List ℕ → Carrier → Option Carrier
remove_each [] c = some c
remove_each (dep ∷ deps) c = do c' ← unsafe_remove c dep; remove_each deps c'

-- Fuel for one round more than there are merges to come: each round that is not the last takes the
-- call of one merge, and an ob is merged once.
unfoldable pub process_mergers : UniqueFifoQueue → Tables → Option Tables
unfolding merge_queued update_tables remove_each
process_mergers q s = do
  (deps, s1) ← merge_queued (length q.queue + s.carrier.rep_count + 1) q s
  s2 ← update_tables s1
  c ← remove_each deps s2.carrier
  some (record s2 { carrier = c })

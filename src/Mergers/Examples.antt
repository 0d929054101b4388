-- ===== src/Mergers/Examples.antt =====
-- Merges of pomagma/atlas/macro/scheduler.cpp on small tables: tests.
use mathlib.Core.Option
use pomagma.Prelude.{
  ℕ, List, [], ◌∷◌, ◌≡◌, refl, Bool, true, false, Option, some, replicate, get_elem?,
}
use pomagma.Prelude.Table.{pair_key}
use pomagma.Prelude.Table.{find as find_pair, put as put_pair}
use pomagma.DenseSet.{DenseSet, new}
use pomagma.Carrier.{Carrier}
use pomagma.Carrier.Examples.{sample}
use pomagma.BinaryFunction.{BinaryFunction}
use pomagma.BinaryFunction
use pomagma.Scheduler.{UniqueFifoQueue}
use pomagma.Tables.{Tables}
use pomagma.Mergers.{process_mergers}

program : Unit {0}
unfolding process_mergers pomagma.Mergers.merge_queued pomagma.Mergers.merge_tables
    pomagma.Mergers.merge_each pomagma.Mergers.each pomagma.Mergers.update_tables
    pomagma.Mergers.remove_each pomagma.Scheduler.schedule pomagma.Scheduler.push
    pomagma.Scheduler.pop pomagma.Scheduler.pop_at pomagma.Scheduler.has pomagma.Scheduler.erase
    pomagma.Carrier.find pomagma.Carrier.find_fuel pomagma.Carrier.set_or_merge
    pomagma.Carrier.ensure_equal pomagma.Carrier.merge pomagma.Carrier.merge_loop
    pomagma.Carrier.link pomagma.Carrier.unsafe_remove pomagma.Carrier.climb
    pomagma.Carrier.redirect pomagma.DenseSet.remove pomagma.Word.zero_bit pomagma.DenseSet.contains
    new pomagma.DenseSet.raw_insert pomagma.DenseSet.raw_remove pomagma.Word.one_bit
    pomagma.DenseSet.Whole.merge pomagma.BinaryRelation.one_at pomagma.BinaryRelation.zero_at
    pomagma.BinaryRelation.items pomagma.DenseSet.Iter.iter_words pomagma.DenseSet.Iter.visit
    pomagma.DenseSet.Iter.next pomagma.DenseSet.Iter.next_block pomagma.DenseSet.Iter.first_bit
    pomagma.DenseSet.Iter.next_bit BinaryFunction.unsafe_merge BinaryFunction.merge_rhs
    BinaryFunction.merge_lhs BinaryFunction.move_value BinaryFunction.merge_line
    BinaryFunction.update_values BinaryFunction.update_each BinaryFunction.raw_insert
    BinaryFunction.one_pair BinaryFunction.find find_pair put_pair pomagma.Prelude.Table.insert
    pomagma.Prelude.Table.erase
program = tt

abbrev no_values : BinaryFunction
no_values = record {
  lines = record { lx = replicate 5 (new 4); rx = replicate 5 (new 4) };
  values = [];
}

-- The ob 3 is merged into 1, and (3, 2) and (1, 2) have the values 3 and 2.
abbrev tables : Tables
tables = record {
  carrier = sample;
  unary_relations = [];
  binary_relations = [];
  nullary_functions = [];
  injective_functions = [];
  binary_functions =
      BinaryFunction.raw_insert 3 2 3 (BinaryFunction.raw_insert 1 2 2 no_values) ∷ [];
  symmetric_functions = [];
}

abbrev value_at : ℕ → ℕ → List BinaryFunction → List ℕ
value_at lhs rhs [] = []
value_at lhs rhs (f ∷ fs) = BinaryFunction.find f lhs rhs ∷ value_at lhs rhs fs

-- Merging 3 in the function merges 2 and 1, and a second round merges 2 there too.
merges_follow :
    Option.map {B = List ℕ × List ℕ × List ℕ}
      (λ (s : Tables). (s.carrier.reps, s.carrier.support.words, value_at 1 1 s.binary_functions))
      (process_mergers (record { members = 3 ∷ []; queue = 3 ∷ [] }) tables)
    ≡ some (0 ∷ 1 ∷ 0 ∷ 0 ∷ 0 ∷ [], 2 ∷ [], 1 ∷ [])
unfolding program
merges_follow = refl

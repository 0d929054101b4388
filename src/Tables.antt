-- ===== src/Tables.antt =====
-- The tables of pomagma/atlas/macro behind the interface of the virtual machine: the arrays that
-- `VirtualMachine::load` of pomagma/atlas/vm_impl.hpp fills, with the getters that read them.
pub mod Narrow
pub mod Inserts
pub mod Counts
pub mod Examples
use mathlib.Core.Option
use pomagma.Prelude.{
  ℕ, List, [], ◌∷◌, Bool, true, false, Option, none, some, length, get_elem?, set,
}
use pomagma.DenseSet.{items_to_words}
use pomagma.Carrier.{Carrier, ensure_equal}
use pomagma.UnaryRelation.{UnaryRelation}
use pomagma.UnaryRelation
use pomagma.BinaryRelation.{BinaryRelation, line}
use pomagma.BinaryRelation
use pomagma.NullaryFunction.{NullaryFunction}
use pomagma.NullaryFunction
use pomagma.InjectiveFunction.{InjectiveFunction}
use pomagma.InjectiveFunction
use pomagma.BinaryFunction.{BinaryFunction}
use pomagma.BinaryFunction
use pomagma.SymmetricFunction.{SymmetricFunction}
use pomagma.SymmetricFunction
use pomagma.Vm.{
  SetRef, null, support, unary, binary_lx, binary_rx, injective, inverse, function_lx, function_rx,
  symmetric_lx, Fact, unary_fact, binary_fact, App, nullary_app, injective_app, binary_app,
  symmetric_app, Structure, Outcome, ok, missing, no_fuel, ◌>>=◌, or_fault,
}

pub record Tables : Type 0 where
  pub carrier : Carrier
  pub unary_relations : List UnaryRelation
  pub binary_relations : List BinaryRelation
  pub nullary_functions : List NullaryFunction
  pub injective_functions : List InjectiveFunction
  pub binary_functions : List BinaryFunction
  pub symmetric_functions : List SymmetricFunction

-- The raw data of a set
unfoldable pub words : Tables → SetRef → Option (List ℕ)
words s null = none
words s support = some s.carrier.support.words
words s (unary rel) = Option.map (λ r. r.set.words) (get_elem? s.unary_relations rel)
words s (binary_lx rel lhs) =
    Option.map (λ r. (line r.lx lhs).words) (get_elem? s.binary_relations rel)
words s (binary_rx rel rhs) =
    Option.map (λ r. (line r.rx rhs).words) (get_elem? s.binary_relations rel)
words s (injective fun) = Option.map (λ f. f.domain.words) (get_elem? s.injective_functions fun)
words s (inverse fun) =
    Option.map (λ f. f.inverse_domain.words) (get_elem? s.injective_functions fun)
words s (function_lx fun lhs) =
    Option.map (λ f. (line f.lines.lx lhs).words) (get_elem? s.binary_functions fun)
words s (function_rx fun rhs) =
    Option.map (λ f. (line f.lines.rx rhs).words) (get_elem? s.binary_functions fun)
words s (symmetric_lx fun lhs) =
    Option.map (λ f. (line f.lines lhs).words) (get_elem? s.symmetric_functions fun)

unfoldable pub holds : Tables → Fact → Option Bool
holds s (unary_fact rel key) =
    Option.map (λ r. UnaryRelation.find r key) (get_elem? s.unary_relations rel)
holds s (binary_fact rel lhs rhs) =
    Option.map (λ r. BinaryRelation.find_lx r lhs rhs) (get_elem? s.binary_relations rel)

unfoldable pub find : Tables → App → Option ℕ
find s (nullary_app fun) =
    Option.map (λ f. NullaryFunction.find f) (get_elem? s.nullary_functions fun)
find s (injective_app fun key) =
    Option.map (λ f. InjectiveFunction.find f key) (get_elem? s.injective_functions fun)
find s (binary_app fun lhs rhs) =
    Option.map (λ f. BinaryFunction.find f lhs rhs) (get_elem? s.binary_functions fun)
find s (symmetric_app fun lhs rhs) =
    Option.map (λ f. SymmetricFunction.find f lhs rhs) (get_elem? s.symmetric_functions fun)

unfoldable pub inverse_find : Tables → ℕ → ℕ → Option ℕ
inverse_find s fun val =
    Option.map (λ f. InjectiveFunction.inverse_find f val) (get_elem? s.injective_functions fun)

-- A table of a number
abbrev table_at {ℓ} : {A : Type ℓ} → List A → ℕ → Outcome A
table_at tables i = or_fault missing (get_elem? tables i)

unfoldable pub insert_fact : Tables → Fact → Outcome Tables
insert_fact s (unary_fact rel key) = do
  r ← table_at s.unary_relations rel
  ok (record s { unary_relations = set s.unary_relations rel (UnaryRelation.insert r key) })
insert_fact s (binary_fact rel lhs rhs) = do
  r ← table_at s.binary_relations rel
  ok (record s {
    binary_relations = set s.binary_relations rel (BinaryRelation.insert_lx lhs rhs r);
  })

-- The insertions into functions fail only where the merges of the carrier run out of fuel.
unfoldable pub insert : Tables → App → ℕ → Outcome Tables
insert s (nullary_app fun) val = do
  f ← table_at s.nullary_functions fun
  (f', c) ← or_fault no_fuel (NullaryFunction.insert s.carrier val f)
  ok (record s { carrier = c; nullary_functions = set s.nullary_functions fun f' })
insert s (injective_app fun key) val = do
  f ← table_at s.injective_functions fun
  (f', c) ← or_fault no_fuel (InjectiveFunction.insert s.carrier key val f)
  ok (record s { carrier = c; injective_functions = set s.injective_functions fun f' })
insert s (binary_app fun lhs rhs) val = do
  f ← table_at s.binary_functions fun
  (f', c) ← or_fault no_fuel (BinaryFunction.insert s.carrier lhs rhs val f)
  ok (record s { carrier = c; binary_functions = set s.binary_functions fun f' })
insert s (symmetric_app fun lhs rhs) val = do
  f ← table_at s.symmetric_functions fun
  (f', c) ← or_fault no_fuel (SymmetricFunction.insert s.carrier lhs rhs val f)
  ok (record s { carrier = c; symmetric_functions = set s.symmetric_functions fun f' })

unfoldable pub merge_obs : Tables → ℕ → ℕ → Outcome Tables
merge_obs s lhs rhs = do
  (ob, c) ← or_fault no_fuel (ensure_equal s.carrier lhs rhs)
  ok (record s { carrier = c })

-- The machine on a carrier of a size
unfoldable pub machine : ℕ → Structure Tables
unfolding words holds find inverse_find insert_fact insert merge_obs
machine item_dim = record {
  word_dim = items_to_words item_dim;
  words = words;
  holds = holds;
  find = find;
  inverse_find = inverse_find;
  insert_fact = insert_fact;
  insert = insert;
  ensure_equal = merge_obs;
}

-- ===== src/Vm/Steps.antt =====
-- The instructions of `VirtualMachine::_execute` in pomagma/atlas/vm_impl.hpp. `run` executes the
-- program that follows; a table behind a reference is looked up when the code reads through it.
use pomagma.Prelude.{ℕ, zero, suc, List, [], ◌∷◌, drop}
use pomagma.Program.{eval_float53}
use pomagma.Vm.{
  SetRef, support, unary, binary_lx, binary_rx, Fact, unary_fact, binary_fact, App, nullary_app,
  injective_app, binary_app, symmetric_app, Structure, Program, Context, set_ob, set_set, Outcome,
  ok, missing, ◌>>=◌, or_fault, pop_arg, pop_ob, pop_set,
}
use pomagma.Vm.Loop.{loop}

-- The four arities of functions
pub data FunctionArity : Type 0 where
  nullary_arity injective_arity binary_arity symmetric_arity : FunctionArity

-- `pop_nullary_function` and so on, with the `pop_ob` of each argument behind it
unfoldable pub pop_app : FunctionArity → Program → Context → Outcome (App × Program)
pop_app nullary_arity p c = do (fun, p1) ← pop_arg p; ok (nullary_app fun, p1)
pop_app injective_arity p c = do
  (fun, p1) ← pop_arg p
  (key, p2) ← pop_ob p1 c
  ok (injective_app fun key, p2)
pop_app binary_arity p c = do
  (fun, p1) ← pop_arg p
  (lhs, p2) ← pop_ob p1 c
  (rhs, p3) ← pop_ob p2 c
  ok (binary_app fun lhs rhs, p3)
pop_app symmetric_arity p c = do
  (fun, p1) ← pop_arg p
  (lhs, p2) ← pop_ob p1 c
  (rhs, p3) ← pop_ob p2 c
  ok (symmetric_app fun lhs rhs, p3)

-- The arities of relations
pub data RelationArity : Type 0 where
  unary_arity binary_relation_arity : RelationArity

unfoldable pub pop_fact : RelationArity → Program → Context → Outcome (Fact × Program)
pop_fact unary_arity p c = do
  (rel, p1) ← pop_arg p
  (key, p2) ← pop_ob p1 c
  ok (unary_fact rel key, p2)
pop_fact binary_relation_arity p c = do
  (rel, p1) ← pop_arg p
  (lhs, p2) ← pop_ob p1 c
  (rhs, p3) ← pop_ob p2 c
  ok (binary_fact rel lhs rhs, p3)

-- `pop_set` a number of times
unfoldable pub pop_sets : ℕ → Program → Context → Outcome (List SetRef × Program)
pop_sets zero p c = ok ([], p)
pop_sets (suc n) p c = do (ref, p1) ← pop_set p c; (refs, p2) ← pop_sets n p1 c; ok (ref ∷ refs, p2)

-- Arguments that the instruction passes over
unfoldable pub skip_args : ℕ → Program → Outcome Program
skip_args zero p = ok p
skip_args (suc n) p = do (arg, p1) ← pop_arg p; skip_args n p1

module _ {S : Type 0} (t : Structure S) where
  open t use {words, holds, find, inverse_find, insert_fact, insert, ensure_equal}

  abbrev pub Run : Type 0
  Run = Program → Context → S → Outcome (Context × S)

  -- SEQUENCE: the program behind, then the program from the jump on
  unfoldable pub run_sequence : Run → Run
  run_sequence run p c s = do
    (num, p1) ← pop_arg p
    (c', s') ← run p1 c s
    run (drop (eval_float53 num) p1) c' s'

  -- The GIVEN instructions
  unfoldable pub run_given : ℕ → Run → Run
  run_given n run p c s = do p1 ← skip_args n p; run p1 c s

  -- A register is made to point to the set of a table that there is.
  unfoldable pub point_to : SetRef → ℕ → Program → Run → Context → S → Outcome (Context × S)
  point_to ref reg p run c s = do ws ← or_fault missing (words s ref); run p (set_set c reg ref) s

  -- LETS_UNARY_RELATION, LETS_INJECTIVE_FUNCTION, LETS_INJECTIVE_FUNCTION_INVERSE
  unfoldable pub run_lets : (ℕ → SetRef) → Run → Run
  unfolding point_to
  run_lets ref run p c s = do
    (table, p1) ← pop_arg p
    (reg, p2) ← pop_arg p1
    point_to (ref table) reg p2 run c s

  -- LETS_BINARY_RELATION_LHS, LETS_BINARY_FUNCTION_LHS, LETS_SYMMETRIC_FUNCTION_LHS
  unfoldable pub run_lets_lhs : (ℕ → ℕ → SetRef) → Run → Run
  unfolding point_to
  run_lets_lhs ref run p c s = do
    (table, p1) ← pop_arg p
    (lhs, p2) ← pop_ob p1 c
    (reg, p3) ← pop_arg p2
    point_to (ref table lhs) reg p3 run c s

  -- LETS_BINARY_RELATION_RHS, LETS_BINARY_FUNCTION_RHS
  unfoldable pub run_lets_rhs : (ℕ → ℕ → SetRef) → Run → Run
  unfolding point_to
  run_lets_rhs ref run p c s = do
    (table, p1) ← pop_arg p
    (reg, p2) ← pop_arg p1
    (rhs, p3) ← pop_ob p2 c
    point_to (ref table rhs) reg p3 run c s

  -- `ob = *iter; _execute(program, context);`
  unfoldable pub bind_ob : ℕ → Program → Run → ℕ → Context → S → Outcome (Context × S)
  bind_ob reg p run i c s = run p (set_ob c reg i) s

  -- FOR_POS_..._NEG_...: `pos` positive sets after the first, then `neg` negative ones
  unfoldable pub run_for_pos : ℕ → ℕ → Run → Run
  unfolding bind_ob
  run_for_pos pos neg run p c s = do
    (reg, p1) ← pop_arg p
    (first, p2) ← pop_set p1 c
    (more, p3) ← pop_sets pos p2 c
    (less, p4) ← pop_sets neg p3 c
    loop t (record { first = first; pos = more; neg = less }) (bind_ob reg p4 run) c s

  -- FOR_NEG, FOR_NEG_NEG
  unfoldable pub run_for_neg : ℕ → Run → Run
  unfolding bind_ob
  run_for_neg neg run p c s = do
    (reg, p1) ← pop_arg p
    (less, p2) ← pop_sets neg p1 c
    loop t (record { first = support; pos = []; neg = less }) (bind_ob reg p2 run) c s

  -- FOR_ALL
  unfoldable pub run_for_all : Run → Run
  unfolding bind_ob
  run_for_all run p c s = do
    (reg, p1) ← pop_arg p
    loop t (record { first = support; pos = []; neg = [] }) (bind_ob reg p1 run) c s

  -- FOR_UNARY_RELATION
  unfoldable pub run_for_unary : Run → Run
  unfolding bind_ob
  run_for_unary run p c s = do
    (rel, p1) ← pop_arg p
    (key, p2) ← pop_arg p1
    loop t (record { first = unary rel; pos = []; neg = [] }) (bind_ob key p2 run) c s

  -- FOR_BINARY_RELATION_LHS
  unfoldable pub run_for_binary_lhs : Run → Run
  unfolding bind_ob
  run_for_binary_lhs run p c s = do
    (rel, p1) ← pop_arg p
    (lhs, p2) ← pop_ob p1 c
    (rhs, p3) ← pop_arg p2
    loop t (record { first = binary_lx rel lhs; pos = []; neg = [] }) (bind_ob rhs p3 run) c s

  -- FOR_BINARY_RELATION_RHS
  unfoldable pub run_for_binary_rhs : Run → Run
  unfolding bind_ob
  run_for_binary_rhs run p c s = do
    (rel, p1) ← pop_arg p
    (lhs, p2) ← pop_arg p1
    (rhs, p3) ← pop_ob p2 c
    loop t (record { first = binary_rx rel rhs; pos = []; neg = [] }) (bind_ob lhs p3 run) c s

-- ===== src/Vm/Execute.antt =====
-- `VirtualMachine::_execute` of pomagma/atlas/vm_impl.hpp, built as in pomagma/atlas/macro, without
-- inverse indices of functions; and the methods `execute` of vm.hpp.
use pomagma.Prelude.{ℕ, zero, suc, ◌+◌, List, [], ◌∷◌, Option, none, some, get_elem?, length}
use pomagma.Program.{OpCode, op_codes}
use pomagma.Program.{
  padding, sequence, given_exists, given_unary_relation, given_binary_relation,
  given_nullary_function, given_injective_function, given_binary_function, given_symmetric_function,
  lets_unary_relation, lets_binary_relation_lhs, lets_binary_relation_rhs, lets_injective_function,
  lets_injective_function_inverse, lets_binary_function_lhs, lets_binary_function_rhs,
  lets_symmetric_function_lhs, for_neg, for_neg_neg, for_pos_neg, for_pos_neg_neg, for_pos_pos,
  for_pos_pos_neg, for_pos_pos_neg_neg, for_pos_pos_pos, for_pos_pos_pos_pos,
  for_pos_pos_pos_pos_pos, for_pos_pos_pos_pos_pos_pos, for_all, for_unary_relation,
  for_binary_relation_lhs, for_binary_relation_rhs, for_nullary_function, for_injective_function,
  for_injective_function_key, for_injective_function_val, for_binary_function_lhs,
  for_binary_function_rhs, for_binary_function_val, for_binary_function_lhs_val,
  for_binary_function_rhs_val, for_binary_function_lhs_rhs, for_symmetric_function_lhs,
  for_symmetric_function_val, for_symmetric_function_lhs_val, for_symmetric_function_lhs_rhs,
  for_block, if_block, if_equal, if_unary_relation, if_binary_relation, if_nullary_function,
  if_injective_function, if_binary_function, if_symmetric_function, let_nullary_function,
  let_injective_function, let_binary_function, let_symmetric_function, infer_equal,
  infer_unary_relation, infer_binary_relation, infer_nullary_function, infer_injective_function,
  infer_binary_function, infer_symmetric_function, infer_nullary_nullary, infer_nullary_injective,
  infer_nullary_binary, infer_nullary_symmetric, infer_injective_injective, infer_injective_binary,
  infer_injective_symmetric, infer_binary_binary, infer_binary_symmetric, infer_symmetric_symmetric,
}
use pomagma.Vm.{
  unary, binary_lx, binary_rx, injective, inverse, function_lx, function_rx, symmetric_lx,
  binary_app, symmetric_app, Structure, Program, Context, set_ob, Outcome, ok, err,
  padding_executed, unsupported, no_fuel, overrun,
}
use pomagma.Vm.Steps.{
  nullary_arity, injective_arity, binary_arity, symmetric_arity, unary_arity, binary_relation_arity,
  Run, run_for_all, run_for_binary_lhs, run_for_binary_rhs, run_for_neg, run_for_pos, run_for_unary,
  run_given, run_lets, run_lets_lhs, run_lets_rhs, run_sequence,
}
use pomagma.Vm.Functions.{
  run_for_injective, run_for_key, run_for_lhs, run_for_rhs, run_for_value, run_if_block,
  run_if_equal, run_if_fact, run_if_value, run_infer_equal, run_infer_fact, run_infer_pair,
  run_infer_value, run_let,
}

module _ {S : Type 0} (t : Structure S) where
  -- The `switch` on the instruction
  unfoldable pub step : OpCode → Run t → Run t
  step padding run p c s = err padding_executed
  step sequence run p c s = run_sequence t run p c s
  step given_exists run p c s = run_given t 1 run p c s
  step given_unary_relation run p c s = run_given t 2 run p c s
  step given_binary_relation run p c s = run_given t 3 run p c s
  step given_nullary_function run p c s = run_given t 1 run p c s
  step given_injective_function run p c s = run_given t 2 run p c s
  step given_binary_function run p c s = run_given t 3 run p c s
  step given_symmetric_function run p c s = run_given t 3 run p c s
  step lets_unary_relation run p c s = run_lets t unary run p c s
  step lets_binary_relation_lhs run p c s = run_lets_lhs t binary_lx run p c s
  step lets_binary_relation_rhs run p c s = run_lets_rhs t binary_rx run p c s
  step lets_injective_function run p c s = run_lets t injective run p c s
  step lets_injective_function_inverse run p c s = run_lets t inverse run p c s
  step lets_binary_function_lhs run p c s = run_lets_lhs t function_lx run p c s
  step lets_binary_function_rhs run p c s = run_lets_rhs t function_rx run p c s
  step lets_symmetric_function_lhs run p c s = run_lets_lhs t symmetric_lx run p c s
  step for_neg run p c s = run_for_neg t 1 run p c s
  step for_neg_neg run p c s = run_for_neg t 2 run p c s
  step for_pos_neg run p c s = run_for_pos t 0 1 run p c s
  step for_pos_neg_neg run p c s = run_for_pos t 0 2 run p c s
  step for_pos_pos run p c s = run_for_pos t 1 0 run p c s
  step for_pos_pos_neg run p c s = run_for_pos t 1 1 run p c s
  step for_pos_pos_neg_neg run p c s = run_for_pos t 1 2 run p c s
  step for_pos_pos_pos run p c s = run_for_pos t 2 0 run p c s
  step for_pos_pos_pos_pos run p c s = run_for_pos t 3 0 run p c s
  step for_pos_pos_pos_pos_pos run p c s = run_for_pos t 4 0 run p c s
  step for_pos_pos_pos_pos_pos_pos run p c s = run_for_pos t 5 0 run p c s
  step for_all run p c s = run_for_all t run p c s
  step for_unary_relation run p c s = run_for_unary t run p c s
  step for_binary_relation_lhs run p c s = run_for_binary_lhs t run p c s
  step for_binary_relation_rhs run p c s = run_for_binary_rhs t run p c s
  step for_nullary_function run p c s = run_for_value t nullary_arity run p c s
  step for_injective_function run p c s = run_for_injective t run p c s
  step for_injective_function_key run p c s = run_for_value t injective_arity run p c s
  step for_injective_function_val run p c s = run_for_key t run p c s
  step for_binary_function_lhs run p c s = run_for_lhs t function_lx binary_app run p c s
  step for_binary_function_rhs run p c s = run_for_rhs t run p c s
  step for_binary_function_val run p c s = err unsupported
  step for_binary_function_lhs_val run p c s = err unsupported
  step for_binary_function_rhs_val run p c s = err unsupported
  step for_binary_function_lhs_rhs run p c s = run_for_value t binary_arity run p c s
  step for_symmetric_function_lhs run p c s = run_for_lhs t symmetric_lx symmetric_app run p c s
  step for_symmetric_function_val run p c s = err unsupported
  step for_symmetric_function_lhs_val run p c s = err unsupported
  step for_symmetric_function_lhs_rhs run p c s = run_for_value t symmetric_arity run p c s
  step for_block run p c s = run p c s
  step if_block run p c s = run_if_block t run p c s
  step if_equal run p c s = run_if_equal t run p c s
  step if_unary_relation run p c s = run_if_fact t unary_arity run p c s
  step if_binary_relation run p c s = run_if_fact t binary_relation_arity run p c s
  step if_nullary_function run p c s = run_if_value t nullary_arity run p c s
  step if_injective_function run p c s = run_if_value t injective_arity run p c s
  step if_binary_function run p c s = run_if_value t binary_arity run p c s
  step if_symmetric_function run p c s = run_if_value t symmetric_arity run p c s
  step let_nullary_function run p c s = run_let t nullary_arity run p c s
  step let_injective_function run p c s = run_let t injective_arity run p c s
  step let_binary_function run p c s = run_let t binary_arity run p c s
  step let_symmetric_function run p c s = run_let t symmetric_arity run p c s
  step infer_equal run p c s = run_infer_equal t p c s
  step infer_unary_relation run p c s = run_infer_fact t unary_arity p c s
  step infer_binary_relation run p c s = run_infer_fact t binary_relation_arity p c s
  step infer_nullary_function run p c s = run_infer_value t nullary_arity p c s
  step infer_injective_function run p c s = run_infer_value t injective_arity p c s
  step infer_binary_function run p c s = run_infer_value t binary_arity p c s
  step infer_symmetric_function run p c s = run_infer_value t symmetric_arity p c s
  step infer_nullary_nullary run p c s = run_infer_pair t nullary_arity nullary_arity p c s
  step infer_nullary_injective run p c s = run_infer_pair t nullary_arity injective_arity p c s
  step infer_nullary_binary run p c s = run_infer_pair t nullary_arity binary_arity p c s
  step infer_nullary_symmetric run p c s = run_infer_pair t nullary_arity symmetric_arity p c s
  step infer_injective_injective run p c s = run_infer_pair t injective_arity injective_arity p c s
  step infer_injective_binary run p c s = run_infer_pair t injective_arity binary_arity p c s
  step infer_injective_symmetric run p c s = run_infer_pair t injective_arity symmetric_arity p c s
  step infer_binary_binary run p c s = run_infer_pair t binary_arity binary_arity p c s
  step infer_binary_symmetric run p c s = run_infer_pair t binary_arity symmetric_arity p c s
  step infer_symmetric_symmetric run p c s = run_infer_pair t symmetric_arity symmetric_arity p c s

  -- A byte that is no instruction falls through the `switch`.
  unfoldable pub dispatch : Option OpCode → Run t → Run t
  dispatch none run p c s = ok (c, s)
  dispatch (some op) run p c s = step op run p c s

  -- `_execute`, on fuel: each call is about a shorter program.
  unfoldable pub execute_from : ℕ → Run t
  unfolding dispatch
  execute_from zero p c s = err no_fuel
  execute_from (suc fuel) [] c s = err overrun
  execute_from (suc fuel) (op_code ∷ p) c s =
      dispatch (get_elem? op_codes op_code) (execute_from fuel) p c s

  unfoldable pub execute : Run t
  unfolding execute_from
  execute p c s = execute_from (length p + 1) p c s

  -- `execute` of vm.hpp: the arguments go to the first registers, the others stay as they are.
  unfoldable pub execute_args : Program → List ℕ → Context → S → Outcome (Context × S)
  unfolding execute
  execute_args p [] c s = execute p c s
  execute_args p (arg1 ∷ []) c s = execute p (set_ob c 0 arg1) s
  execute_args p (arg1 ∷ arg2 ∷ []) c s = execute p (set_ob (set_ob c 0 arg1) 1 arg2) s
  execute_args p (arg1 ∷ arg2 ∷ arg3 ∷ rest) c s =
      execute p (set_ob (set_ob (set_ob c 0 arg1) 1 arg2) 2 arg3) s

  unfoldable pub execute_block : Program → ℕ → Context → S → Outcome (Context × S)
  unfolding execute
  execute_block p block c s = execute p (record c { block = block }) s

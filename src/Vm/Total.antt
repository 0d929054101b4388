-- ===== src/Vm/Total.antt =====
-- The virtual machine of pomagma/atlas/vm_impl.hpp on whole programs.
use pomagma.Prelude.{
  ℕ, zero, suc, ◌+◌, ◌<◌, ◌≡◌, ◌≢◌, [], ◌∷◌, Option, none, some, get_elem?, length, arith,
}
use pomagma.Program.{OpCode, op_codes}
use pomagma.Program.{
  padding, sequence, given_exists, given_unary_relation, given_binary_relation,
  given_nullary_function, given_injective_function, given_binary_function, given_symmetric_function,
  lets_unary_relation, lets_binary_relation_lhs, lets_binary_relation_rhs, lets_injective_function,
  lets_injective_function_inverse, lets_binary_function_lhs, lets_binary_function_rhs,
  lets_symmetric_function_lhs, for_neg, for_neg_neg, for_pos_neg, for_pos_neg_neg, for_pos_pos,
  for_pos_pos_neg, for_pos_pos_neg_neg, for_pos_pos_pos, for_pos_pos_pos_pos,
  for_pos_pos_pos_pos_pos, for_pos_pos_pos_pos_pos_pos, for_all, for_unary_relation,
  for_binary_relation_lhs, for_binary_relation_rhs, for_nullary_function, for_injective_function,
  for_injective_function_key, for_injective_function_val, for_binary_function_lhs,
  for_binary_function_rhs, for_binary_function_val, for_binary_function_lhs_val,
  for_binary_function_rhs_val, for_binary_function_lhs_rhs, for_symmetric_function_lhs,
  for_symmetric_function_val, for_symmetric_function_lhs_val, for_symmetric_function_lhs_rhs,
  for_block, if_block, if_equal, if_unary_relation, if_binary_relation, if_nullary_function,
  if_injective_function, if_binary_function, if_symmetric_function, let_nullary_function,
  let_injective_function, let_binary_function, let_symmetric_function, infer_equal,
  infer_unary_relation, infer_binary_relation, infer_nullary_function, infer_injective_function,
  infer_binary_function, infer_symmetric_function, infer_nullary_nullary, infer_nullary_injective,
  infer_nullary_binary, infer_nullary_symmetric, infer_injective_injective, infer_injective_binary,
  infer_injective_symmetric, infer_binary_binary, infer_binary_symmetric, infer_symmetric_symmetric,
}
use pomagma.Vm.{
  unary, binary_lx, binary_rx, injective, inverse, function_lx, function_rx, symmetric_lx,
  binary_app, symmetric_app, Structure, Program, Context, ok, err, padding_executed, unsupported,
  no_fuel, overrun,
}
use pomagma.Vm.Returns.{Returns, good, fault, Returns-ne, Returns-ok}
use pomagma.Vm.Steps.{
  Run, nullary_arity, injective_arity, binary_arity, symmetric_arity, unary_arity,
  binary_relation_arity,
}
use pomagma.Vm.Execute.{step, dispatch, execute_from, execute}
use pomagma.Vm.Sound.{
  Keeps, Kept, RunsOn, run_for_pos-Kept, run_for_neg-Kept, run_lets_rhs-Kept, run_for_unary-Kept,
  run_for_binary_lhs-Kept, run_sequence-Kept, run_for_all-Kept, run_lets-Kept, run_lets_lhs-Kept,
  run_given-Kept, run_for_binary_rhs-Kept,
}
use pomagma.Vm.Values.{
  run_for_lhs-Kept, run_for_rhs-Kept, run_infer_equal-Kept, run_for_value-Kept, run_infer_pair-Kept,
  run_if_block-Kept, run_for_key-Kept, run_infer_value-Kept, run_if_value-Kept, run_let-Kept,
  run_infer_fact-Kept, run_if_fact-Kept, run_if_equal-Kept, run_for_injective-Kept,
}

module _ {S : Type 0} (t : Structure S) (P : S → Type 0) (keeps : Keeps t P) where
  step-Kept :
      (op : OpCode) (run : Run t) (p : Program) (c : Context) (s : S)
      → RunsOn t P keeps run p
      → P s
      → Returns (Kept t P keeps) (step t op run p c s)
  unfolding step
  step-Kept padding run p c s g k = fault padding_executed (cc)
  step-Kept sequence run p c s g k = run_sequence-Kept t P keeps run p c s g k
  step-Kept given_exists run p c s g k = run_given-Kept t P keeps run p c s g k 1
  step-Kept given_unary_relation run p c s g k = run_given-Kept t P keeps run p c s g k 2
  step-Kept given_binary_relation run p c s g k = run_given-Kept t P keeps run p c s g k 3
  step-Kept given_nullary_function run p c s g k = run_given-Kept t P keeps run p c s g k 1
  step-Kept given_injective_function run p c s g k = run_given-Kept t P keeps run p c s g k 2
  step-Kept given_binary_function run p c s g k = run_given-Kept t P keeps run p c s g k 3
  step-Kept given_symmetric_function run p c s g k = run_given-Kept t P keeps run p c s g k 3
  step-Kept lets_unary_relation run p c s g k = run_lets-Kept t P keeps run p c s g k unary
  step-Kept lets_binary_relation_lhs run p c s g k =
      run_lets_lhs-Kept t P keeps run p c s g k binary_lx
  step-Kept lets_binary_relation_rhs run p c s g k =
      run_lets_rhs-Kept t P keeps run p c s g k binary_rx
  step-Kept lets_injective_function run p c s g k = run_lets-Kept t P keeps run p c s g k injective
  step-Kept lets_injective_function_inverse run p c s g k =
      run_lets-Kept t P keeps run p c s g k inverse
  step-Kept lets_binary_function_lhs run p c s g k =
      run_lets_lhs-Kept t P keeps run p c s g k function_lx
  step-Kept lets_binary_function_rhs run p c s g k =
      run_lets_rhs-Kept t P keeps run p c s g k function_rx
  step-Kept lets_symmetric_function_lhs run p c s g k =
      run_lets_lhs-Kept t P keeps run p c s g k symmetric_lx
  step-Kept for_neg run p c s g k = run_for_neg-Kept t P keeps run p c s g k 1
  step-Kept for_neg_neg run p c s g k = run_for_neg-Kept t P keeps run p c s g k 2
  step-Kept for_pos_neg run p c s g k = run_for_pos-Kept t P keeps run p c s g k 0 1
  step-Kept for_pos_neg_neg run p c s g k = run_for_pos-Kept t P keeps run p c s g k 0 2
  step-Kept for_pos_pos run p c s g k = run_for_pos-Kept t P keeps run p c s g k 1 0
  step-Kept for_pos_pos_neg run p c s g k = run_for_pos-Kept t P keeps run p c s g k 1 1
  step-Kept for_pos_pos_neg_neg run p c s g k = run_for_pos-Kept t P keeps run p c s g k 1 2
  step-Kept for_pos_pos_pos run p c s g k = run_for_pos-Kept t P keeps run p c s g k 2 0
  step-Kept for_pos_pos_pos_pos run p c s g k = run_for_pos-Kept t P keeps run p c s g k 3 0
  step-Kept for_pos_pos_pos_pos_pos run p c s g k = run_for_pos-Kept t P keeps run p c s g k 4 0
  step-Kept for_pos_pos_pos_pos_pos_pos run p c s g k = run_for_pos-Kept t P keeps run p c s g k 5 0
  step-Kept for_all run p c s g k = run_for_all-Kept t P keeps run p c s g k
  step-Kept for_unary_relation run p c s g k = run_for_unary-Kept t P keeps run p c s g k
  step-Kept for_binary_relation_lhs run p c s g k = run_for_binary_lhs-Kept t P keeps run p c s g k
  step-Kept for_binary_relation_rhs run p c s g k = run_for_binary_rhs-Kept t P keeps run p c s g k
  step-Kept for_nullary_function run p c s g k =
      run_for_value-Kept t P keeps run p c s g k nullary_arity
  step-Kept for_injective_function run p c s g k = run_for_injective-Kept t P keeps run p c s g k
  step-Kept for_injective_function_key run p c s g k =
      run_for_value-Kept t P keeps run p c s g k injective_arity
  step-Kept for_injective_function_val run p c s g k = run_for_key-Kept t P keeps run p c s g k
  step-Kept for_binary_function_lhs run p c s g k =
      run_for_lhs-Kept t P keeps run p c s g k function_lx binary_app
  step-Kept for_binary_function_rhs run p c s g k = run_for_rhs-Kept t P keeps run p c s g k
  step-Kept for_binary_function_val run p c s g k = fault unsupported (cc)
  step-Kept for_binary_function_lhs_val run p c s g k = fault unsupported (cc)
  step-Kept for_binary_function_rhs_val run p c s g k = fault unsupported (cc)
  step-Kept for_binary_function_lhs_rhs run p c s g k =
      run_for_value-Kept t P keeps run p c s g k binary_arity
  step-Kept for_symmetric_function_lhs run p c s g k =
      run_for_lhs-Kept t P keeps run p c s g k symmetric_lx symmetric_app
  step-Kept for_symmetric_function_val run p c s g k = fault unsupported (cc)
  step-Kept for_symmetric_function_lhs_val run p c s g k = fault unsupported (cc)
  step-Kept for_symmetric_function_lhs_rhs run p c s g k =
      run_for_value-Kept t P keeps run p c s g k symmetric_arity
  step-Kept for_block run p c s g k = g p c s (omega arith) k
  step-Kept if_block run p c s g k = run_if_block-Kept t P keeps run p c s g k
  step-Kept if_equal run p c s g k = run_if_equal-Kept t P keeps run p c s g k
  step-Kept if_unary_relation run p c s g k = run_if_fact-Kept t P keeps run p c s g k unary_arity
  step-Kept if_binary_relation run p c s g k =
      run_if_fact-Kept t P keeps run p c s g k binary_relation_arity
  step-Kept if_nullary_function run p c s g k =
      run_if_value-Kept t P keeps run p c s g k nullary_arity
  step-Kept if_injective_function run p c s g k =
      run_if_value-Kept t P keeps run p c s g k injective_arity
  step-Kept if_binary_function run p c s g k =
      run_if_value-Kept t P keeps run p c s g k binary_arity
  step-Kept if_symmetric_function run p c s g k =
      run_if_value-Kept t P keeps run p c s g k symmetric_arity
  step-Kept let_nullary_function run p c s g k = run_let-Kept t P keeps run p c s g k nullary_arity
  step-Kept let_injective_function run p c s g k =
      run_let-Kept t P keeps run p c s g k injective_arity
  step-Kept let_binary_function run p c s g k = run_let-Kept t P keeps run p c s g k binary_arity
  step-Kept let_symmetric_function run p c s g k =
      run_let-Kept t P keeps run p c s g k symmetric_arity
  step-Kept infer_equal run p c s g k = run_infer_equal-Kept t P keeps run p c s g k
  step-Kept infer_unary_relation run p c s g k =
      run_infer_fact-Kept t P keeps run p c s g k unary_arity
  step-Kept infer_binary_relation run p c s g k =
      run_infer_fact-Kept t P keeps run p c s g k binary_relation_arity
  step-Kept infer_nullary_function run p c s g k =
      run_infer_value-Kept t P keeps run p c s g k nullary_arity
  step-Kept infer_injective_function run p c s g k =
      run_infer_value-Kept t P keeps run p c s g k injective_arity
  step-Kept infer_binary_function run p c s g k =
      run_infer_value-Kept t P keeps run p c s g k binary_arity
  step-Kept infer_symmetric_function run p c s g k =
      run_infer_value-Kept t P keeps run p c s g k symmetric_arity
  step-Kept infer_nullary_nullary run p c s g k =
      run_infer_pair-Kept t P keeps run p c s g k nullary_arity nullary_arity
  step-Kept infer_nullary_injective run p c s g k =
      run_infer_pair-Kept t P keeps run p c s g k nullary_arity injective_arity
  step-Kept infer_nullary_binary run p c s g k =
      run_infer_pair-Kept t P keeps run p c s g k nullary_arity binary_arity
  step-Kept infer_nullary_symmetric run p c s g k =
      run_infer_pair-Kept t P keeps run p c s g k nullary_arity symmetric_arity
  step-Kept infer_injective_injective run p c s g k =
      run_infer_pair-Kept t P keeps run p c s g k injective_arity injective_arity
  step-Kept infer_injective_binary run p c s g k =
      run_infer_pair-Kept t P keeps run p c s g k injective_arity binary_arity
  step-Kept infer_injective_symmetric run p c s g k =
      run_infer_pair-Kept t P keeps run p c s g k injective_arity symmetric_arity
  step-Kept infer_binary_binary run p c s g k =
      run_infer_pair-Kept t P keeps run p c s g k binary_arity binary_arity
  step-Kept infer_binary_symmetric run p c s g k =
      run_infer_pair-Kept t P keeps run p c s g k binary_arity symmetric_arity
  step-Kept infer_symmetric_symmetric run p c s g k =
      run_infer_pair-Kept t P keeps run p c s g k symmetric_arity symmetric_arity

  dispatch-Kept :
      (op : Option OpCode) (run : Run t) (p : Program) (c : Context) (s : S)
      → RunsOn t P keeps run p
      → P s
      → Returns (Kept t P keeps) (dispatch t op run p c s)
  unfolding dispatch
  dispatch-Kept none run p c s g k = good _ k
  dispatch-Kept (some op) run p c s g k = step-Kept op run p c s g k

  execute_from-Kept :
      (fuel : ℕ) (p : Program) (c : Context) (s : S)
      → length p < fuel
      → P s
      → Returns (Kept t P keeps) (execute_from t fuel p c s)
  unfolding execute_from
  execute_from-Kept zero p c s lt k = absurd (omega arith)
  execute_from-Kept (suc fuel) [] c s lt k = fault overrun (cc)
  execute_from-Kept (suc fuel) (op_code ∷ p) c s lt k =
      dispatch-Kept (get_elem? op_codes op_code) (execute_from t fuel) p c s
        (λ p' c' s' le k'. execute_from-Kept fuel p' c' s' (omega arith) k') k

-- Let there be a property of the tables such that, where it holds, the insertions and `ensure_equal` do
-- not run out of fuel and keep it, and the words of the sets have 64 bits. Every program, run in any
-- context on tables with the property, ends by itself with a result or a fault: the fuel of one more
-- than its bytes is enough, and so is that of its loops and iterators. If it ends with a result, the
-- tables have the property again.
pub execute_lem :
    {S : Type 0} (t : Structure S) (P : S → Type 0)
    → Keeps t P
    → (p : Program) (c : Context) (s : S) → P s
    → (execute t p c s ≢ err no_fuel)
      × ((c' : Context) (s' : S) → execute t p c s ≡ ok (c', s') → P s')
unfolding execute
execute_lem t P keeps p c s k =
    let r = execute_from-Kept t P keeps (length p + 1) p c s (omega arith) k in
    (Returns-ne r, λ c' s' e. Returns-ok (c', s') r e)

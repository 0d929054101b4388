-- ===== src/Vm/Functions.antt =====
-- The instructions of `VirtualMachine::_execute` in pomagma/atlas/vm_impl.hpp that look functions up,
-- test facts and infer them.
use pomagma.Prelude.{not, ℕ, ◌/◌, [], Bool, ◌==◌, if◌then◌else◌}
use pomagma.Vm.{
  block_size, SetRef, injective, function_rx, App, injective_app, binary_app, Structure, Program,
  Context, ob_at, set_ob, Outcome, ok, missing, ◌>>=◌, or_fault, pop_arg, pop_ob,
}
use pomagma.Vm.Loop.{loop}
use pomagma.Vm.Steps.{FunctionArity, RelationArity, pop_app, pop_fact, Run}

module _ {S : Type 0} (t : Structure S) where
  open t use {words, holds, find, inverse_find, insert_fact, insert, ensure_equal}

  -- The body of a loop over the arguments where a function is defined: the argument, then the value,
  -- whose other argument is read from its register.
  unfoldable pub bind_value :
      (Context → App) → ℕ → ℕ → Program → Run t → ℕ → Context → S → Outcome (Context × S)
  bind_value app reg val p run i c s = do
    let c1 = set_ob c reg i
    found ← or_fault missing (find s (app c1))
    run p (set_ob c1 val found) s

  -- FOR_INJECTIVE_FUNCTION
  unfoldable pub run_for_injective : Run t → Run t
  unfolding bind_value
  run_for_injective run p c s = do
    (fun, p1) ← pop_arg p
    (key, p2) ← pop_arg p1
    (val, p3) ← pop_arg p2
    loop t (record { first = injective fun; pos = []; neg = [] })
        (bind_value (λ c1. injective_app fun (ob_at c1 key)) key val p3 run) c s

  -- FOR_BINARY_FUNCTION_LHS and FOR_SYMMETRIC_FUNCTION_LHS
  unfoldable pub run_for_lhs : (ℕ → ℕ → SetRef) → (ℕ → ℕ → ℕ → App) → Run t → Run t
  unfolding bind_value
  run_for_lhs line app run p c s = do
    (fun, p1) ← pop_arg p
    (lhs, p2) ← pop_arg p1
    (rhs, p3) ← pop_arg p2
    (val, p4) ← pop_arg p3
    loop t (record { first = line fun (ob_at c lhs); pos = []; neg = [] })
        (bind_value (λ c1. app fun (ob_at c1 lhs) (ob_at c1 rhs)) rhs val p4 run) c s

  -- FOR_BINARY_FUNCTION_RHS
  unfoldable pub run_for_rhs : Run t → Run t
  unfolding bind_value
  run_for_rhs run p c s = do
    (fun, p1) ← pop_arg p
    (lhs, p2) ← pop_arg p1
    (rhs, p3) ← pop_arg p2
    (val, p4) ← pop_arg p3
    loop t (record { first = function_rx fun (ob_at c rhs); pos = []; neg = [] })
        (bind_value (λ c1. binary_app fun (ob_at c1 lhs) (ob_at c1 rhs)) lhs val p4 run) c s

  -- `if (Ob found = ...) { reg = found; _execute(program, context); }`
  unfoldable pub run_found : ℕ → ℕ → Program → Run t → Context → S → Outcome (Context × S)
  run_found found reg p run c s = if found == 0 then ok (c, s) else run p (set_ob c reg found) s

  -- FOR_NULLARY_FUNCTION, FOR_INJECTIVE_FUNCTION_KEY, FOR_BINARY_FUNCTION_LHS_RHS,
  -- FOR_SYMMETRIC_FUNCTION_LHS_RHS
  unfoldable pub run_for_value : FunctionArity → Run t → Run t
  unfolding run_found
  run_for_value arity run p c s = do
    (app, p1) ← pop_app arity p c
    (val, p2) ← pop_arg p1
    found ← or_fault missing (find s app)
    run_found found val p2 run c s

  -- FOR_INJECTIVE_FUNCTION_VAL
  unfoldable pub run_for_key : Run t → Run t
  unfolding run_found
  run_for_key run p c s = do
    (fun, p1) ← pop_arg p
    (key, p2) ← pop_arg p1
    (val, p3) ← pop_ob p2 c
    found ← or_fault missing (inverse_find s fun val)
    run_found found key p3 run c s

  -- `if (...) { _execute(program, context); }`
  unfoldable pub run_if : Bool → Program → Run t → Context → S → Outcome (Context × S)
  run_if test p run c s = if test then run p c s else ok (c, s)

  unfoldable pub run_if_block : Run t → Run t
  unfolding run_if
  run_if_block run p c s = do (ob, p1) ← pop_ob p c; run_if (ob / block_size == c.block) p1 run c s

  unfoldable pub run_if_equal : Run t → Run t
  unfolding run_if
  run_if_equal run p c s = do
    (lhs, p1) ← pop_ob p c
    (rhs, p2) ← pop_ob p1 c
    run_if (lhs == rhs) p2 run c s

  -- IF_UNARY_RELATION, IF_BINARY_RELATION
  unfoldable pub run_if_fact : RelationArity → Run t → Run t
  unfolding run_if
  run_if_fact arity run p c s = do
    (fact, p1) ← pop_fact arity p c
    test ← or_fault missing (holds s fact)
    run_if test p1 run c s

  -- IF_NULLARY_FUNCTION, IF_INJECTIVE_FUNCTION, IF_BINARY_FUNCTION, IF_SYMMETRIC_FUNCTION
  unfoldable pub run_if_value : FunctionArity → Run t → Run t
  unfolding run_if
  run_if_value arity run p c s = do
    (app, p1) ← pop_app arity p c
    (val, p2) ← pop_ob p1 c
    found ← or_fault missing (find s app)
    run_if (found == val) p2 run c s

  -- LET_NULLARY_FUNCTION, LET_INJECTIVE_FUNCTION, LET_BINARY_FUNCTION, LET_SYMMETRIC_FUNCTION
  unfoldable pub run_let : FunctionArity → Run t → Run t
  run_let arity run p c s = do
    (app, p1) ← pop_app arity p c
    (val, p2) ← pop_arg p1
    found ← or_fault missing (find s app)
    run p2 (set_ob c val found) s

  unfoldable pub run_infer_equal : Program → Context → S → Outcome (Context × S)
  run_infer_equal p c s = do
    (lhs, p1) ← pop_ob p c
    (rhs, p2) ← pop_ob p1 c
    s' ← ensure_equal s lhs rhs
    ok (c, s')

  -- INFER_UNARY_RELATION, INFER_BINARY_RELATION
  unfoldable pub run_infer_fact : RelationArity → Program → Context → S → Outcome (Context × S)
  run_infer_fact arity p c s = do
    (fact, p1) ← pop_fact arity p c
    s' ← insert_fact s fact
    ok (c, s')

  -- INFER_NULLARY_FUNCTION, INFER_INJECTIVE_FUNCTION, INFER_BINARY_FUNCTION, INFER_SYMMETRIC_FUNCTION
  unfoldable pub run_infer_value : FunctionArity → Program → Context → S → Outcome (Context × S)
  run_infer_value arity p c s = do
    (app, p1) ← pop_app arity p c
    (val, p2) ← pop_ob p1 c
    s' ← insert s app val
    ok (c, s')

  -- `if (Ob val = fun1.find(...)) fun2.insert(..., val); else if (Ob val = fun2.find(...)) ...`
  unfoldable pub equate : App → App → S → Outcome S
  equate app1 app2 s = do
    val1 ← or_fault missing (find s app1)
    if not (val1 == 0) then insert s app2 val1 else (do
      val2 ← or_fault missing (find s app2)
      if not (val2 == 0) then insert s app1 val2 else ok s)

  -- INFER_NULLARY_NULLARY, ..., INFER_SYMMETRIC_SYMMETRIC
  unfoldable pub run_infer_pair :
      FunctionArity → FunctionArity → Program → Context → S → Outcome (Context × S)
  unfolding equate
  run_infer_pair arity1 arity2 p c s = do
    (app1, p1) ← pop_app arity1 p c
    (app2, p2) ← pop_app arity2 p1 c
    s' ← equate app1 app2 s
    ok (c, s')

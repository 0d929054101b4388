-- ===== src/Vm/Pops.antt =====
-- Reading the arguments of an instruction, in pomagma/atlas/vm.hpp, leaves a program that is no longer.
use pomagma.Prelude.{ℕ, zero, suc, ◌≤◌, [], ◌∷◌, length, arith}
use pomagma.Vm.{Program, Context, overrun, pop_arg, pop_ob, pop_set}
use pomagma.Vm.Returns.{Returns, good, fault, bind, weaken}
use pomagma.Vm.Steps.{
  FunctionArity, nullary_arity, injective_arity, binary_arity, symmetric_arity, RelationArity,
  unary_arity, binary_relation_arity, pop_app, pop_fact, pop_sets, skip_args,
}

-- What is left after a result was read from `p`
abbrev pub Rest {ℓ} : {A : Type ℓ} → Program → A × Program → Type 0
Rest p r = length r.1 ≤ length p

pub pop_arg-Rest : (p : Program) → Returns (Rest p) (pop_arg p)
unfolding pop_arg
pop_arg-Rest [] = fault overrun (cc)
pop_arg-Rest (arg ∷ p) = good _ (omega arith)

pub pop_ob-Rest : (p : Program) (c : Context) → Returns (Rest p) (pop_ob p c)
unfolding pop_ob
pop_ob-Rest p c = bind _ (pop_arg-Rest p) λ r le. good _ le

pub pop_set-Rest : (p : Program) (c : Context) → Returns (Rest p) (pop_set p c)
unfolding pop_set
pop_set-Rest p c = bind _ (pop_arg-Rest p) λ r le. good _ le

pub pop_app-Rest :
    (arity : FunctionArity) (p : Program) (c : Context) → Returns (Rest p) (pop_app arity p c)
unfolding pop_app
pop_app-Rest nullary_arity p c = bind _ (pop_arg-Rest p) λ r le. good _ le
pop_app-Rest injective_arity p c =
    bind _ (pop_arg-Rest p) λ r le. bind _ (pop_ob-Rest r.1 c) λ r1 le1. good _ (omega arith)
pop_app-Rest binary_arity p c = bind _ (pop_arg-Rest p) λ r le.
    bind _ (pop_ob-Rest r.1 c) λ r1 le1. bind _ (pop_ob-Rest r1.1 c) λ r2 le2. good _ (omega arith)
pop_app-Rest symmetric_arity p c = bind _ (pop_arg-Rest p) λ r le.
    bind _ (pop_ob-Rest r.1 c) λ r1 le1. bind _ (pop_ob-Rest r1.1 c) λ r2 le2. good _ (omega arith)

pub pop_fact-Rest :
    (arity : RelationArity) (p : Program) (c : Context) → Returns (Rest p) (pop_fact arity p c)
unfolding pop_fact
pop_fact-Rest unary_arity p c =
    bind _ (pop_arg-Rest p) λ r le. bind _ (pop_ob-Rest r.1 c) λ r1 le1. good _ (omega arith)
pop_fact-Rest binary_relation_arity p c = bind _ (pop_arg-Rest p) λ r le.
    bind _ (pop_ob-Rest r.1 c) λ r1 le1. bind _ (pop_ob-Rest r1.1 c) λ r2 le2. good _ (omega arith)

pub pop_sets-Rest : (n : ℕ) (p : Program) (c : Context) → Returns (Rest p) (pop_sets n p c)
unfolding pop_sets
pop_sets-Rest zero p c = good _ (omega arith)
pop_sets-Rest (suc n) p c =
    bind _ (pop_set-Rest p c) λ r le. bind _ (pop_sets-Rest n r.1 c) λ r1 le1. good _ (omega arith)

pub skip_args-le : (n : ℕ) (p : Program) → Returns (λ p1. length p1 ≤ length p) (skip_args n p)
unfolding skip_args
skip_args-le zero p = good _ (omega arith)
skip_args-le (suc n) p =
    bind _ (pop_arg-Rest p) λ r le. weaken (λ p1 le1. omega arith) (skip_args-le n r.1)

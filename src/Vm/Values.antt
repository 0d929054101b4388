-- ===== src/Vm/Values.antt =====
-- The instructions of pomagma/atlas/vm_impl.hpp that look functions up, test facts and infer them
-- keep what the tables' insertions keep.
use pomagma.Prelude.{
  not, if◌then◌else◌, ℕ, ◌≤◌, Bool, true, false, length, arith, Bool-cases, inl, inr, ◌==◌,
}
use pomagma.Vm.{
  ◌>>=◌, injective_app, binary_app, Program, Context, SetRef, App, Structure, Outcome, ok, missing,
  set_ob, ob_at, or_fault,
}
use pomagma.Vm.Returns.{Returns, good, bind, or_missing}
use pomagma.Vm.Rounds.{loop-Returns}
use pomagma.Vm.Loop.{Cut, loop}
use pomagma.Vm.Pops.{pop_arg-Rest, pop_ob-Rest, pop_app-Rest, pop_fact-Rest}
use pomagma.Vm.Steps.{FunctionArity, RelationArity, Run}
use pomagma.Vm.Functions.{
  bind_value, run_for_injective, run_for_lhs, run_for_rhs, run_found, run_for_value, run_for_key,
  run_if, run_if_block, run_if_equal, run_if_fact, run_if_value, run_let, run_infer_equal,
  run_infer_fact, run_infer_value, equate, run_infer_pair,
}
use pomagma.Vm.Sound.{Keeps, Kept, RunsOn}

module _ {S : Type 0} (t : Structure S) (P : S → Type 0) (keeps : Keeps t P) (run : Run t)
    (p : Program) (c : Context) (s : S) (g : RunsOn t P keeps run p) (k : P s) where
  abbrev Good : Outcome (Context × S) → Type 0
  Good = Returns (Kept t P keeps)

  loop_values-Kept :
      (cut : Cut) (app : Context → App) (reg val : ℕ) (p' : Program)
      → length p' ≤ length p
      → Good (loop t cut (bind_value t app reg val p' run) c s)
  loop_values-Kept cut app reg val p' le =
      loop-Returns t (Kept t P keeps) cut (bind_value t app reg val p' run)
        (λ i c1 s1 k1. each i c1 s1 k1) (λ c1 s1 ws k1 e. keeps.small s1 cut.first ws k1 e) c s k
    where
      each : (i : ℕ) (c1 : Context) (s1 : S) → P s1 → Good (bind_value t app reg val p' run i c1 s1)
      each i c1 s1 k1 =
          unfold bind_value in
          bind _ (or_missing (t.find s1 (app (set_ob c1 reg i))))
            λ found e. g p' (set_ob (set_ob c1 reg i) val found) s1 le k1

  pub run_for_injective-Kept : Good (run_for_injective t run p c s)
  unfolding run_for_injective
  run_for_injective-Kept = bind _ (pop_arg-Rest p) λ r le. bind _ (pop_arg-Rest r.1) λ r1 le1.
      bind _ (pop_arg-Rest r1.1) λ r2 le2.
        loop_values-Kept _ (λ c1. injective_app r.0 (ob_at c1 r1.0)) r1.0 r2.0 r2.1 (omega arith)

  pub run_for_lhs-Kept :
      (line : ℕ → ℕ → SetRef) (app : ℕ → ℕ → ℕ → App) → Good (run_for_lhs t line app run p c s)
  unfolding run_for_lhs
  run_for_lhs-Kept line app = bind _ (pop_arg-Rest p) λ r le. bind _ (pop_arg-Rest r.1) λ r1 le1.
      bind _ (pop_arg-Rest r1.1) λ r2 le2. bind _ (pop_arg-Rest r2.1) λ r3 le3.
        loop_values-Kept _ (λ c1. app r.0 (ob_at c1 r1.0) (ob_at c1 r2.0)) r2.0 r3.0 r3.1
          (omega arith)

  pub run_for_rhs-Kept : Good (run_for_rhs t run p c s)
  unfolding run_for_rhs
  run_for_rhs-Kept = bind _ (pop_arg-Rest p) λ r le. bind _ (pop_arg-Rest r.1) λ r1 le1.
      bind _ (pop_arg-Rest r1.1) λ r2 le2. bind _ (pop_arg-Rest r2.1) λ r3 le3.
        loop_values-Kept _ (λ c1. binary_app r.0 (ob_at c1 r1.0) (ob_at c1 r2.0)) r1.0 r3.0 r3.1
          (omega arith)

  run_found-Kept :
      (found reg : ℕ) (p' : Program)
      → length p' ≤ length p
      → Good (run_found t found reg p' run c s)
  unfolding run_found
  run_found-Kept found reg p' le = elim (Bool-cases (found == 0)) [
    | inl undefined ↦ rw (undefined, run_found) (good _ k)
    | inr value ↦ rw (value, run_found) (g p' (set_ob c reg found) s le k)
  ]

  pub run_for_value-Kept : (arity : FunctionArity) → Good (run_for_value t arity run p c s)
  unfolding run_for_value
  run_for_value-Kept arity = bind _ (pop_app-Rest arity p c) λ r le.
      bind _ (pop_arg-Rest r.1) λ r1 le1.
        bind _ (or_missing (t.find s r.0)) λ found e. run_found-Kept found r1.0 r1.1 (omega arith)

  pub run_for_key-Kept : Good (run_for_key t run p c s)
  unfolding run_for_key
  run_for_key-Kept = bind _ (pop_arg-Rest p) λ r le. bind _ (pop_arg-Rest r.1) λ r1 le1.
      bind _ (pop_ob-Rest r1.1 c) λ r2 le2.
        bind _ (or_missing (t.inverse_find s r.0 r2.0))
          λ found e. run_found-Kept found r1.0 r2.1 (omega arith)

  run_if-Kept :
      (test : Bool) (p' : Program) → length p' ≤ length p → Good (run_if t test p' run c s)
  unfolding run_if
  run_if-Kept true p' le = g p' c s le k
  run_if-Kept false p' le = good _ k

  pub run_if_block-Kept : Good (run_if_block t run p c s)
  unfolding run_if_block
  run_if_block-Kept = bind _ (pop_ob-Rest p c) λ r le. run_if-Kept _ r.1 le

  pub run_if_equal-Kept : Good (run_if_equal t run p c s)
  unfolding run_if_equal
  run_if_equal-Kept =
      bind _ (pop_ob-Rest p c)
        λ r le. bind _ (pop_ob-Rest r.1 c) λ r1 le1. run_if-Kept _ r1.1 (omega arith)

  pub run_if_fact-Kept : (arity : RelationArity) → Good (run_if_fact t arity run p c s)
  unfolding run_if_fact
  run_if_fact-Kept arity =
      bind _ (pop_fact-Rest arity p c)
        λ r le. bind _ (or_missing (t.holds s r.0)) λ test e. run_if-Kept test r.1 le

  pub run_if_value-Kept : (arity : FunctionArity) → Good (run_if_value t arity run p c s)
  unfolding run_if_value
  run_if_value-Kept arity = bind _ (pop_app-Rest arity p c) λ r le.
      bind _ (pop_ob-Rest r.1 c)
        λ r1 le1. bind _ (or_missing (t.find s r.0)) λ found e. run_if-Kept _ r1.1 (omega arith)

  pub run_let-Kept : (arity : FunctionArity) → Good (run_let t arity run p c s)
  unfolding run_let
  run_let-Kept arity = bind _ (pop_app-Rest arity p c) λ r le. bind _ (pop_arg-Rest r.1) λ r1 le1.
      bind _ (or_missing (t.find s r.0)) λ found e. g r1.1 (set_ob c r1.0 found) s (omega arith) k

  pub run_infer_equal-Kept : Good (run_infer_equal t p c s)
  unfolding run_infer_equal
  run_infer_equal-Kept = bind _ (pop_ob-Rest p c) λ r le.
      bind _ (pop_ob-Rest r.1 c)
        λ r1 le1. bind P (keeps.ensure_equal s r.0 r1.0 k) λ s' k'. good _ k'

  pub run_infer_fact-Kept : (arity : RelationArity) → Good (run_infer_fact t arity p c s)
  unfolding run_infer_fact
  run_infer_fact-Kept arity =
      bind _ (pop_fact-Rest arity p c) λ r le. bind P (keeps.insert_fact s r.0 k) λ s' k'. good _ k'

  pub run_infer_value-Kept : (arity : FunctionArity) → Good (run_infer_value t arity p c s)
  unfolding run_infer_value
  run_infer_value-Kept arity = bind _ (pop_app-Rest arity p c) λ r le.
      bind _ (pop_ob-Rest r.1 c) λ r1 le1. bind P (keeps.insert s r.0 r1.0 k) λ s' k'. good _ k'

  equate-Kept : (app1 app2 : App) → Returns P (equate t app1 app2 s)
  unfolding equate
  equate-Kept app1 app2 = bind _ (or_missing (t.find s app1)) λ val1 e1. first val1
    where
      second : (val2 : ℕ) → Returns P (if not (val2 == 0) then t.insert s app1 val2 else ok s)
      second val2 = elim (Bool-cases (val2 == 0)) [
        | inl undefined ↦ rw undefined (good s k)
        | inr value ↦ rw value (keeps.insert s app1 val2 k)
      ]

      first :
          (val1 : ℕ)
          → Returns P (
              if not (val1 == 0)
              then t.insert s app2 val1
              else (or_fault missing (t.find s app2) >>= λ val2.
                  if not (val2 == 0) then t.insert s app1 val2 else ok s))
      first val1 = elim (Bool-cases (val1 == 0)) [
        | inl undefined ↦ rw undefined (bind _ (or_missing (t.find s app2)) λ val2 e2. second val2)
        | inr value ↦ rw value (keeps.insert s app2 val1 k)
      ]

  pub run_infer_pair-Kept :
      (arity1 arity2 : FunctionArity) → Good (run_infer_pair t arity1 arity2 p c s)
  unfolding run_infer_pair
  run_infer_pair-Kept arity1 arity2 = bind _ (pop_app-Rest arity1 p c) λ r le.
      bind _ (pop_app-Rest arity2 r.1 c) λ r1 le1. bind _ (equate-Kept r.0 r1.0) λ s' k'. good _ k'

-- ===== src/Vm/Sound.antt =====
-- The instructions of pomagma/atlas/vm_impl.hpp keep what the tables' insertions keep, and call the
-- rest of the program only on programs that are no longer.
use pomagma.Prelude.{length-drop, ℕ, ◌≤◌, ◌≡◌, List, length, drop, arith, some}
use pomagma.Program.{eval_float53}
use pomagma.Vm.{Program, Context, SetRef, App, Fact, Structure, set_ob, set_set}
use pomagma.Vm.Returns.{Returns, bind, or_missing}
use pomagma.DenseSet.Flip.{Small}
use pomagma.Vm.Rounds.{loop-Returns}
use pomagma.Vm.Loop.{Cut, loop}
use pomagma.Vm.Pops.{pop_arg-Rest, pop_ob-Rest, pop_set-Rest, pop_sets-Rest, skip_args-le}
use pomagma.Vm.Steps.{
  Run, run_sequence, run_given, point_to, run_lets, run_lets_lhs, run_lets_rhs, bind_ob,
  run_for_pos, run_for_neg, run_for_all, run_for_unary, run_for_binary_lhs, run_for_binary_rhs,
}

-- A property of the tables that the insertions keep when they end without a fault; they have fuel
-- enough where it holds, and the words of the sets have 64 bits.
pub record Keeps {S : Type 0} (t : Structure S) (P : S → Type 0) : Type 0 where
  pub ensure_equal : (s : S) (lhs rhs : ℕ) → P s → Returns P (t.ensure_equal s lhs rhs)
  pub insert_fact : (s : S) (fact : Fact) → P s → Returns P (t.insert_fact s fact)
  pub insert : (s : S) (app : App) (val : ℕ) → P s → Returns P (t.insert s app val)
  pub small : (s : S) (ref : SetRef) (ws : List ℕ) → P s → t.words s ref ≡ some ws → Small ws

length-drop_le {ℓ} : {A : Type ℓ} (n : ℕ) (xs : List A) → length (drop n xs) ≤ length xs
length-drop_le n xs = omega (arith, length-drop n xs)

module _ {S : Type 0} (t : Structure S) (P : S → Type 0) (keeps : Keeps t P) where
  abbrev pub Kept : Context × S → Type 0
  Kept r = P r.1

  -- `run` does so on the programs that are no longer than `p`.
  abbrev pub RunsOn : Run t → Program → Type 0
  RunsOn run p =
      (p' : Program) (c : Context) (s : S) → length p' ≤ length p → P s → Returns Kept (run p' c s)

  module _ (run : Run t) (p : Program) (c : Context) (s : S) (g : RunsOn run p) (k : P s) where
    pub run_sequence-Kept : Returns Kept (run_sequence t run p c s)
    unfolding run_sequence
    run_sequence-Kept = bind _ (pop_arg-Rest p) λ r le. bind Kept (g r.1 c s le k) λ m k'.
        g (drop (eval_float53 r.0) r.1) m.0 m.1 (omega (arith, length-drop (eval_float53 r.0) r.1))
          k'

    pub run_given-Kept : (n : ℕ) → Returns Kept (run_given t n run p c s)
    unfolding run_given
    run_given-Kept n = bind _ (skip_args-le n p) λ p1 le. g p1 c s le k

    point_to-Kept :
        (ref : SetRef) (reg : ℕ) (p' : Program)
        → length p' ≤ length p
        → Returns Kept (point_to t ref reg p' run c s)
    unfolding point_to
    point_to-Kept ref reg p' le =
        bind _ (or_missing (t.words s ref)) λ ws e. g p' (set_set c reg ref) s le k

    pub run_lets-Kept : (ref : ℕ → SetRef) → Returns Kept (run_lets t ref run p c s)
    unfolding run_lets
    run_lets-Kept ref =
        bind _ (pop_arg-Rest p) λ r le.
          bind _ (pop_arg-Rest r.1) λ r1 le1. point_to-Kept (ref r.0) r1.0 r1.1 (omega arith)

    pub run_lets_lhs-Kept : (ref : ℕ → ℕ → SetRef) → Returns Kept (run_lets_lhs t ref run p c s)
    unfolding run_lets_lhs
    run_lets_lhs-Kept ref = bind _ (pop_arg-Rest p) λ r le. bind _ (pop_ob-Rest r.1 c) λ r1 le1.
        bind _ (pop_arg-Rest r1.1) λ r2 le2. point_to-Kept (ref r.0 r1.0) r2.0 r2.1 (omega arith)

    pub run_lets_rhs-Kept : (ref : ℕ → ℕ → SetRef) → Returns Kept (run_lets_rhs t ref run p c s)
    unfolding run_lets_rhs
    run_lets_rhs-Kept ref = bind _ (pop_arg-Rest p) λ r le. bind _ (pop_arg-Rest r.1) λ r1 le1.
        bind _ (pop_ob-Rest r1.1 c) λ r2 le2. point_to-Kept (ref r.0 r2.0) r1.0 r2.1 (omega arith)

    -- A loop whose body only sets a register
    loop_obs-Kept :
        (cut : Cut) (reg : ℕ) (p' : Program)
        → length p' ≤ length p
        → Returns Kept (loop t cut (bind_ob t reg p' run) c s)
    unfolding bind_ob
    loop_obs-Kept cut reg p' le =
        loop-Returns t Kept cut (bind_ob t reg p' run)
          (λ i c1 s1 k1. g p' (set_ob c1 reg i) s1 le k1)
          (λ c1 s1 ws k1 e. keeps.small s1 cut.first ws k1 e) c s k

    pub run_for_pos-Kept : (pos neg : ℕ) → Returns Kept (run_for_pos t pos neg run p c s)
    unfolding run_for_pos
    run_for_pos-Kept pos neg = bind _ (pop_arg-Rest p) λ r le. bind _ (pop_set-Rest r.1 c) λ r1 le1.
        bind _ (pop_sets-Rest pos r1.1 c) λ r2 le2.
          bind _ (pop_sets-Rest neg r2.1 c) λ r3 le3. loop_obs-Kept _ r.0 r3.1 (omega arith)

    pub run_for_neg-Kept : (neg : ℕ) → Returns Kept (run_for_neg t neg run p c s)
    unfolding run_for_neg
    run_for_neg-Kept neg =
        bind _ (pop_arg-Rest p)
          λ r le. bind _ (pop_sets-Rest neg r.1 c) λ r1 le1. loop_obs-Kept _ r.0 r1.1 (omega arith)

    pub run_for_all-Kept : Returns Kept (run_for_all t run p c s)
    unfolding run_for_all
    run_for_all-Kept = bind _ (pop_arg-Rest p) λ r le. loop_obs-Kept _ r.0 r.1 le

    pub run_for_unary-Kept : Returns Kept (run_for_unary t run p c s)
    unfolding run_for_unary
    run_for_unary-Kept =
        bind _ (pop_arg-Rest p)
          λ r le. bind _ (pop_arg-Rest r.1) λ r1 le1. loop_obs-Kept _ r1.0 r1.1 (omega arith)

    pub run_for_binary_lhs-Kept : Returns Kept (run_for_binary_lhs t run p c s)
    unfolding run_for_binary_lhs
    run_for_binary_lhs-Kept = bind _ (pop_arg-Rest p) λ r le.
        bind _ (pop_ob-Rest r.1 c)
          λ r1 le1. bind _ (pop_arg-Rest r1.1) λ r2 le2. loop_obs-Kept _ r2.0 r2.1 (omega arith)

    pub run_for_binary_rhs-Kept : Returns Kept (run_for_binary_rhs t run p c s)
    unfolding run_for_binary_rhs
    run_for_binary_rhs-Kept = bind _ (pop_arg-Rest p) λ r le.
        bind _ (pop_arg-Rest r.1)
          λ r1 le1. bind _ (pop_ob-Rest r1.1 c) λ r2 le2. loop_obs-Kept _ r1.0 r2.1 (omega arith)

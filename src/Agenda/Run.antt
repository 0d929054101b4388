-- ===== src/Agenda/Run.antt =====
-- The methods `execute` of the class Agenda in pomagma/atlas/vm.hpp.
use pomagma.Prelude.{ℕ, List, [], ◌∷◌, ◌==◌, if◌then◌else◌, none, drop}
use pomagma.Vm.{Structure, Context, Outcome, ok, missing, ◌>>=◌, or_fault}
use pomagma.Vm.Execute.{execute, execute_args, execute_block}
use pomagma.Agenda.{Agenda, TableId, programs_of, Task, small_task, large_task, cleanup_task}

module _ {S : Type 0} (t : Structure S) (program_data : List ℕ) where
  -- The programs one after another, with the arguments of the event
  unfoldable pub execute_each : List ℕ → List ℕ → Context → S → Outcome (Context × S)
  execute_each [] args c s = ok (c, s)
  execute_each (program ∷ programs) args c s = do
    (c', s') ← execute_args t (drop program program_data) args c s
    execute_each programs args c' s'

  -- `execute(Ob)`
  unfoldable pub execute_exists : Agenda → ℕ → Context → S → Outcome (Context × S)
  unfolding execute_each
  execute_exists a ob c s = execute_each a.exists (ob ∷ []) c s

  -- `execute` for a new fact of a relation, or a new value of a function: the obs are those of the
  -- fact, or the arguments of the function.
  unfoldable pub execute_table : Agenda → TableId → List ℕ → Context → S → Outcome (Context × S)
  unfolding execute_each
  execute_table a table args c s = execute_each (programs_of a table) args c s

  unfoldable pub execute_task : Task → Context → S → Outcome (Context × S)
  execute_task (small_task program) c s = execute t (drop program program_data) c s
  execute_task (large_task program block) c s =
      execute_block t (drop program program_data) block c s

  unfoldable pub execute_cleanup : Agenda → ℕ → Context → S → Outcome (Context × S)
  unfolding execute_task
  execute_cleanup a index c s = do
    task ← or_fault missing (if a.block_count == 0 then none else cleanup_task a index)
    execute_task task c s

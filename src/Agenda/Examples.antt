-- ===== src/Agenda/Examples.antt =====
-- Inputs of the class Agenda of pomagma/atlas/vm.hpp and vm_impl.hpp: tests and instances of the
-- theorems.
use pomagma.Prelude.{ℕ, ◌≡◌, ◌<◌, refl, List, [], ◌∷◌, some, none, get_elem?, length, arith}
use pomagma.Tables.{Tables}
use pomagma.Agenda.{
  Agenda, Task, small_task, large_task, cleanup_task, cleanup_task_count, load, Listing,
}
use pomagma.Agenda.Cleanup.{all_tasks, cleanup_task_lem, cleanup-covers}

-- One small and two large programs on obs up to 130
abbrev agenda : Agenda
agenda = record {
  exists = [];
  structures = [];
  cleanup_small = 5 ∷ [];
  cleanup_large = 9 ∷ 12 ∷ [];
  block_count = 3;
  sizes = [];
  linenos = [];
}

tasks :
    (cleanup_task agenda 0 ≡ some (small_task 5))
    × (cleanup_task agenda 4 ≡ some (large_task 12 0))
    × (cleanup_task agenda 6 ≡ some (large_task 12 2))
    × (cleanup_task agenda 7 ≡ none)
    × (cleanup_task_count agenda ≡ 7)
unfolding cleanup_task cleanup_task_count
tasks = (refl, refl, refl, refl, refl)

cleanup_task_lem_example :
    ((index : ℕ) → cleanup_task agenda index ≡ get_elem? (all_tasks agenda) index)
    × (length (all_tasks agenda) ≡ cleanup_task_count agenda)
cleanup_task_lem_example = cleanup_task_lem agenda (omega arith)

loaded : agenda.block_count ≡ (load 130).block_count
unfolding load
loaded = refl

cleanup-covers_example :
    (index : ℕ) × (index < cleanup_task_count agenda)
    × (cleanup_task agenda index ≡ some (large_task 12 2))
cleanup-covers_example = cleanup-covers agenda 130 1 12 128 loaded refl (omega arith)

-- GIVEN_UNARY_RELATION 0 x; INFER_UNARY_RELATION 1 x
abbrev bytes : List ℕ
bytes = 3 ∷ 0 ∷ 0 ∷ 60 ∷ 1 ∷ 0 ∷ []

abbrev listing : Listing
listing = record { program_offset = 0; size = 6; lineno = 1 }

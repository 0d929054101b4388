-- ===== src/Agenda.antt =====
-- The class Agenda of pomagma/atlas/vm.hpp and vm_impl.hpp: which programs run on which event, and how
-- the cleanup programs are cut into tasks. A program is the offset of its first byte in the bytes
-- that the parser holds.
pub mod Run
pub mod Events
pub mod Cleanup
pub mod Examples
use mathlib.Core.Option
use pomagma.Prelude.{
  ℕ, ◌+◌, ◌-◌, ◌*◌, ◌/◌, ◌%◌, ◌^◌, List, [], ◌∷◌, ◌++◌, Bool, true, false, not, ltb, leb, ◌==◌,
  if◌then◌else◌, Option, none, some, length, get_elem?, drop,
}
use pomagma.Prelude.Table.{Key, pair_key, nat_key, put}
use pomagma.Prelude.Table.{find as find_in}
use pomagma.Program.{
  OpCode, op_codes, op_code_arity, given_exists, given_unary_relation, given_binary_relation,
  given_nullary_function, given_injective_function, given_binary_function, given_symmetric_function,
  for_block,
}
use pomagma.Carrier.{◌>>=◌}
use pomagma.Vm.{block_size}

-- A pointer to a table of the machine: the array in which it stands, and its number there
abbrev pub TableId : Type 0
TableId = ℕ × ℕ

abbrev pub unary_table : ℕ → TableId
unary_table i = (0, i)

abbrev pub binary_table : ℕ → TableId
binary_table i = (1, i)

abbrev pub nullary_table : ℕ → TableId
nullary_table i = (2, i)

abbrev pub injective_table : ℕ → TableId
injective_table i = (3, i)

abbrev pub function_table : ℕ → TableId
function_table i = (4, i)

abbrev pub symmetric_table : ℕ → TableId
symmetric_table i = (5, i)

pub record Listing : Type 0 where
  pub program_offset : ℕ
  pub size : ℕ
  pub lineno : ℕ

pub record Agenda : Type 0 where
  pub exists : List ℕ
  pub structures : List (TableId × List ℕ)
  pub cleanup_small : List ℕ
  pub cleanup_large : List ℕ
  pub block_count : ℕ
  pub sizes : List (ℕ × ℕ)
  pub linenos : List (ℕ × ℕ)

-- The agenda that `load` leaves, for a new agenda
unfoldable pub load : ℕ → Agenda
load item_dim = record {
  exists = [];
  structures = [];
  cleanup_small = [];
  cleanup_large = [];
  block_count = item_dim / block_size + 1;
  sizes = [];
  linenos = [];
}

-- `ProgramParser::find_program`
unfoldable pub find_program : List ℕ → Listing → Option ℕ
find_program program_data listing =
    if leb ((listing.program_offset + listing.size) % 2 ^ 32) (length program_data)
    then some listing.program_offset
    else none

-- The two maps that `add_program_to` writes
unfoldable pub note_program : ℕ → ℕ → ℕ → Agenda → Agenda
note_program program size lineno a = record a {
  sizes = put a.sizes program size;
  linenos = put a.linenos program lineno;
}

-- The programs of a table
unfoldable pub programs_of : Agenda → TableId → List ℕ
programs_of a table = elim (find_in a.structures table) [ none ↦ [] | some programs ↦ programs ]

-- `add_program_to(m_structures[ptr], ...)`
unfoldable pub add_to_table : TableId → ℕ → ℕ → ℕ → Agenda → Agenda
unfolding note_program programs_of
add_to_table table program size lineno a =
    let a' = note_program program size lineno a in
    record a' { structures = put a.structures table (programs_of a table ++ program ∷ []) }

-- Where `add_listing` puts a program
pub data Place : Type 0 where
  on_exists : Place
  on_table : (ℕ → TableId) → Place
  small large : Place

unfoldable pub place_of : OpCode → Place
place_of given_exists = on_exists
place_of given_unary_relation = on_table unary_table
place_of given_binary_relation = on_table binary_table
place_of given_nullary_function = on_table nullary_table
place_of given_injective_function = on_table injective_table
place_of given_binary_function = on_table function_table
place_of given_symmetric_function = on_table symmetric_table
place_of for_block = large
place_of op = small

-- The branches of `add_listing`. `present` says which tables the machine has, and `name` is the byte
-- behind the instruction.
unfoldable pub add_at : (TableId → Bool) → Place → ℕ → ℕ → ℕ → Listing → Agenda → Option Agenda
unfolding note_program add_to_table
add_at present on_exists name skip program listing a =
    let a' = note_program (program + skip) (listing.size - skip) listing.lineno a in
    some (record a' { exists = a.exists ++ (program + skip) ∷ [] })
add_at present (on_table table) name skip program listing a =
    if present (table name)
    then some (add_to_table (table name) (program + skip) (listing.size - skip) listing.lineno a)
    else none
add_at present large name skip program listing a =
    let a' = note_program (program + skip) (listing.size - skip) listing.lineno a in
    some (record a' { cleanup_large = a.cleanup_large ++ (program + skip) ∷ [] })
add_at present small name skip program listing a =
    let a' = note_program program listing.size listing.lineno a in
    some (record a' { cleanup_small = a.cleanup_small ++ program ∷ [] })

-- `none` is a failed assertion, or a byte that is no instruction.
unfoldable pub add_listing : (TableId → Bool) → List ℕ → Listing → Agenda → Option Agenda
unfolding find_program place_of add_at op_code_arity
add_listing present program_data listing a = do
  program ← find_program program_data listing
  code ← get_elem? program_data program
  op ← get_elem? op_codes code
  let skip = 1 + length (op_code_arity op)
  let name : ℕ = elim (get_elem? program_data (program + 1)) [ none ↦ 0 | some byte ↦ byte ]
  if ltb skip listing.size then add_at present (place_of op) name skip program listing a else none

-- A cleanup task: a program, or a program on one block of obs
pub data Task : Type 0 where
  small_task : ℕ → Task
  large_task : ℕ → ℕ → Task

-- What `execute_cleanup` executes: `none` is an index behind the last program.
unfoldable pub cleanup_task : Agenda → ℕ → Option Task
cleanup_task a index =
    let small_count = length a.cleanup_small in
    let rest = index - small_count in
    if ltb index small_count
    then Option.map small_task (get_elem? a.cleanup_small index)
    else Option.map (λ program. large_task program (rest % a.block_count))
        (get_elem? a.cleanup_large (rest / a.block_count))

unfoldable pub cleanup_task_count : Agenda → ℕ
cleanup_task_count a = length a.cleanup_small + length a.cleanup_large * a.block_count

unfoldable pub cleanup_type_count : Agenda → ℕ
cleanup_type_count a = length a.cleanup_small + length a.cleanup_large

-- `none` is a program without a size.
unfoldable pub count_bytes : Agenda → List ℕ → Option ℕ
count_bytes a [] = some 0
count_bytes a (program ∷ programs) = do
  size ← find_in a.sizes program
  rest ← count_bytes a programs
  some (size + rest)

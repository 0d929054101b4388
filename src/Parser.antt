-- ===== src/Parser.antt =====
-- The class ProgramParser of pomagma/atlas/program_fwd.hpp and program.cpp: programs of the virtual
-- machine, from text to bytes. A line comes as the words that the stream reads from it. `none` is a
-- failed assertion.
pub mod Symbols
pub mod Lines
pub mod Writes
pub mod Tiles
pub mod Tiling
pub mod Examples
use Prim.Native.String.{String}
use text.Mathlib.Text.{◌==◌ as str_eq}
use pomagma.Prelude.{
  ℕ, zero, suc, ◌+◌, ◌-◌, List, [], ◌∷◌, ◌++◌, Bool, true, false, not, ◌&&◌, ◌||◌, ltb, ◌==◌,
  if◌then◌else◌, Option, none, some, length, get_or,
}
use pomagma.Prelude.Table.{Key, string_key, find, put}
use pomagma.Carrier.{◌>>=◌}
use pomagma.Program.{eval_float53}

pub record SymbolTable : Type 0 where
  pub registers : List (String × ℕ)
  pub loaded : List String

abbrev pub no_symbols : SymbolTable
no_symbols = record { registers = []; loaded = [] }

abbrev pub has : List String → String → Bool
has [] name = false
has (x ∷ xs) name = str_eq x name || has xs name

unfoldable pub store : String → SymbolTable → Option (ℕ × SymbolTable)
store name t = elim (find t.registers name) [
  | some index ↦ none
  | none ↦
      (if ltb (length t.registers) 256
        then some
            (length t.registers, record t { registers = put t.registers name (length t.registers) })
        else none)
]

unfoldable pub load : String → SymbolTable → Option (ℕ × SymbolTable)
load name t = elim (find t.registers name) [
  | none ↦ none
  | some index ↦ some (index, record t { loaded = name ∷ t.loaded })
]

-- Whether no assertion of `check_unused` fails
unfoldable pub all_loaded : List (String × ℕ) → List String → Bool
all_loaded [] loaded = true
all_loaded ((name, index) ∷ registers) loaded = has loaded name && all_loaded registers loaded

unfoldable pub check_unused : SymbolTable → Bool
unfolding all_loaded
check_unused t = all_loaded t.registers t.loaded

-- The table at the back of the stack, the tables before it from the back to the front, and the jumps
-- likewise.
pub record SymbolTableStack : Type 0 where
  pub back : SymbolTable
  pub below : List SymbolTable
  pub jumps : List ℕ
  pub warn_unused : Bool

unfoldable pub new_stack : Bool → SymbolTableStack
new_stack warn = record { back = no_symbols; below = []; jumps = []; warn_unused = warn }

unfoldable pub store_back : String → SymbolTableStack → Option (ℕ × SymbolTableStack)
store_back name s = do (index, back') ← store name s.back; some (index, record s { back = back' })

unfoldable pub load_back : String → SymbolTableStack → Option (ℕ × SymbolTableStack)
load_back name s = do (index, back') ← load name s.back; some (index, record s { back = back' })

unfoldable pub clear : SymbolTableStack → Option SymbolTableStack
unfolding check_unused
clear s =
    if length s.jumps == 0 && (length s.below == 0 && (not s.warn_unused || check_unused s.back))
    then some (record s { back = no_symbols; below = [] })
    else none

unfoldable pub push : ℕ → SymbolTableStack → SymbolTableStack
push jump s = record s { below = s.back ∷ s.below; jumps = eval_float53 jump ∷ s.jumps }

-- `for (auto& jump : m_jumps) { ASSERT(jump); --jump; }`
unfoldable pub count_down : List ℕ → Option (List ℕ)
count_down [] = some []
count_down (zero ∷ jumps) = none
count_down (suc jump ∷ jumps) = do jumps' ← count_down jumps; some (jump ∷ jumps')

-- The scope at the back ends where its jump is counted down.
unfoldable pub end_scope : List ℕ → List SymbolTable → SymbolTableStack → Option SymbolTableStack
unfolding check_unused
end_scope (zero ∷ jumps) (table ∷ below) s =
    if not s.warn_unused || check_unused s.back
    then some (record s { back = table; below = below; jumps = jumps })
    else none
end_scope jumps below s = some (record s { jumps = jumps })

unfoldable pub pop : SymbolTableStack → Option SymbolTableStack
unfolding count_down end_scope
pop s = do jumps ← count_down s.jumps; end_scope jumps s.below s

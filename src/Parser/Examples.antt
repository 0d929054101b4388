-- ===== src/Parser/Examples.antt =====
-- Inputs of the class ProgramParser of pomagma/atlas/program.cpp: tests and instances of the theorems.
use Prim.Native.String.{String}
use pomagma.Prelude.{
  ℕ, ◌+◌, ◌≡◌, ◌≢◌, ◌≤◌, ◌<◌, refl, List, [], ◌∷◌, ◌++◌, Bool, true, false, Option, some, none,
  length, arith, if◌then◌else◌, ◌==◌,
}
use pomagma.Prelude.Table.{string_key, find}
use pomagma.Program.{OpArgType}
use pomagma.Agenda.{Listing}
use pomagma.Parser.{SymbolTable, no_symbols, store, load}
use pomagma.Parser.Lines.{Line, comment, empty, command, parse}
use pomagma.Parser.Tiles.{Tiles}
use pomagma.Parser.Tiling.{parse-Tiles}
use pomagma.Parser.Symbols.{IsValid, store_lem}

abbrev names : List (String × ℕ)
names = ("SEQUENCE", 1) ∷ ("FOR_ALL", 28) ∷ ("INFER_EQUAL", 59) ∷ []

abbrev no_constants : OpArgType → String → Option ℕ
no_constants arg_type name = none

-- `atoi` of the words of the test
abbrev atoi : String → ℕ
atoi word = if string_key.same word "5" then 5 else 0

-- A comment, a program with a jump over five bytes, an empty line, and a second program.
abbrev lines : List Line
lines =
    comment
    ∷ command ("SEQUENCE" ∷ "5" ∷ [])
    ∷ command ("FOR_ALL" ∷ "x" ∷ [])
    ∷ command ("INFER_EQUAL" ∷ "x" ∷ "x" ∷ [])
    ∷ command ("FOR_ALL" ∷ "x" ∷ [])
    ∷ command ("INFER_EQUAL" ∷ "x" ∷ "x" ∷ [])
    ∷ empty
    ∷ command ("FOR_ALL" ∷ "y" ∷ [])
    ∷ command ("INFER_EQUAL" ∷ "y" ∷ "y" ∷ [])
    ∷ []

abbrev bytes : List ℕ
bytes = 1 ∷ 5 ∷ 28 ∷ 0 ∷ 59 ∷ 0 ∷ 0 ∷ 28 ∷ 0 ∷ 59 ∷ 0 ∷ 0 ∷ 28 ∷ 0 ∷ 59 ∷ 0 ∷ 0 ∷ []

abbrev listings : List Listing
listings =
    record { program_offset = 0; size = 12; lineno = 2 }
    ∷ record { program_offset = 12; size = 5; lineno = 8 }
    ∷ []

program : Unit {0}
unfolding parse pomagma.Parser.pop pomagma.Parser.new_stack find pomagma.Program.op_code_arity
    pomagma.Parser.push pomagma.Program.eval_float53 pomagma.Parser.store_back store
    pomagma.Parser.load_back load pomagma.Prelude.Table.put pomagma.Parser.clear
program = tt

parsed : parse names no_constants atoi lines [] ≡ some (bytes, listings)
unfolding program
parsed = refl

parse-Tiles_example : Tiles bytes 0 listings 17 × ((added : List ℕ) × (bytes ≡ [] ++ added))
parse-Tiles_example =
    parse-Tiles names no_constants atoi lines [] bytes listings parsed (omega arith)

-- A variable without a register, and one that is bound twice
undefined_variable :
    parse names no_constants atoi (command ("INFER_EQUAL" ∷ "x" ∷ "x" ∷ []) ∷ []) [] ≡ none
unfolding program
undefined_variable = refl

duplicate_variable :
    parse names no_constants atoi
      (command ("FOR_ALL" ∷ "x" ∷ []) ∷ command ("FOR_ALL" ∷ "x" ∷ []) ∷ [])
      []
    ≡ none
unfolding program
duplicate_variable = refl

no_symbols-IsValid : IsValid no_symbols
unfolding find
no_symbols-IsValid = record {
  bounded = λ name i e. cc;
  distinct = λ name other i e d. cc;
  small = omega arith;
}

abbrev one_symbol : SymbolTable
one_symbol = record { registers = ("x", 0) ∷ []; loaded = [] }

stored : store "x" no_symbols ≡ some (0, one_symbol)
unfolding program
stored = refl

store_lem_example :
    (find no_symbols.registers "x" ≡ none)
    × (0 < 256)
    × ((other : String) → find no_symbols.registers other ≢ some 0)
    × ((other : String)
        → find one_symbol.registers other
          ≡ (if string_key.same "x" other then some 0 else find no_symbols.registers other))
    × IsValid one_symbol
    × (load "x" one_symbol ≡ some (0, record one_symbol { loaded = "x" ∷ one_symbol.loaded }))
store_lem_example = store_lem "x" no_symbols one_symbol 0 no_symbols-IsValid stored

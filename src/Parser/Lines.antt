-- ===== src/Parser/Lines.antt =====
-- `ProgramParser::parse` of pomagma/atlas/program.cpp.
use Prim.Native.String.{String}
use pomagma.Prelude.{
  ℕ, ◌+◌, ◌%◌, ◌^◌, List, [], ◌∷◌, ◌++◌, true, false, ◌&&◌, ltb, ◌==◌, if◌then◌else◌, Option, none,
  some, length, get_elem?,
}
use pomagma.Prelude.Table.{string_key, find}
use pomagma.Carrier.{◌>>=◌}
use pomagma.Program.{
  OpCode, sequence, op_codes, op_code_arity, OpArgType, uint8, new_ob, ob, new_set, set,
}
use pomagma.Agenda.{Listing}
use pomagma.Parser.{SymbolTableStack, new_stack, store_back, load_back, clear, push, pop}

-- A line of the file: it begins with `#`, it is empty, or it has words.
pub data Line : Type 0 where
  comment empty : Line
  command : List String → Line

-- The state of the loop over the lines. `program_data` is a field of the parser.
pub record State : Type 0 where
  pub program_data : List ℕ
  pub result : List Listing
  pub program : List ℕ
  pub obs : SymbolTableStack
  pub sets : SymbolTableStack
  pub start_lineno : ℕ

-- The lambda `add_program`. The fields of a listing have 32 bits.
unfoldable pub add_program : State → State
add_program s =
    let listing : Listing = record {
      program_offset = length s.program_data % 2 ^ 32;
      size = length s.program % 2 ^ 32;
      lineno = s.start_lineno % 2 ^ 32;
    } in
    record s {
      result = s.result ++ listing ∷ [];
      program_data = s.program_data ++ s.program;
      program = [];
    }

-- `if (not program.empty()) add_program(start_lineno);`
unfoldable pub flush : State → State
unfolding add_program
flush s = if length s.program == 0 then s else add_program s

-- `obs.pop(lineno); sets.pop(lineno);`
unfoldable pub pop_both : State → Option State
pop_both s = do obs' ← pop s.obs; sets' ← pop s.sets; some (record s { obs = obs'; sets = sets' })

unfoldable pub emit : ℕ → State → State
emit byte s = record s { program = s.program ++ byte ∷ [] }

-- The names of the instructions, with their numbers; the numbers of the tables by their names;
-- and `atoi`, with 0 for a negative number, which is as much out of range.
module _ (op_code_of : List (String × ℕ)) (constants : OpArgType → String → Option ℕ)
    (atoi : String → ℕ) where
  -- The `switch` on the type of an argument, and `program.push_back(arg)`
  unfoldable pub parse_arg : OpArgType → String → State → Option State
  unfolding emit
  parse_arg uint8 word s =
      if ltb 0 (atoi word) && ltb (atoi word) 255 then some (emit (atoi word) s) else none
  parse_arg new_ob word s = do
    (arg, obs') ← store_back word s.obs
    some (emit arg (record s { obs = obs' }))
  parse_arg ob word s = do
    (arg, obs') ← load_back word s.obs
    some (emit arg (record s { obs = obs' }))
  parse_arg new_set word s = do
    (arg, sets') ← store_back word s.sets
    some (emit arg (record s { sets = sets' }))
  parse_arg set word s = do
    (arg, sets') ← load_back word s.sets
    some (emit arg (record s { sets = sets' }))
  parse_arg arg_type word s = do arg ← constants arg_type word; some (emit arg s)

  -- The loop over the types of the arguments: too few words fail, and so do too many.
  unfoldable pub parse_args : List OpArgType → List String → State → Option State
  unfolding parse_arg pop_both
  parse_args [] [] s = some s
  parse_args [] (word ∷ words) s = none
  parse_args (arg_type ∷ types) [] s = none
  parse_args (arg_type ∷ types) (word ∷ words) s = do
    s1 ← parse_arg arg_type word s
    s2 ← pop_both s1
    parse_args types words s2

  abbrev pub last_or : ℕ → List ℕ → ℕ
  last_or d [] = d
  last_or d (x ∷ xs) = last_or x xs

  -- `if (op_code == SEQUENCE)`: both stacks get a scope for the bytes that the jump passes over.
  unfoldable pub open_scope : OpCode → State → State
  open_scope sequence s =
      let jump = last_or 0 s.program in record s { obs = push jump s.obs; sets = push jump s.sets }
  open_scope op s = s

  unfoldable pub parse_command : ℕ → List String → State → Option State
  unfolding parse_args open_scope
  parse_command lineno [] s = none
  parse_command lineno (word ∷ words) s = do
    let s1 = if length s.program == 0 then record s { start_lineno = lineno } else s
    s2 ← pop_both s1
    code ← find op_code_of word
    op ← get_elem? op_codes code
    s3 ← parse_args (op_code_arity op) words (emit code s2)
    some (open_scope op s3)

  unfoldable pub parse_line : ℕ → Line → State → Option State
  unfolding parse_command flush
  parse_line lineno comment s = some s
  parse_line lineno empty s = do
    obs' ← clear s.obs
    sets' ← clear s.sets
    some (flush (record s { obs = obs'; sets = sets' }))
  parse_line lineno (command words) s = parse_command lineno words s

  unfoldable pub parse_lines : ℕ → List Line → State → Option State
  unfolding parse_line
  parse_lines lineno [] s = some (flush s)
  parse_lines lineno (line ∷ lines) s = do
    s' ← parse_line lineno line s
    parse_lines (lineno + 1) lines s'

  -- `parse`: the bytes that the parser holds then, and the listings
  unfoldable pub parse : List Line → List ℕ → Option (List ℕ × List Listing)
  unfolding parse_lines
  parse lines program_data = do
    s ← parse_lines 1 lines (record {
      program_data = program_data;
      result = [];
      program = [];
      obs = new_stack false;
      sets = new_stack true;
      start_lineno = 0;
    })
    some (s.program_data, s.result)

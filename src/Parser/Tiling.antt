-- ===== src/Parser/Tiling.antt =====
-- The listings of `ProgramParser::parse` in pomagma/atlas/program.cpp: where the bytes of each program
-- lie, and that they are whole instructions.
use Prim.Native.String.{String}
use mathlib.Core.List.{append_assoc, append-nil}
use mathlib.Core.Path.{subst}
use mathlib.Core.Option.{some-injective}
use pomagma.Prelude.{
  ℕ, ◌+◌, ◌%◌, ◌^◌, ◌≤◌, ◌<◌, ◌≡◌, refl, sym, ap, ◌∙◌, inl, inr, List, [], ◌∷◌, ◌++◌, Bool, true,
  false, ◌==◌, if◌then◌else◌, Option, some, length, get_elem?, take, drop, arith, Bool-cases,
  length-append, drop-length_append, take-length,
}
use pomagma.Prelude.Table.{string_key, find}
use pomagma.Program.{OpCode, sequence, op_codes, op_code_arity, OpArgType}
use pomagma.Agenda.{Listing}
use pomagma.Parser.{clear}
use pomagma.Parser.Lines.{
  Line, comment, empty, command, State, add_program, flush, pop_both, emit, parse_args, open_scope,
  parse_command, parse_line, parse_lines, parse,
}
use pomagma.Parser.Writes.{
  IsCode, IsCode-append, done, instruction, inversion, Writes, pop_both-Writes, parse_args-Writes,
}
use pomagma.Parser.Tiles.{Tiles, Tiles-append, Tiles-append_one}

-- What holds between the lines, with the bytes that the parser held before
record Parsed (before : List ℕ) (s : State) : Type 0 where
  tiles :
      length s.program_data < 2 ^ 32
      → Tiles s.program_data (length before) s.result (length s.program_data)
  code : IsCode s.program
  added : List ℕ
  kept : s.program_data ≡ before ++ added

flush-Tiles :
    (before : List ℕ) (s : State)
    → Parsed before s
    → 1 ≤ length s.program
    → length (s.program_data ++ s.program) < 2 ^ 32
    → Tiles
        (add_program s).program_data
        (length before)
        (add_program s).result
        (length (add_program s).program_data)
unfolding add_program
flush-Tiles before s h pos fits =
    let sum = length-append s.program_data s.program in
    let offset : length s.program_data % 2 ^ 32 ≡ length s.program_data = omega arith in
    let size : length s.program % 2 ^ 32 ≡ length s.program = omega arith in
    let slice : take (length s.program % 2 ^ 32)
          (drop (length s.program_data % 2 ^ 32) (s.program_data ++ s.program))
        ≡ s.program =
      ap (λ n. take n (drop (length s.program_data % 2 ^ 32) (s.program_data ++ s.program))) size
      ∙ ap (λ n. take (length s.program) (drop n (s.program_data ++ s.program))) offset
      ∙ ap (take (length s.program)) (drop-length_append s.program_data s.program)
      ∙ take-length s.program in
    subst (λ n. Tiles (s.program_data ++ s.program) (length before) (add_program s).result n)
      (ap (λ n. length s.program_data + n) size ∙ sym sum)
      (Tiles-append_one (s.program_data ++ s.program) (length before) s.result
        (length s.program_data) _
        (Tiles-append s.program_data s.program (length before) s.result (length s.program_data)
          (omega arith) (h.tiles (omega arith)))
        offset (omega arith) (subst IsCode (sym slice) h.code))

flush-Parsed : (before : List ℕ) (s : State) → Parsed before s → Parsed before (flush s)
unfolding flush
flush-Parsed before s h = elim (Bool-cases (length s.program == 0)) [
  | inl nothing ↦ rw nothing h
  | inr program ↦ rw program (record {
    tiles = λ fits. flush-Tiles before s h (ground arith) fits;
    code = done refl;
    added = h.added ++ s.program;
    kept = ap (λ l. l ++ s.program) h.kept ∙ append_assoc before h.added s.program;
  })
]

Parsed-next :
    (before : List ℕ) (s s' : State)
    → Parsed before s
    → s'.program_data ≡ s.program_data
    → s'.result ≡ s.result
    → IsCode s'.program
    → Parsed before s'
Parsed-next before s s' h e1 e2 code = record {
  tiles =
      subst (λ d. length d < 2 ^ 32 → Tiles d (length before) s'.result (length d)) (sym e1)
        (λ fits.
          subst (λ r. Tiles s.program_data (length before) r (length s.program_data)) (sym e2)
            (h.tiles fits));
  code = code;
  added = h.added;
  kept = e1 ∙ h.kept;
}

-- What `open_scope` leaves alone
open_scope_same :
    (op_code_of : List (String × ℕ)) (constants : OpArgType → String → Option ℕ) (atoi : String → ℕ)
    (op : OpCode) (s : State)
    → let s' = open_scope op_code_of constants atoi op s in
      (s'.program_data ≡ s.program_data) × (s'.result ≡ s.result) × (s'.program ≡ s.program)
unfolding open_scope
open_scope_same op_code_of constants atoi sequence s = (refl, refl, refl)
open_scope_same op_code_of constants atoi op s = (refl, refl, refl)

nil_of_length : (xs : List ℕ) → length xs ≡ 0 → xs ≡ []
nil_of_length [] e = refl
nil_of_length (x ∷ xs) e = absurd (omega arith)

command-IsCode :
    (s s2 s3 : State) (code : ℕ) (op : OpCode)
    → get_elem? op_codes code ≡ some op
    → IsCode s.program
    → Writes s 0 s2
    → Writes (emit code s2) (length (op_code_arity op)) s3
    → IsCode s3.program
unfolding emit
command-IsCode s s2 s3 code op at k w v =
    let none_yet : s2.program ≡ s.program =
      w.program ∙ ap (◌++◌ s.program) (nil_of_length w.bytes w.size) ∙ append-nil s.program in
    let whole : s3.program ≡ s.program ++ code ∷ v.bytes =
      v.program
      ∙ ap (λ l. (l ++ code ∷ []) ++ v.bytes) none_yet
      ∙ append_assoc s.program (code ∷ []) v.bytes in
    let args : IsCode (code ∷ v.bytes) =
      instruction code op v.bytes [] at v.size (done refl)
        (ap (◌∷◌ code) (sym (append-nil v.bytes))) in
    subst IsCode (sym whole) (IsCode-append k args)

started :
    (b : Bool) (s : State) (lineno : ℕ) (before : List ℕ)
    → Parsed before s
    → Parsed before (if b then record s { start_lineno = lineno } else s)
started true s lineno before h = record {
  tiles = h.tiles;
  code = h.code;
  added = h.added;
  kept = h.kept;
}
started false s lineno before h = h

module _ (op_code_of : List (String × ℕ)) (constants : OpArgType → String → Option ℕ)
    (atoi : String → ℕ) (before : List ℕ) where
  parse_command-Parsed :
      (lineno : ℕ) (words : List String) (s s' : State)
      → Parsed before s
      → parse_command op_code_of constants atoi lineno words s ≡ some s'
      → Parsed before s'
  unfolding parse_command emit
  parse_command-Parsed lineno [] s s' h e = cc
  parse_command-Parsed lineno (word ∷ words) s s' h e =
      let s1 : State = if length s.program == 0 then record s { start_lineno = lineno } else s in
      let (s2, e1, e2) = inversion (pop_both s1) _ e in
      let (code, e3, e4) = inversion (find op_code_of word) _ e2 in
      let (op, e5, e6) = inversion (get_elem? op_codes code) _ e4 in
      let (s3, e7, e8) =
        inversion (parse_args op_code_of constants atoi (op_code_arity op) words (emit code s2)) _
          e6 in
      let w = pop_both-Writes s1 s2 e1 in
      let v =
        parse_args-Writes op_code_of constants atoi (op_code_arity op) words (emit code s2) s3 e7 in
      let h1 = started (length s.program == 0) s lineno before h in
      let (data_same, result_same, program_same) =
        open_scope_same op_code_of constants atoi op s3 in
      subst (Parsed before) (some-injective _ s' e8) (
        Parsed-next before s1 (open_scope op_code_of constants atoi op s3) h1
          (data_same ∙ v.same_data ∙ w.same_data) (result_same ∙ v.same_result ∙ w.same_result)
          (subst IsCode (sym program_same) (command-IsCode s1 s2 s3 code op e5 h1.code w v)))

  parse_line-Parsed :
      (lineno : ℕ) (line : Line) (s s' : State)
      → Parsed before s
      → parse_line op_code_of constants atoi lineno line s ≡ some s'
      → Parsed before s'
  unfolding parse_line
  parse_line-Parsed lineno comment s s' h e = subst (Parsed before) (some-injective _ s' e) h
  parse_line-Parsed lineno empty s s' h e =
      let (obs', e1, e2) = inversion (clear s.obs) _ e in
      let (sets', e3, e4) = inversion (clear s.sets) _ e2 in
      subst (Parsed before) (some-injective _ s' e4) (
        flush-Parsed before (record s { obs = obs'; sets = sets' })
          (Parsed-next before s (record s { obs = obs'; sets = sets' }) h refl refl h.code))
  parse_line-Parsed lineno (command words) s s' h e = parse_command-Parsed lineno words s s' h e

  parse_lines-Parsed :
      (lineno : ℕ) (lines : List Line) (s s' : State)
      → Parsed before s
      → parse_lines op_code_of constants atoi lineno lines s ≡ some s'
      → Parsed before s'
  unfolding parse_lines
  parse_lines-Parsed lineno [] s s' h e =
      subst (Parsed before) (some-injective _ s' e) (flush-Parsed before s h)
  parse_lines-Parsed lineno (line ∷ lines) s s' h e =
      let (s1, e1, e2) = inversion (parse_line op_code_of constants atoi lineno line s) _ e in
      parse_lines-Parsed (lineno + 1) lines s1 s' (parse_line-Parsed lineno line s s1 h e1) e2

-- Whatever the names of the instructions and tables are: if `parse` succeeds and the parser then holds
-- fewer than 2^32 bytes, it keeps the bytes it held and adds others behind them. The listings that it returns cover the added bytes in
-- order and without a gap, none of them is empty, and the bytes of each are whole instructions: a
-- code and as many arguments as the instruction takes, and so on to the end.
pub parse-Tiles :
    (op_code_of : List (String × ℕ)) (constants : OpArgType → String → Option ℕ) (atoi : String → ℕ)
    (lines : List Line) (before after : List ℕ) (listings : List Listing)
    → parse op_code_of constants atoi lines before ≡ some (after, listings)
    → length after < 2 ^ 32
    → Tiles after (length before) listings (length after)
      × ((added : List ℕ) × (after ≡ before ++ added))
unfolding parse
parse-Tiles op_code_of constants atoi lines before after listings e fits =
    let (s, e1, e2) = inversion (parse_lines op_code_of constants atoi 1 lines _) _ e in
    let h =
      parse_lines-Parsed op_code_of constants atoi before 1 lines _ s
        (record {
          tiles = λ fits. refl;
          code = done refl;
          added = [];
          kept = sym (append-nil before);
        })
        e1 in
    let both = some-injective _ _ e2 in
    let data_is : s.program_data ≡ after = ap (λ (r : List ℕ × List Listing). r.0) both in
    let result_is : s.result ≡ listings = ap (λ (r : List ℕ × List Listing). r.1) both in
    (
      subst (λ d. Tiles d (length before) listings (length d)) data_is
          (subst (λ r. Tiles s.program_data (length before) r (length s.program_data)) result_is
            (h.tiles (subst (λ d. length d < 2 ^ 32) (sym data_is) fits))),
      (h.added, sym data_is ∙ h.kept),
    )

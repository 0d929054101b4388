-- ===== src/Parser/Writes.antt =====
-- The bytes that a line adds in `ProgramParser::parse` of pomagma/atlas/program.cpp are whole
-- instructions.
use Prim.Native.String.{String}
use mathlib.Core.List.{append_assoc, append-nil}
use mathlib.Core.Path.{subst}
use mathlib.Core.Option.{some-injective}
use pomagma.Prelude.{
  ℕ, ◌+◌, ◌≡◌, refl, sym, ap, ◌∙◌, inl, inr, List, [], ◌∷◌, ◌++◌, ◌&&◌, ltb, Option, none, some,
  length, get_elem?, arith, Bool-cases, length-append,
}
use pomagma.Prelude.Table.{string_key}
use pomagma.Carrier.{◌>>=◌}
use pomagma.Program.{OpCode, op_codes, op_code_arity, OpArgType, uint8, new_ob, ob, new_set, set}
use pomagma.Parser.{SymbolTableStack, store_back, load_back, pop}
use pomagma.Parser.Lines.{State, pop_both, emit, parse_arg, parse_args}

-- Bytes that are whole instructions, each a code and as many arguments as it takes
pub data IsCode : List ℕ → Type 0 where
  done : {p : List ℕ} → p ≡ [] → IsCode p
  instruction :
      {p : List ℕ} (code : ℕ) (op : OpCode) (args rest : List ℕ)
      → get_elem? op_codes code ≡ some op
      → length args ≡ length (op_code_arity op)
      → IsCode rest
      → p ≡ code ∷ (args ++ rest)
      → IsCode p

pub IsCode-append : {p q : List ℕ} → IsCode p → IsCode q → IsCode (p ++ q)
IsCode-append {p} {q} (done e) k = subst IsCode (sym (ap (λ l. l ++ q) e)) k
IsCode-append {p} {q} (instruction code op args rest at len more e) k =
    instruction code op args (rest ++ q) at len (IsCode-append more k)
      (ap (λ l. l ++ q) e ∙ ap (◌∷◌ code) (append_assoc args rest q))

pub inversion {ℓ κ} :
    {A : Type ℓ} {B : Type κ} (m : Option A) (f : A → Option B) {b : B}
    → (m >>= f) ≡ some b
    → (a : A) × (m ≡ some a) × (f a ≡ some b)
inversion none f e = cc
inversion (some a) f e = (a, refl, e)

-- A step that only writes bytes behind the program and keeps what was parsed
pub record Writes (s : State) (n : ℕ) (s' : State) : Type 0 where
  pub bytes : List ℕ
  pub size : length bytes ≡ n
  pub program : s'.program ≡ s.program ++ bytes
  pub same_data : s'.program_data ≡ s.program_data
  pub same_result : s'.result ≡ s.result

pub Writes-trans :
    {s s' s'' : State} {m n : ℕ} → Writes s m s' → Writes s' n s'' → Writes s (m + n) s''
Writes-trans {s} w v = record {
  bytes = w.bytes ++ v.bytes;
  size = length-append w.bytes v.bytes ∙ omega (arith, w.size, v.size);
  program = v.program ∙ ap (λ l. l ++ v.bytes) w.program ∙ append_assoc s.program w.bytes v.bytes;
  same_data = v.same_data ∙ w.same_data;
  same_result = v.same_result ∙ w.same_result;
}

-- The steps of an argument: a byte, with other symbols, or symbols only
pub one_byte :
    (s s' : State) (byte : ℕ) (obs' sets' : SymbolTableStack)
    → some (emit byte (record s { obs = obs'; sets = sets' })) ≡ some s'
    → Writes s 1 s'
unfolding emit
one_byte s s' byte obs' sets' e = subst (Writes s 1) (some-injective _ s' e) (record {
  bytes = byte ∷ [];
  size = refl;
  program = refl;
  same_data = refl;
  same_result = refl;
})

no_byte :
    (s s' : State) (obs' sets' : SymbolTableStack)
    → some (record s { obs = obs'; sets = sets' }) ≡ some s'
    → Writes s 0 s'
no_byte s s' obs' sets' e = subst (Writes s 0) (some-injective _ s' e) (record {
  bytes = [];
  size = refl;
  program = sym (append-nil s.program);
  same_data = refl;
  same_result = refl;
})

pub pop_both-Writes : (s s' : State) → pop_both s ≡ some s' → Writes s 0 s'
unfolding pop_both
pop_both-Writes s s' e =
    let (obs', e1, e2) = inversion (pop s.obs) _ e in
    let (sets', e3, e4) = inversion (pop s.sets) _ e2 in no_byte s s' obs' sets' e4

module _ (op_code_of : List (String × ℕ)) (constants : OpArgType → String → Option ℕ)
    (atoi : String → ℕ) where
  constant-Writes :
      (arg_type : OpArgType) (word : String) (s s' : State)
      → (constants arg_type word >>= λ arg. some (emit arg s)) ≡ some s'
      → Writes s 1 s'
  constant-Writes arg_type word s s' e =
      let (arg, e1, e2) = inversion (constants arg_type word) _ e in
      one_byte s s' arg s.obs s.sets e2

  parse_arg-Writes :
      (arg_type : OpArgType) (word : String) (s s' : State)
      → parse_arg op_code_of constants atoi arg_type word s ≡ some s'
      → Writes s 1 s'
  unfolding parse_arg
  parse_arg-Writes uint8 word s s' e =
      elim (Bool-cases (ltb 0 (atoi word) && ltb (atoi word) 255)) [
        | inl within ↦ one_byte s s' (atoi word) s.obs s.sets (ground arith)
        | inr out ↦ absurd (ground arith)
      ]
  parse_arg-Writes new_ob word s s' e =
      let (r, e1, e2) = inversion (store_back word s.obs) _ e in one_byte s s' r.0 r.1 s.sets e2
  parse_arg-Writes ob word s s' e =
      let (r, e1, e2) = inversion (load_back word s.obs) _ e in one_byte s s' r.0 r.1 s.sets e2
  parse_arg-Writes new_set word s s' e =
      let (r, e1, e2) = inversion (store_back word s.sets) _ e in one_byte s s' r.0 s.obs r.1 e2
  parse_arg-Writes set word s s' e =
      let (r, e1, e2) = inversion (load_back word s.sets) _ e in one_byte s s' r.0 s.obs r.1 e2
  parse_arg-Writes OpArgType.unary_relation word s s' e =
      constant-Writes OpArgType.unary_relation word s s' e
  parse_arg-Writes OpArgType.binary_relation word s s' e =
      constant-Writes OpArgType.binary_relation word s s' e
  parse_arg-Writes OpArgType.nullary_function word s s' e =
      constant-Writes OpArgType.nullary_function word s s' e
  parse_arg-Writes OpArgType.injective_function word s s' e =
      constant-Writes OpArgType.injective_function word s s' e
  parse_arg-Writes OpArgType.binary_function word s s' e =
      constant-Writes OpArgType.binary_function word s s' e
  parse_arg-Writes OpArgType.symmetric_function word s s' e =
      constant-Writes OpArgType.symmetric_function word s s' e

  pub parse_args-Writes :
      (types : List OpArgType) (words : List String) (s s' : State)
      → parse_args op_code_of constants atoi types words s ≡ some s'
      → Writes s (length types) s'
  unfolding parse_args
  parse_args-Writes [] [] s s' e = no_byte s s' s.obs s.sets e
  parse_args-Writes [] (word ∷ words) s s' e = cc
  parse_args-Writes (arg_type ∷ types) [] s s' e = cc
  parse_args-Writes (arg_type ∷ types) (word ∷ words) s s' e =
      let (s1, e1, e2) = inversion (parse_arg op_code_of constants atoi arg_type word s) _ e in
      let (s2, e3, e4) = inversion (pop_both s1) _ e2 in
      subst (λ n. Writes s n s') (omega arith)
        (Writes-trans (parse_arg-Writes arg_type word s s1 e1)
          (Writes-trans (pop_both-Writes s1 s2 e3) (parse_args-Writes types words s2 s' e4)))

-- ===== src/Syntax.antt =====
-- pomagma/solver/syntax.hpp and syntax.cpp: terms and literals as numbers that a Structure hands
-- out by hash-consing. Terms are 32-bit unsigned and literals 32-bit signed numbers. The operations
-- are those of the release build, which does not call `assert_valid` from inside them.
pub mod Arity
pub mod Intern
pub mod Valid
pub mod Made
pub mod App
pub mod Nvar
pub mod Join
pub mod Ivar
pub mod Literals
pub mod Check
pub mod Checked
pub mod Debug
pub mod Examples
use Prim.Native.String.{String}
use pomagma.Prelude.{
  ℕ, zero, suc, ◌+◌, ◌-◌, ◌*◌, ◌%◌, ◌^◌, ◌≡◌, List, [], ◌∷◌, ◌++◌, Bool, true, false, ◌&&◌, Option,
  none, some, get_or, length, ltb, leb, ◌==◌, if◌then◌else◌,
}
use pomagma.Syntax.Arity.{TermArity, LiteralArity}
use pomagma.Prelude.Table.{find, put, insert, nat_key, string_key, pair_key, Key}

-- int32_t
pub data ℤ : Type 0 where
  pos : ℕ → ℤ
  negsuc : ℕ → ℤ

abbrev pub neg : ℤ → ℤ
neg (pos zero) = pos zero
neg (pos (suc n)) = negsuc n
neg (negsuc n) = pos (suc n)

-- The conversion of a size to `Term`, and to `Literal`.
unfoldable pub to_term : ℕ → ℕ
to_term n = n % 2 ^ 32

unfoldable pub to_literal : ℕ → ℤ
to_literal n =
    if ltb (n % 2 ^ 32) (2 ^ 31) then pos (n % 2 ^ 32) else negsuc (2 ^ 32 - 1 - n % 2 ^ 32)

unfoldable pub literal_abs : ℤ → ℤ
literal_abs (pos n) = pos n
literal_abs (negsuc n) = pos (suc n)

unfoldable pub literal_arity : ℤ → LiteralArity
literal_arity (pos n) = LiteralArity.less
literal_arity (negsuc n) = LiteralArity.nless

pub record Structure : Type 0 where
  pub ivars : List ℕ
  pub nvars : List (String × ℕ)
  pub apps : List ((ℕ × ℕ) × ℕ)
  pub joins : List ((ℕ × ℕ) × ℕ)
  pub arities : List TermArity
  pub ivar_args : List (ℕ × ℕ)
  pub nvar_args : List (ℕ × String)
  pub app_args : List (ℕ × (ℕ × ℕ))
  pub join_args : List (ℕ × (ℕ × ℕ))
  pub lesses : List ((ℕ × ℕ) × ℤ)
  pub less_args : List (ℕ × ℕ)

unfoldable pub new_term : TermArity → Structure → ℕ × Structure
new_term arity s = (to_term (length s.arities), record s { arities = s.arities ++ (arity ∷ []) })

-- `resize(1)` fills the entry 0 with a default, `IVAR` for an arity.
unfoldable pub empty : Structure
empty = record {
  ivars = [];
  nvars = [];
  apps = [];
  joins = [];
  arities = TermArity.ivar ∷ [];
  ivar_args = [];
  nvar_args = [];
  app_args = [];
  join_args = [];
  lesses = [];
  less_args = (0, 0) ∷ [];
}

unfoldable pub create : Structure
unfolding empty new_term
create =
    let (_, s1) = new_term TermArity.top empty in
    let (_, s2) = new_term TermArity.bot s1 in
    let (_, s3) = new_term TermArity.i s2 in
    let (_, s4) = new_term TermArity.k s3 in
    let (_, s5) = new_term TermArity.b s4 in
    let (_, s6) = new_term TermArity.c s5 in let (_, s7) = new_term TermArity.s s6 in s7

-- One round of the loop of `ivar`: the variable whose rank is the size of the table
unfoldable pub push_ivar : Structure → Structure
unfolding new_term
push_ivar s =
    let (term, s') = new_term TermArity.ivar s in
    record s' {
      ivars = s.ivars ++ (term ∷ []);
      ivar_args = insert s.ivar_args term (length s.ivars);
    }

-- `while (rank >= ivar_.size())`
unfoldable pub ivar_loop : ℕ → ℕ → Structure → Option Structure
ivar_loop zero rank s = none
ivar_loop (suc fuel) rank s =
    let later = ivar_loop fuel rank (push_ivar s) in
    if leb (length s.ivars) rank then later else some s

unfoldable pub ivar : ℕ → Structure → Option (ℕ × Structure)
ivar rank s = elim (ivar_loop (rank + 2) rank s) [
  | none ↦ none
  | some s' ↦ some (get_or s'.ivars rank 0, s')
]

-- `m[k]` makes an entry 0 for a new key, and 0 is no term.
unfoldable pub term_at {ℓ} : {K : Type ℓ} ⦃key : Key K⦄ → List (K × ℕ) → K → ℕ
term_at m k = elim (find m k) [ none ↦ 0 | some t ↦ t ]

unfoldable pub nvar : String → Structure → ℕ × Structure
unfolding new_term
nvar name s =
    let old = term_at s.nvars name in
    if old == 0
    then (let (result, s') = new_term TermArity.nvar s in
        (
          result,
          record s' { nvars = put s.nvars name result; nvar_args = insert s.nvar_args result name },
        ))
    else (old, s)

unfoldable pub app : ℕ → ℕ → Structure → ℕ × Structure
unfolding new_term
app lhs rhs s =
    let old = term_at s.apps (lhs, rhs) in
    if old == 0
    then (let (result, s') = new_term TermArity.app s in
        (
          result,
          record s' {
            apps = put s.apps (lhs, rhs) result;
            app_args = insert s.app_args result (lhs, rhs);
          },
        ))
    else (old, s)

-- The body of `join` after the swap
unfoldable pub join_sorted : ℕ → ℕ → Structure → ℕ × Structure
unfolding new_term
join_sorted lhs rhs s =
    let old = term_at s.joins (lhs, rhs) in
    if old == 0
    then (let (result, s') = new_term TermArity.join s in
        (
          result,
          record s' {
            joins = put s.joins (lhs, rhs) result;
            join_args = insert s.join_args result (lhs, rhs);
          },
        ))
    else (old, s)

unfoldable pub join : ℕ → ℕ → Structure → ℕ × Structure
join lhs rhs s =
    if lhs == rhs
    then (lhs, s)
    else if ltb rhs lhs
    then join_sorted rhs lhs s
    else join_sorted lhs rhs s

-- Past the end of the table the code's behaviour is undefined: `IVAR` stands for it.
unfoldable pub term_arity : Structure → ℕ → TermArity
term_arity s term = get_or s.arities term TermArity.ivar

-- The argument of a term that has none is the end of the table, here `none`.
unfoldable pub ivar_arg : Structure → ℕ → Option ℕ
ivar_arg s term = find s.ivar_args term

unfoldable pub nvar_arg : Structure → ℕ → Option String
nvar_arg s term = find s.nvar_args term

unfoldable pub app_arg : Structure → ℕ → Option (ℕ × ℕ)
app_arg s term = find s.app_args term

unfoldable pub join_arg : Structure → ℕ → Option (ℕ × ℕ)
join_arg s term = find s.join_args term

unfoldable pub literal_at : List ((ℕ × ℕ) × ℤ) → ℕ × ℕ → ℤ
literal_at m k = elim (find m k) [ none ↦ pos 0 | some l ↦ l ]

unfoldable pub is_null : ℤ → Bool
is_null (pos n) = n == 0
is_null (negsuc n) = false

unfoldable pub less : ℕ → ℕ → Structure → ℤ × Structure
less lhs rhs s =
    let old = literal_at s.lesses (lhs, rhs) in
    if is_null old
    then (let result = to_literal (length s.less_args) in
        (
          result,
          record s {
            lesses = put s.lesses (lhs, rhs) result;
            less_args = s.less_args ++ ((lhs, rhs) ∷ []);
          },
        ))
    else (old, s)

unfoldable pub nless : ℕ → ℕ → Structure → ℤ × Structure
unfolding less
nless lhs rhs s = let (l, s') = less lhs rhs s in (neg l, s')

-- The index of a vector, for a literal that is not negative
unfoldable pub literal_index : ℤ → ℕ
literal_index (pos n) = n
literal_index (negsuc n) = n + 1

unfoldable pub literal_arg : Structure → ℤ → ℕ × ℕ
literal_arg s lit = get_or s.less_args (literal_index (literal_abs lit)) (0, 0)

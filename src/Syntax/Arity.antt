-- ===== src/Syntax/Arity.antt =====
-- pomagma/solver/syntax.hpp: the kinds of terms and literals. Their names are apart, since some
-- operations have them too.
use pomagma.Prelude.{ℕ, ◌≡◌, ◌≢◌, ap, false, ◌==◌, arith}

pub data TermArity : Type 0 where
  ivar : TermArity
  nvar : TermArity
  app : TermArity
  join : TermArity
  top : TermArity
  bot : TermArity
  i : TermArity
  k : TermArity
  b : TermArity
  c : TermArity
  s : TermArity

pub data LiteralArity : Type 0 where
  less : LiteralArity
  nless : LiteralArity

-- The number of an arity in its enumeration
abbrev pub index : TermArity → ℕ
index TermArity.ivar = 0
index TermArity.nvar = 1
index TermArity.app = 2
index TermArity.join = 3
index TermArity.top = 4
index TermArity.bot = 5
index TermArity.i = 6
index TermArity.k = 7
index TermArity.b = 8
index TermArity.c = 9
index TermArity.s = 10

pub distinct : (x y : TermArity) → (index x == index y) ≡ false → x ≢ y
distinct x y h e = ground (arith, ap index e)

-- ===== src/Syntax/Debug.antt =====
-- A build with a POMAGMA_DEBUG_LEVEL of at least 1: the introductions call `assert_valid`, which calls
-- the introductions.
use Prim.Native.String.{String}
use pomagma.Prelude.{ℕ, ◌≡◌, Bool, true, false, none, some, ◌==◌}
use pomagma.Syntax.Arity.{TermArity}
use pomagma.Syntax.Made.{Made}
use pomagma.Syntax.{Structure, ivar, nvar, app, join}
use pomagma.Syntax.Check.{Intros}

-- A term that is a variable, an application or a join
abbrev pub is_made : TermArity → Bool
is_made TermArity.ivar = true
is_made TermArity.nvar = true
is_made TermArity.app = true
is_made TermArity.join = true
is_made _ = false

-- No introduction returns at `s` for the arguments of a term that `s` has.
record Refuses (ops : Intros) (s : Structure) : Type 0 where
  no_ivar : (r t : ℕ) → ivar r s ≡ some (t, s) → ops.ivar_of r s ≡ none
  no_nvar : (n : String) (t : ℕ) → nvar n s ≡ (t, s) → ops.nvar_of n s ≡ none
  no_app : (l r t : ℕ) → app l r s ≡ (t, s) → ops.app_of l r s ≡ none
  no_join : (l r t : ℕ) → (l == r) ≡ false → join l r s ≡ (t, s) → ops.join_of l r s ≡ none

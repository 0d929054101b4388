-- ===== src/Syntax/Check.antt =====
-- `Structure::assert_valid`: `none` is a failed assertion, and the state is threaded through since
-- the checks call the introductions. Those are arguments here: `release` are the ones of the release
-- build, and `debug` those of a build with a POMAGMA_DEBUG_LEVEL of at least 1,
-- which call `assert_valid` again before they return.
use Prim.Native.String.{String}
use pomagma.Prelude.{
  ℕ, zero, suc, ◌+◌, ◌-◌, Bool, false, ◌&&◌, Option, none, some, length, ◌==◌, if◌then◌else◌, ltb,
  ◌^◌,
}
use pomagma.Syntax.Arity.{TermArity, index}
use pomagma.Syntax.{
  ℤ, pos, negsuc, neg, Structure, to_term, to_literal, term_arity, ivar_arg, nvar_arg, app_arg,
  join_arg, literal_arg, ivar, nvar, app, join, less,
}

pub record Intros : Type 0 where
  pub ivar_of : ℕ → Structure → Option (ℕ × Structure)
  pub nvar_of : String → Structure → Option (ℕ × Structure)
  pub app_of : ℕ → ℕ → Structure → Option (ℕ × Structure)
  pub join_of : ℕ → ℕ → Structure → Option (ℕ × Structure)
  pub less_of : ℕ → ℕ → Structure → Option (ℤ × Structure)

abbrev pub release : Intros
release = record {
  ivar_of = ivar;
  nvar_of = λ name s. some (nvar name s);
  app_of = λ l r s. some (app l r s);
  join_of = λ l r s. some (join l r s);
  less_of = λ l r s. some (less l r s);
}

-- `POMAGMA_ASSERT_EQ(term, ...)`
unfoldable pub same_term : ℕ → Option (ℕ × Structure) → Option Structure
same_term term none = none
same_term term (some (t, s)) = if term == t then some s else none

unfoldable pub literal_eq : ℤ → ℤ → Bool
literal_eq (pos n) (pos m) = n == m
literal_eq (negsuc n) (negsuc m) = n == m
literal_eq _ _ = false

unfoldable pub same_literal : ℤ → Option (ℤ × Structure) → Option Structure
same_literal lit none = none
same_literal lit (some (l, s)) = if literal_eq lit l then some s else none

unfoldable pub check_arity : Structure → ℕ → TermArity → Bool
check_arity s term arity = index (term_arity s term) == index arity

unfoldable pub check_atoms : Structure → Bool
unfolding check_arity
check_atoms s =
    check_arity s 1 TermArity.top
    && check_arity s 2 TermArity.bot
    && check_arity s 3 TermArity.i
    && check_arity s 4 TermArity.k
    && check_arity s 5 TermArity.b
    && check_arity s 6 TermArity.c
    && check_arity s 7 TermArity.s

-- The body of the loop over the terms
unfoldable pub check_kind : Intros → ℕ → TermArity → Structure → Option Structure
check_kind ops term TermArity.ivar s = elim (ivar_arg s term) [
  | none ↦ none
  | some rank ↦ same_term term (ops.ivar_of rank s)
]
check_kind ops term TermArity.nvar s = elim (nvar_arg s term) [
  | none ↦ none
  | some name ↦ same_term term (ops.nvar_of name s)
]
check_kind ops term TermArity.app s = elim (app_arg s term) [
  | none ↦ none
  | some (l, r) ↦ same_term term (ops.app_of l r s)
]
check_kind ops term TermArity.join s = elim (join_arg s term) [
  | none ↦ none
  | some (l, r) ↦ same_term term (ops.join_of l r s)
]
check_kind ops term _ s = some s

unfoldable pub check_term : Intros → ℕ → Structure → Option Structure
check_term ops term s = check_kind ops term (term_arity s term) s

-- `for (Term term = 1; term <= max_term; ++term)`, from `term` on. A `Term` has 32 bits, so that the loop
-- never ends if `max_term` is the greatest one. `none` is also a round too many.
unfoldable pub check_terms : Intros → ℕ → ℕ → ℕ → Structure → Option Structure
unfolding check_term
check_terms ops zero term max_term s = none
check_terms ops (suc fuel) term max_term s =
    let round : Option Structure = elim (check_term ops term s) [
      | none ↦ none
      | some s' ↦ check_terms ops fuel (to_term (term + 1)) max_term s'
    ] in
    if ltb max_term term then some s else round

-- The body of the loop over the literals: `nless` is the negation of `less`.
unfoldable pub check_literal : Intros → ℕ → Structure → Option Structure
check_literal ops n s =
    let (l, r) = literal_arg s (pos n) in
    elim (same_literal (pos n) (ops.less_of l r s)) [
      | none ↦ none
      | some s' ↦
          let (l', r') = literal_arg s' (neg (pos n)) in
          same_literal (neg (pos n))
            (elim (ops.less_of l' r' s') [ none ↦ none | some (x, s'') ↦ some (neg x, s'') ])
    ]

-- `for (Literal lit = 1; lit <= max_lit; ++lit)`, from the literal `n` on. A `Literal` has 32 bits with a
-- sign; `none` is also the overflow of `++lit`, which is undefined, and a round too many.
unfoldable pub check_literals : Intros → ℕ → ℕ → ℕ → Structure → Option Structure
unfolding check_literal
check_literals ops zero n max_lit s = none
check_literals ops (suc fuel) n max_lit s =
    let round : Option Structure = elim (check_literal ops n s) [
      | none ↦ none
      | some s' ↦
          (let next = check_literals ops fuel (n + 1) max_lit s' in
            if n + 1 == 2 ^ 31 then none else next)
    ] in
    if ltb max_lit n then some s else round

-- The last literal if it is one, and so the number of rounds of its loop
unfoldable pub rounds : ℤ → ℕ
rounds (pos n) = n
rounds (negsuc n) = 0

unfoldable pub assert_valid : Intros → Structure → Option Structure
unfolding check_atoms check_terms check_literals
assert_valid ops s =
    if check_atoms s
    then (let max_term = to_term (length s.arities - 1) in
        elim (check_terms ops (max_term + 1) 1 max_term s) [
          | none ↦ none
          | some s' ↦
              (let max_lit = rounds (to_literal (length s'.less_args - 1)) in
                check_literals ops (max_lit + 1) 1 max_lit s')
        ])
    else none

-- `if (POMAGMA_DEBUG_LEVEL >= 1) assert_valid();` before an introduction returns, in a build of such a
-- level
unfoldable pub then_check :
    {A : Type 0} → (Structure → Option Structure) → Option (A × Structure) → Option (A × Structure)
then_check check none = none
then_check check (some (a, s)) = elim (check s) [ none ↦ none | some s' ↦ some (a, s') ]

-- Each introduction of such a build checks by the introductions of the same build: `fuel` bounds
-- how deep those calls go.
unfoldable pub debug : ℕ → Intros
unfolding then_check assert_valid
debug zero = record {
  ivar_of = λ rank s. none;
  nvar_of = λ name s. none;
  app_of = λ l r s. none;
  join_of = λ l r s. none;
  less_of = λ l r s. none;
}
debug (suc fuel) = record {
  ivar_of = λ rank s. then_check (assert_valid (debug fuel)) (ivar rank s);
  nvar_of = λ name s. then_check (assert_valid (debug fuel)) (some (nvar name s));
  app_of = λ l r s. then_check (assert_valid (debug fuel)) (some (app l r s));
  join_of = λ l r s.
      if l == r then some (l, s) else then_check (assert_valid (debug fuel)) (some (join l r s));
  less_of = λ l r s. then_check (assert_valid (debug fuel)) (some (less l r s));
}

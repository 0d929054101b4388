-- ===== src/Syntax/Nvar.antt =====
-- `Structure::nvar` and `Structure::nvar_arg`.
use Prim.Native.String.{String}
use pomagma.Prelude.{
  ℕ, ◌^◌, ◌%◌, ◌≡◌, refl, [], ◌∷◌, ◌++◌, false, none, some, length, length-append,
  get_or-append_end, arith, ◌==◌, Option-cases, inl, inr,
}
use pomagma.Prelude.Table.{find, put, insert, find-put, nat_key, string_key, pair_key}
use pomagma.Syntax.Arity.{TermArity, distinct}
use pomagma.Syntax.Intern.{append-Interned, insert-Interned}
use pomagma.Syntax.Valid.{IsValid, append-HasAtoms}
use pomagma.Syntax.{
  Structure, new_term, to_term, term_arity, ivar_arg, nvar_arg, app_arg, join_arg, nvar,
}
use pomagma.Syntax.Made.{term_at-none, term_at-some, Made, HasRoom, keep, kept_kind, old-Made}

nvar-old :
    {s : Structure} → IsValid s → (n : String) (t : ℕ) → find s.nvars n ≡ some t → nvar n s ≡ (t, s)
unfolding nvar
nvar-old {s} v n t e =
    let at = term_at-some s.nvars n t e in
    let low = (v.nvars.known n t (v.nvars.forth n t e)).0 in
    let old : (t == 0) ≡ false = ground arith in rw (at, old) refl

-- The structure after a new application
abbrev pushed_nvar : Structure → String → Structure
pushed_nvar s n = record s {
  arities = s.arities ++ (TermArity.nvar ∷ []);
  nvars = put s.nvars n (length s.arities);
  nvar_args = insert s.nvar_args (length s.arities) n;
}

nvar-new :
    (s : Structure)
    → HasRoom s
    → (n : String) → find s.nvars n ≡ none
    → nvar n s ≡ (length s.arities, pushed_nvar s n)
unfolding nvar new_term to_term
nvar-new s room n e =
    let zero = term_at-none s.nvars n e in
    let fits : length s.arities % 2 ^ 32 ≡ length s.arities = omega arith in rw (zero, fits) refl

module _ {s : Structure} (v : IsValid s) where
  pushed_nvar-Made :
      (n : String)
      → find s.nvars n ≡ none
      → Made TermArity.nvar s (length s.arities) (pushed_nvar s n)
  unfolding term_arity ivar_arg nvar_arg app_arg join_arg
  pushed_nvar-Made n e = record {
    valid = record {
      atoms = append-HasAtoms v.atoms TermArity.nvar;
      ivars = append-Interned v.ivars TermArity.nvar (distinct TermArity.nvar TermArity.ivar refl);
      nvars =
          insert-Interned v.nvars n (find (put s.nvars n (length s.arities)))
            (omega (arith, v.atoms.count)) e (λ j. find-put s.nvars n j (length s.arities));
      apps = append-Interned v.apps TermArity.nvar (distinct TermArity.nvar TermArity.app refl);
      joins = append-Interned v.joins TermArity.nvar (distinct TermArity.nvar TermArity.join refl);
      sorted = v.sorted;
      literals = v.literals;
    };
    low = omega (arith, v.atoms.count);
    in_range = omega (arith, length-append s.arities (TermArity.nvar ∷ []));
    kind = get_or-append_end s.arities TermArity.nvar TermArity.ivar (length s.arities) refl;
    extends = record {
      terms = omega (arith, length-append s.arities (TermArity.nvar ∷ []));
      kinds = kept_kind v TermArity.nvar;
      ivars = λ t r e. e;
      nvars = keep v.nvars n;
      apps = λ t p e. e;
      joins = λ t p e. e;
      literals = λ n lt. (lt, refl);
    };
  }

  pub nvar-nvar_arg : (n : String) (t : ℕ) → nvar_arg s t ≡ some n → nvar n s ≡ (t, s)
  unfolding nvar_arg
  nvar-nvar_arg n t e = nvar-old v n t (v.nvars.back n t e)

-- In a valid structure with room for one more term, `nvar` gives a term of the kind NVAR and keeps the
-- structure valid and what it says of all terms and literals; `nvar_arg` gives its name back, and
-- a second call of `nvar` on it gives the same term and changes
-- nothing.
pub nvar_lem :
    (s : Structure) (n : String)
    → IsValid s
    → HasRoom s
    → let (t, s') = nvar n s in
      Made TermArity.nvar s t s' × (nvar_arg s' t ≡ some n) × (nvar n s' ≡ (t, s'))
unfolding nvar_arg
nvar_lem s n v room = elim (Option-cases (find s.nvars n)) [
  | inl e ↦
      let made = pushed_nvar-Made v n e in
      let same : find (put s.nvars n (length s.arities)) n ≡ some (length s.arities) =
        rw (find-put s.nvars n n (length s.arities), (string_key.same_iff n n).1 refl) refl in
      let back = made.valid.nvars.forth n (length s.arities) same in
      rw (nvar-new s room n e) (made, back, nvar-nvar_arg made.valid n (length s.arities) back)
  | inr (t, e) ↦
      let back = v.nvars.forth n t e in
      rw (nvar-old v n t e) (old-Made v v.nvars n t back, back, nvar-nvar_arg v n t back)
]

-- ===== src/Syntax/App.antt =====
-- `Structure::app` and `Structure::app_arg`.
use pomagma.Prelude.{
  ℕ, ◌^◌, ◌%◌, ◌≡◌, refl, [], ◌∷◌, ◌++◌, false, none, some, length, length-append,
  get_or-append_end, arith, ◌==◌, Option-cases, inl, inr,
}
use pomagma.Prelude.Table.{find, put, insert, find-put, nat_key, string_key, pair_key}
use pomagma.Syntax.Arity.{TermArity, distinct}
use pomagma.Syntax.Intern.{append-Interned, insert-Interned}
use pomagma.Syntax.Valid.{IsValid, append-HasAtoms}
use pomagma.Syntax.{
  Structure, new_term, to_term, term_arity, ivar_arg, nvar_arg, app_arg, join_arg, app,
}
use pomagma.Syntax.Made.{term_at-none, term_at-some, Made, HasRoom, keep, kept_kind, old-Made}

app-old :
    {s : Structure} → IsValid s → (l r t : ℕ) → find s.apps (l, r) ≡ some t → app l r s ≡ (t, s)
unfolding app
app-old {s} v l r t e =
    let at = term_at-some s.apps (l, r) t e in
    let low = (v.apps.known (l, r) t (v.apps.forth (l, r) t e)).0 in
    let old : (t == 0) ≡ false = ground arith in rw (at, old) refl

-- The structure after a new application
abbrev pushed_app : Structure → ℕ → ℕ → Structure
pushed_app s l r = record s {
  arities = s.arities ++ (TermArity.app ∷ []);
  apps = put s.apps (l, r) (length s.arities);
  app_args = insert s.app_args (length s.arities) (l, r);
}

app-new :
    (s : Structure)
    → HasRoom s
    → (l r : ℕ) → find s.apps (l, r) ≡ none
    → app l r s ≡ (length s.arities, pushed_app s l r)
unfolding app new_term to_term
app-new s room l r e =
    let zero = term_at-none s.apps (l, r) e in
    let fits : length s.arities % 2 ^ 32 ≡ length s.arities = omega arith in rw (zero, fits) refl

module _ {s : Structure} (v : IsValid s) where
  pushed_app-Made :
      (l r : ℕ)
      → find s.apps (l, r) ≡ none
      → Made TermArity.app s (length s.arities) (pushed_app s l r)
  unfolding term_arity ivar_arg nvar_arg app_arg join_arg
  pushed_app-Made l r e = record {
    valid = record {
      atoms = append-HasAtoms v.atoms TermArity.app;
      ivars = append-Interned v.ivars TermArity.app (distinct TermArity.app TermArity.ivar refl);
      nvars = append-Interned v.nvars TermArity.app (distinct TermArity.app TermArity.nvar refl);
      apps =
          insert-Interned v.apps (l, r) (find (put s.apps (l, r) (length s.arities)))
            (omega (arith, v.atoms.count)) e (λ j. find-put s.apps (l, r) j (length s.arities));
      joins = append-Interned v.joins TermArity.app (distinct TermArity.app TermArity.join refl);
      sorted = v.sorted;
      literals = v.literals;
    };
    low = omega (arith, v.atoms.count);
    in_range = omega (arith, length-append s.arities (TermArity.app ∷ []));
    kind = get_or-append_end s.arities TermArity.app TermArity.ivar (length s.arities) refl;
    extends = record {
      terms = omega (arith, length-append s.arities (TermArity.app ∷ []));
      kinds = kept_kind v TermArity.app;
      ivars = λ t r e. e;
      nvars = λ t n e. e;
      apps = keep v.apps (l, r);
      joins = λ t p e. e;
      literals = λ n lt. (lt, refl);
    };
  }

  pub app-app_arg : (l r t : ℕ) → app_arg s t ≡ some (l, r) → app l r s ≡ (t, s)
  unfolding app_arg
  app-app_arg l r t e = app-old v l r t (v.apps.back (l, r) t e)

-- In a valid structure with room for one more term, `app` gives a term of the kind APP and keeps the
-- structure valid and what it says of all terms and literals; `app_arg` takes the term apart into
-- the two that were given, and a second call of `app` on them gives the same term and changes
-- nothing.
pub app_lem :
    (s : Structure) (l r : ℕ)
    → IsValid s
    → HasRoom s
    → let (t, s') = app l r s in
      Made TermArity.app s t s' × (app_arg s' t ≡ some (l, r)) × (app l r s' ≡ (t, s'))
unfolding app_arg
app_lem s l r v room = elim (Option-cases (find s.apps (l, r))) [
  | inl e ↦
      let made = pushed_app-Made v l r e in
      let same : find (put s.apps (l, r) (length s.arities)) (l, r) ≡ some (length s.arities) =
        rw
          (
            find-put s.apps (l, r) (l, r) (length s.arities),
            (pair_key.same_iff (l, r) (l, r)).1 refl,
          )
          refl in
      let back = made.valid.apps.forth (l, r) (length s.arities) same in
      rw (app-new s room l r e) (made, back, app-app_arg made.valid l r (length s.arities) back)
  | inr (t, e) ↦
      let back = v.apps.forth (l, r) t e in
      rw (app-old v l r t e) (old-Made v v.apps (l, r) t back, back, app-app_arg v l r t back)
]

-- ===== src/Syntax/Join.antt =====
-- `Structure::join` and `Structure::join_arg`.
use pomagma.Prelude.{
  ℕ, ◌^◌, ◌%◌, ◌<◌, ◌≡◌, refl, sym, ap, ◌∙◌, [], ◌∷◌, ◌++◌, true, false, none, some, length,
  length-append, get_or-append_end, arith, ◌==◌, ltb, Bool-cases, Option-cases, inl, inr,
}
use pomagma.Prelude.Table.{find, put, insert, find-put, nat_key, string_key, pair_key}
use pomagma.Syntax.Arity.{TermArity, distinct}
use pomagma.Syntax.Intern.{append-Interned, insert-Interned}
use pomagma.Syntax.Valid.{IsValid, append-HasAtoms}
use pomagma.Syntax.{
  Structure, new_term, to_term, term_arity, ivar_arg, nvar_arg, app_arg, join_arg, join,
  join_sorted,
}
use pomagma.Syntax.Made.{term_at-none, term_at-some, Made, HasRoom, keep, kept_kind, old-Made}

join_sorted-old :
    {s : Structure}
    → IsValid s
    → (l r t : ℕ) → find s.joins (l, r) ≡ some t
    → join_sorted l r s ≡ (t, s)
unfolding join_sorted
join_sorted-old {s} v l r t e =
    let at = term_at-some s.joins (l, r) t e in
    let low = (v.joins.known (l, r) t (v.joins.forth (l, r) t e)).0 in
    let old : (t == 0) ≡ false = ground arith in rw (at, old) refl

-- The structure after a new application
abbrev pushed_join : Structure → ℕ → ℕ → Structure
pushed_join s l r = record s {
  arities = s.arities ++ (TermArity.join ∷ []);
  joins = put s.joins (l, r) (length s.arities);
  join_args = insert s.join_args (length s.arities) (l, r);
}

join_sorted-new :
    (s : Structure)
    → HasRoom s
    → (l r : ℕ) → find s.joins (l, r) ≡ none
    → join_sorted l r s ≡ (length s.arities, pushed_join s l r)
unfolding join_sorted new_term to_term
join_sorted-new s room l r e =
    let zero = term_at-none s.joins (l, r) e in
    let fits : length s.arities % 2 ^ 32 ≡ length s.arities = omega arith in rw (zero, fits) refl

module _ {s : Structure} (v : IsValid s) where
  pushed-sorted :
      (l r : ℕ)
      → l < r
      → (x y t : ℕ) → find (put s.joins (l, r) (length s.arities)) (x, y) ≡ some t
      → x < y
  pushed-sorted l r lt x y t e = elim (Bool-cases (pair_key.same (l, r) (x, y))) [
    | inl same ↦
        let both : (l, r) ≡ (x, y) = (pair_key.same_iff (l, r) (x, y)).0 same in
        omega (arith, ap (λ p. p.0) both, ap (λ p. p.1) both)
    | inr other ↦
        let old : find (put s.joins (l, r) (length s.arities)) (x, y) ≡ find s.joins (x, y) =
          rw (find-put s.joins (l, r) (x, y) (length s.arities), other) refl in
        v.sorted x y t (sym old ∙ e)
  ]

  pushed_join-Made :
      (l r : ℕ)
      → l < r
      → find s.joins (l, r) ≡ none
      → Made TermArity.join s (length s.arities) (pushed_join s l r)
  unfolding term_arity ivar_arg nvar_arg app_arg join_arg
  pushed_join-Made l r lt e = record {
    valid = record {
      atoms = append-HasAtoms v.atoms TermArity.join;
      ivars = append-Interned v.ivars TermArity.join (distinct TermArity.join TermArity.ivar refl);
      nvars = append-Interned v.nvars TermArity.join (distinct TermArity.join TermArity.nvar refl);
      apps = append-Interned v.apps TermArity.join (distinct TermArity.join TermArity.app refl);
      joins =
          insert-Interned v.joins (l, r) (find (put s.joins (l, r) (length s.arities)))
            (omega (arith, v.atoms.count)) e (λ j. find-put s.joins (l, r) j (length s.arities));
      sorted = pushed-sorted l r lt;
      literals = v.literals;
    };
    low = omega (arith, v.atoms.count);
    in_range = omega (arith, length-append s.arities (TermArity.join ∷ []));
    kind = get_or-append_end s.arities TermArity.join TermArity.ivar (length s.arities) refl;
    extends = record {
      terms = omega (arith, length-append s.arities (TermArity.join ∷ []));
      kinds = kept_kind v TermArity.join;
      ivars = λ t r e. e;
      nvars = λ t n e. e;
      apps = λ t p e. e;
      joins = keep v.joins (l, r);
      literals = λ n lt. (lt, refl);
    };
  }

  pub join_sorted-join_arg : (l r t : ℕ) → join_arg s t ≡ some (l, r) → join_sorted l r s ≡ (t, s)
  unfolding join_arg
  join_sorted-join_arg l r t e = join_sorted-old v l r t (v.joins.back (l, r) t e)

join_sorted_lem :
    (s : Structure) (l r : ℕ)
    → IsValid s
    → HasRoom s
    → l < r
    → let (t, s') = join_sorted l r s in
      Made TermArity.join s t s' × (join_arg s' t ≡ some (l, r)) × (join_sorted l r s' ≡ (t, s'))
unfolding join_arg
join_sorted_lem s l r v room lt = elim (Option-cases (find s.joins (l, r))) [
  | inl e ↦
      let made = pushed_join-Made v l r lt e in
      let same : find (put s.joins (l, r) (length s.arities)) (l, r) ≡ some (length s.arities) =
        rw
          (
            find-put s.joins (l, r) (l, r) (length s.arities),
            (pair_key.same_iff (l, r) (l, r)).1 refl,
          )
          refl in
      let back = made.valid.joins.forth (l, r) (length s.arities) same in
      rw (join_sorted-new s room l r e)
        (made, back, join_sorted-join_arg made.valid l r (length s.arities) back)
  | inr (t, e) ↦
      let back = v.joins.forth (l, r) t e in
      rw (join_sorted-old v l r t e)
        (old-Made v v.joins (l, r) t back, back, join_sorted-join_arg v l r t back)
]

-- What `join` is, by the order of its arguments
join-ascending : (l r : ℕ) (s : Structure) → l < r → join l r s ≡ join_sorted l r s
unfolding join
join-ascending l r s lt =
    let other : (l == r) ≡ false = ground arith in
    let order : ltb r l ≡ false = ground arith in rw (other, order) refl

join-descending : (l r : ℕ) (s : Structure) → l < r → join r l s ≡ join_sorted l r s
unfolding join
join-descending l r s lt =
    let other : (r == l) ≡ false = ground arith in
    let order : ltb l r ≡ true = ground arith in rw (other, order) refl

join_self : (l : ℕ) (s : Structure) → join l l s ≡ (l, s)
unfolding join
join_self l s = let same : (l == l) ≡ true = ground arith in rw same refl

-- In any structure the join of a term with itself is that term, with nothing made. In a valid
-- structure with room for one more term, the join of two terms l < r, given in either order, is
-- the same term of the kind JOIN; the structure stays valid and keeps what it says of all terms and
-- literals; `join_arg` gives the two in ascending order, and a second call gives the same term and
-- changes nothing.
pub join_lem :
    (s : Structure) (l r : ℕ)
    → IsValid s
    → HasRoom s
    → l < r
    → (join l l s ≡ (l, s))
      × (join r l s ≡ join l r s)
      × (let (t, s') = join l r s in
          Made TermArity.join s t s' × (join_arg s' t ≡ some (l, r)) × (join l r s' ≡ (t, s')))
join_lem s l r v room lt =
    let (made, arg, again) = join_sorted_lem s l r v room lt in
    (
      join_self l s,
      join-descending l r s lt ∙ sym (join-ascending l r s lt),
      rw (join-ascending l r s lt) (made, arg, join-ascending l r (join_sorted l r s).1 lt ∙ again),
    )

-- The join of a term that is a join of two, with those two: the term itself
-- The arguments of a join are in ascending order.
pub join_arg-lt : {s : Structure} → IsValid s → (l r t : ℕ) → join_arg s t ≡ some (l, r) → l < r
unfolding join_arg
join_arg-lt v l r t e = v.sorted l r t (v.joins.back (l, r) t e)

pub join-join_arg :
    {s : Structure} → IsValid s → (l r t : ℕ) → join_arg s t ≡ some (l, r) → join l r s ≡ (t, s)
unfolding join_arg
join-join_arg {s} v l r t e =
    let lt = v.sorted l r t (v.joins.back (l, r) t e) in
    join-ascending l r s lt ∙ join_sorted-join_arg v l r t e

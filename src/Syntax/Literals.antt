-- ===== src/Syntax/Literals.antt =====
-- `Structure::less`, `Structure::nless` and `Structure::literal_arg`.
use mathlib.Core.Option.{some-injective, none-ne-some}
use pomagma.Prelude.{
  ℕ, zero, suc, ◌+◌, ◌^◌, ◌%◌, ◌≤◌, ◌<◌, ◌≡◌, refl, sym, ap, ◌∙◌, List, [], ◌∷◌, ◌++◌, true, false,
  none, some, get_or, length, length-append, get_or-append, get_or-append_end, arith, ◌==◌, ==_iff,
  ltb, Bool-cases, Option-cases, inl, inr,
}
use pomagma.Prelude.Table.{find, put, find-put, pair_key}
use pomagma.Syntax.Arity.{LiteralArity}
use pomagma.Syntax.Valid.{IsValid, Literals, Extends, Extends-refl}
use pomagma.Syntax.{
  ℤ, pos, neg, Structure, to_literal, literal_at, is_null, literal_index, literal_abs,
  literal_arity, less, nless, literal_arg, term_arity, ivar_arg, nvar_arg, app_arg, join_arg,
}

literal_at-none : (m : List ((ℕ × ℕ) × ℤ)) (k : ℕ × ℕ) → find m k ≡ none → literal_at m k ≡ pos 0
unfolding literal_at
literal_at-none m k e = rw (literal_at, e) refl

literal_at-some :
    (m : List ((ℕ × ℕ) × ℤ)) (k : ℕ × ℕ) (x : ℤ) → find m k ≡ some x → literal_at m k ≡ x
unfolding literal_at
literal_at-some m k x e = rw (literal_at, e) refl

pub less-old :
    {s : Structure}
    → IsValid s
    → (l r : ℕ) (x : ℤ) → find s.lesses (l, r) ≡ some x
    → less l r s ≡ (x, s)
unfolding less is_null
less-old {s} v l r x e =
    let (n, at, low, lt, arg) = v.literals.forth (l, r) x e in
    let at' = literal_at-some s.lesses (l, r) x e ∙ at in
    let old : (n == 0) ≡ false = ground arith in rw (at', old) (ap (λ y. (y, s)) (sym at))

-- The structure after a new literal
abbrev pushed : Structure → ℕ → ℕ → Structure
pushed s l r = record s {
  lesses = put s.lesses (l, r) (pos (length s.less_args));
  less_args = s.less_args ++ ((l, r) ∷ []);
}

less-new :
    (s : Structure)
    → length s.less_args < 2 ^ 31
    → (l r : ℕ) → find s.lesses (l, r) ≡ none
    → less l r s ≡ (pos (length s.less_args), pushed s l r)
unfolding less is_null to_literal
less-new s room l r e =
    let fits : length s.less_args % 2 ^ 32 ≡ length s.less_args = omega arith in
    let nonneg : ltb (length s.less_args) (2 ^ 31) ≡ true = ground arith in
    rw (literal_at-none s.lesses (l, r) e, fits, nonneg) refl

module _ {s : Structure} (v : IsValid s) (l r : ℕ) (new : find s.lesses (l, r) ≡ none) where
  args_old :
      (n : ℕ)
      → n < length s.less_args
      → get_or (s.less_args ++ ((l, r) ∷ [])) n (0, 0) ≡ get_or s.less_args n (0, 0)
  args_old n lt = get_or-append s.less_args ((l, r) ∷ []) n (0, 0) lt

  arg_new : get_or (s.less_args ++ ((l, r) ∷ [])) (length s.less_args) (0, 0) ≡ (l, r)
  arg_new = get_or-append_end s.less_args (l, r) (0, 0) (length s.less_args) refl

  longer : length (s.less_args ++ ((l, r) ∷ [])) ≡ length s.less_args + 1
  longer = length-append s.less_args ((l, r) ∷ [])

  find_new :
      find (put s.lesses (l, r) (pos (length s.less_args))) (l, r) ≡ some (pos (length s.less_args))
  find_new =
      let same = (pair_key.same_iff (l, r) (l, r)).1 refl in
      rw (find-put s.lesses (l, r) (l, r) (pos (length s.less_args)), same) refl

  find_old :
      (k : ℕ × ℕ)
      → pair_key.same (l, r) k ≡ false
      → find (put s.lesses (l, r) (pos (length s.less_args))) k ≡ find s.lesses k
  find_old k other = rw (find-put s.lesses (l, r) k (pos (length s.less_args)), other) refl

  pushed-Literals :
      Literals (put s.lesses (l, r) (pos (length s.less_args))) (s.less_args ++ ((l, r) ∷ []))
  pushed-Literals = record {
    started = omega (arith, longer);
    forth = λ k x e. elim (Bool-cases (pair_key.same (l, r) k)) [
      | inl y ↦
          let at : (l, r) ≡ k = (pair_key.same_iff (l, r) k).0 y in
          let value =
            some-injective (pos (length s.less_args)) x
              (sym find_new ∙ ap (find (put s.lesses (l, r) (pos (length s.less_args)))) at ∙ e) in
          (length s.less_args, sym value, v.literals.started, omega (arith, longer), arg_new ∙ at)
      | inr other ↦
          let (n, at, low, lt, arg) = v.literals.forth k x (sym (find_old k other) ∙ e) in
          (n, at, low, omega (arith, longer), args_old n lt ∙ arg)
    ];
    back = λ n low lt. elim (Bool-cases (n == length s.less_args)) [
      | inl y ↦ let at = (==_iff n (length s.less_args)).0 y in rw (at, arg_new) find_new
      | inr old ↦
          let lt' : n < length s.less_args = ground (arith, longer) in
          let found = v.literals.back n low lt' in
          let other : pair_key.same (l, r) (get_or s.less_args n (0, 0)) ≡ false =
            elim (Bool-cases (pair_key.same (l, r) (get_or s.less_args n (0, 0)))) [
              | inl y ↦ absurd (
                  none-ne-some (pos n) (
                    sym new
                    ∙ ap (find s.lesses)
                        ((pair_key.same_iff (l, r) (get_or s.less_args n (0, 0))).0 y)
                    ∙ found))
              | inr n ↦ n
            ] in
          rw (args_old n lt') (find_old (get_or s.less_args n (0, 0)) other ∙ found)
    ];
  }

  pushed-IsValid : IsValid (pushed s l r)
  pushed-IsValid = record {
    atoms = v.atoms;
    ivars = v.ivars;
    nvars = v.nvars;
    apps = v.apps;
    joins = v.joins;
    sorted = v.sorted;
    literals = pushed-Literals;
  }

  pushed-Extends : Extends s (pushed s l r)
  unfolding term_arity ivar_arg nvar_arg app_arg join_arg
  pushed-Extends = record {
    terms = omega arith;
    kinds = λ t lt. refl;
    ivars = λ t r e. e;
    nvars = λ t n e. e;
    apps = λ t p e. e;
    joins = λ t p e. e;
    literals = λ n lt. (omega (arith, longer), args_old n lt);
  }

-- A literal of a valid structure is `pos n` for a position n of the table, its negation is
-- `negsuc`, and both have the pair of terms at n.
pub record IsLiteral (s : Structure) (x : ℤ) (l r : ℕ) : Type 0 where
  pub args : literal_arg s x ≡ (l, r)
  pub neg_args : literal_arg s (neg x) ≡ (l, r)
  pub kind : literal_arity x ≡ LiteralArity.less
  pub neg_kind : literal_arity (neg x) ≡ LiteralArity.nless

at-IsLiteral :
    (s : Structure) (n l r : ℕ)
    → 1 ≤ n
    → get_or s.less_args n (0, 0) ≡ (l, r)
    → IsLiteral s (pos n) l r
unfolding literal_arg literal_index literal_abs literal_arity
at-IsLiteral s zero l r low e = absurd (omega arith)
at-IsLiteral s (suc n) l r low e = record { args = e; neg_args = e; kind = refl; neg_kind = refl }

-- In a valid structure with room for one more literal, `less` gives a literal of the kind LESS,
-- whose negation has the kind NLESS; `literal_arg` takes both apart into the two terms that were
-- given. The structure stays valid and keeps what it says of all terms and literals. A second call
-- gives the same literal and changes nothing, and `nless` gives its negation.
pub less_lem :
    (s : Structure) (l r : ℕ)
    → IsValid s
    → length s.less_args < 2 ^ 31
    → let (x, s') = less l r s in
      IsValid s'
      × Extends s s'
      × IsLiteral s' x l r
      × (less l r s' ≡ (x, s'))
      × (nless l r s ≡ (neg x, s'))
unfolding nless
less_lem s l r v room = elim (Option-cases (find s.lesses (l, r))) [
  | inl e ↦
      let v' = pushed-IsValid v l r e in
      rw (less-new s room l r e) (
        v',
        pushed-Extends v l r e,
        at-IsLiteral (pushed s l r) (length s.less_args) l r v.literals.started (arg_new v l r e),
        less-old v' l r (pos (length s.less_args)) (find_new v l r e),
        refl,
      )
  | inr (x, e) ↦
      let (n, at, low, lt, arg) = v.literals.forth (l, r) x e in
      rw (less-old v l r x e)
        (v, Extends-refl s, rw at (at-IsLiteral s n l r low arg), less-old v l r x e, refl)
]

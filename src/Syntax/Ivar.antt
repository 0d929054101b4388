-- ===== src/Syntax/Ivar.antt =====
-- `Structure::ivar` and `Structure::ivar_arg`.
use pomagma.Prelude.{
  ℕ, zero, suc, ◌+◌, ◌-◌, ◌^◌, ◌%◌, ◌≤◌, ◌<◌, ◌≡◌, refl, ap, ◌∙◌, [], ◌∷◌, ◌++◌, false, some,
  get_or, get_elem?, length, length-append, arith, get_elem?-none, get_elem?-get_or, get_elem?-some,
  get_elem?-append_end, leb, leb→le, Bool-cases, inl, inr,
}
use pomagma.Prelude.Table.{insert, nat_key, string_key, pair_key}
use pomagma.Syntax.Arity.{TermArity, distinct}
use pomagma.Syntax.Intern.{append-Interned, insert-Interned}
use pomagma.Syntax.Valid.{IsValid, Extends, Extends-refl, Extends-trans, append-HasAtoms}
use pomagma.Syntax.{
  Structure, push_ivar, ivar_loop, ivar, new_term, to_term, term_arity, ivar_arg, nvar_arg, app_arg,
  join_arg,
}
use pomagma.Syntax.Made.{Made, HasRoom, keep, kept_kind}

-- The variable that a round of the loop makes
push_ivar-eq :
    (s : Structure)
    → HasRoom s
    → push_ivar s ≡ record s {
      arities = s.arities ++ (TermArity.ivar ∷ []);
      ivars = s.ivars ++ (length s.arities ∷ []);
      ivar_args = insert s.ivar_args (length s.arities) (length s.ivars);
    }
unfolding push_ivar new_term to_term
push_ivar-eq s room =
    let fits : length s.arities % 2 ^ 32 ≡ length s.arities = omega arith in rw fits refl

push_ivar-IsValid : {s : Structure} → IsValid s → HasRoom s → IsValid (push_ivar s)
push_ivar-IsValid {s} v room = rw (push_ivar-eq s room) record {
  atoms = append-HasAtoms v.atoms TermArity.ivar;
  ivars =
      insert-Interned v.ivars (length s.ivars) (get_elem? (s.ivars ++ (length s.arities ∷ [])))
        (omega (arith, v.atoms.count)) (get_elem?-none s.ivars (length s.ivars) (omega arith))
        (get_elem?-append_end s.ivars (length s.arities));
  nvars = append-Interned v.nvars TermArity.ivar (distinct TermArity.ivar TermArity.nvar refl);
  apps = append-Interned v.apps TermArity.ivar (distinct TermArity.ivar TermArity.app refl);
  joins = append-Interned v.joins TermArity.ivar (distinct TermArity.ivar TermArity.join refl);
  sorted = v.sorted;
  literals = v.literals;
}

push_ivar-Extends : {s : Structure} → IsValid s → HasRoom s → Extends s (push_ivar s)
unfolding term_arity ivar_arg nvar_arg app_arg join_arg
push_ivar-Extends {s} v room = rw (push_ivar-eq s room) record {
  terms = omega (arith, length-append s.arities (TermArity.ivar ∷ []));
  kinds = kept_kind v TermArity.ivar;
  ivars = keep v.ivars (length s.ivars);
  nvars = λ t n e. e;
  apps = λ t p e. e;
  joins = λ t p e. e;
  literals = λ n lt. (lt, refl);
}

push_ivar-sizes :
    (s : Structure)
    → (length (push_ivar s).ivars ≡ length s.ivars + 1)
      × (length (push_ivar s).arities ≡ length s.arities + 1)
unfolding push_ivar new_term
push_ivar-sizes s = (length-append s.ivars _, length-append s.arities (TermArity.ivar ∷ []))

-- The loop ends, with a variable of the rank.
ivar_loop_lem :
    (fuel rank : ℕ) (s : Structure)
    → IsValid s
    → length s.arities + (rank + 1 - length s.ivars) ≤ 2 ^ 32
    → rank + 1 - length s.ivars < fuel
    → (s' : Structure) × (ivar_loop fuel rank s ≡ some s')
      × IsValid s'
      × Extends s s'
      × (rank < length s'.ivars)
unfolding ivar_loop
ivar_loop_lem zero rank s v room h = absurd (omega arith)
ivar_loop_lem (suc fuel) rank s v room h = elim (Bool-cases (leb (length s.ivars) rank)) [
  | inl more ↦
      let le = leb→le (length s.ivars) rank more in
      let (one, two) = push_ivar-sizes s in
      let (s', e, v', x, lt) =
        ivar_loop_lem fuel rank (push_ivar s) (push_ivar-IsValid v (omega arith))
          (omega (arith, one, two)) (omega (arith, one)) in
      (s', rw more e, v', Extends-trans (push_ivar-Extends v (omega arith)) x, lt)
  | inr enough ↦ (s, rw enough refl, v, Extends-refl s, ground arith)
]

ivar_loop-old :
    (fuel rank : ℕ) (s : Structure) → rank < length s.ivars → ivar_loop (suc fuel) rank s ≡ some s
unfolding ivar_loop
ivar_loop-old fuel rank s lt =
    let enough : leb (length s.ivars) rank ≡ false = ground arith in rw enough refl

ivar_of_loop :
    (rank : ℕ) (s s' : Structure)
    → ivar_loop (rank + 2) rank s ≡ some s'
    → ivar rank s ≡ some (get_or s'.ivars rank 0, s')
unfolding ivar
ivar_of_loop rank s s' e = rw (ivar, e) refl

ivar-old :
    (rank : ℕ) (s : Structure)
    → rank < length s.ivars
    → ivar rank s ≡ some (get_or s.ivars rank 0, s)
ivar-old rank s lt =
    let fuel : rank + 2 ≡ suc (rank + 1) = omega arith in
    ivar_of_loop rank s s (rw fuel (ivar_loop-old (rank + 1) rank s lt))

pub ivar-ivar_arg :
    {s : Structure}
    → IsValid s
    → (rank t : ℕ) → ivar_arg s t ≡ some rank
    → ivar rank s ≡ some (t, s)
unfolding ivar_arg
ivar-ivar_arg {s} v rank t e =
    let (lt, at) = get_elem?-get_or s.ivars rank t 0 (v.ivars.back rank t e) in
    ivar-old rank s lt ∙ ap (λ u. some (u, s)) at

-- In a valid structure with room for the variables up to the rank that are not yet there, `ivar` ends
-- and gives a term of the kind IVAR; the structure stays valid and keeps what it says of all terms
-- and literals; `ivar_arg` gives the rank back, and a second call gives the same term and changes
-- nothing.
pub ivar_lem :
    (s : Structure) (rank : ℕ)
    → IsValid s
    → length s.arities + (rank + 1 - length s.ivars) ≤ 2 ^ 32
    → (t : ℕ) × (s' : Structure) × (ivar rank s ≡ some (t, s'))
      × Made TermArity.ivar s t s'
      × (ivar_arg s' t ≡ some rank)
      × (ivar rank s' ≡ some (t, s'))
unfolding ivar_arg term_arity
ivar_lem s rank v room =
    let (s', e, v', x, lt) = ivar_loop_lem (rank + 2) rank s v room (omega arith) in
    let t = get_or s'.ivars rank 0 in
    let back = v'.ivars.forth rank t (get_elem?-some s'.ivars rank 0 lt) in
    let (low, in_range, kind) = v'.ivars.known rank t back in
    (
      t,
      s',
      ivar_of_loop rank s s' e,
      record { valid = v'; low = low; in_range = in_range; kind = kind; extends = x },
      back,
      ivar-old rank s' lt,
    )

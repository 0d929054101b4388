-- ===== src/Syntax/Checked.antt =====
-- What `assert_valid` does on the structures that the operations make.
use Prim.Native.String.{String}
use pomagma.Prelude.{
  false, ap, ◌∙◌, ℕ, zero, suc, ◌+◌, ◌-◌, ◌^◌, ◌%◌, ◌≤◌, ◌<◌, ◌≡◌, refl, true, some, get_or, length,
  arith, ◌==◌, ltb,
}
use pomagma.Syntax.Arity.{TermArity, index}
use pomagma.Syntax.Valid.{IsValid}
use pomagma.Syntax.App.{app-app_arg}
use pomagma.Syntax.Nvar.{nvar-nvar_arg}
use pomagma.Syntax.Join.{join-join_arg}
use pomagma.Syntax.Ivar.{ivar-ivar_arg}
use pomagma.Syntax.Literals.{less-old}
use pomagma.Syntax.{
  ℤ, pos, negsuc, Structure, to_term, to_literal, term_arity, ivar_arg, nvar_arg, app_arg, join_arg,
  literal_arg, literal_index, literal_abs,
}
use pomagma.Syntax.Check.{
  release, same_term, literal_eq, same_literal, check_arity, check_atoms, check_kind, check_term,
  check_terms, check_literal, check_literals, rounds, assert_valid,
}

same_term_self : (t : ℕ) (s : Structure) → same_term t (some (t, s)) ≡ some s
unfolding same_term
same_term_self t s = let same : (t == t) ≡ true = ground arith in rw same refl

same_literal_self : (x : ℤ) (s : Structure) → same_literal x (some (x, s)) ≡ some s
unfolding same_literal literal_eq
same_literal_self (pos n) s = let same : (n == n) ≡ true = ground arith in rw same refl
same_literal_self (negsuc n) s = let same : (n == n) ≡ true = ground arith in rw same refl

check_arity-eq :
    (s : Structure) (t : ℕ) (a : TermArity)
    → get_or s.arities t TermArity.ivar ≡ a
    → check_arity s t a ≡ true
unfolding check_arity term_arity
check_arity-eq s t a e = let same : (index a == index a) ≡ true = ground arith in rw (e, same) refl

pub all_terms : (n : ℕ) → n < 2 ^ 32 → to_term n ≡ n
unfolding to_term
all_terms n lt = omega arith

module _ {s : Structure} (v : IsValid s) where
  pub atoms_pass : check_atoms s ≡ true
  unfolding check_atoms
  atoms_pass =
      let a = v.atoms in
      rw
        (
          check_arity-eq s 1 TermArity.top a.top,
          check_arity-eq s 2 TermArity.bot a.bot,
          check_arity-eq s 3 TermArity.i a.i,
          check_arity-eq s 4 TermArity.k a.k,
          check_arity-eq s 5 TermArity.b a.b,
          check_arity-eq s 6 TermArity.c a.c,
          check_arity-eq s 7 TermArity.s a.s,
        )
        refl

  module _ (t : ℕ) (low : 1 ≤ t) (lt : t < length s.arities) where
    pub has_ivar : term_arity s t ≡ TermArity.ivar → (r : ℕ) × (ivar_arg s t ≡ some r)
    unfolding term_arity ivar_arg
    has_ivar = v.ivars.tagged t low lt

    pub has_nvar : term_arity s t ≡ TermArity.nvar → (n : String) × (nvar_arg s t ≡ some n)
    unfolding term_arity nvar_arg
    has_nvar = v.nvars.tagged t low lt

    pub has_app : term_arity s t ≡ TermArity.app → (p : ℕ × ℕ) × (app_arg s t ≡ some p)
    unfolding term_arity app_arg
    has_app = v.apps.tagged t low lt

    pub has_join : term_arity s t ≡ TermArity.join → (p : ℕ × ℕ) × (join_arg s t ≡ some p)
    unfolding term_arity join_arg
    has_join = v.joins.tagged t low lt

    kind_passes : (a : TermArity) → term_arity s t ≡ a → check_kind release t a s ≡ some s
    unfolding check_kind
    kind_passes TermArity.ivar h =
        let (r, e) = has_ivar h in rw (check_kind, e, ivar-ivar_arg v r t e) (same_term_self t s)
    kind_passes TermArity.nvar h =
        let (n, e) = has_nvar h in rw (check_kind, e, nvar-nvar_arg v n t e) (same_term_self t s)
    kind_passes TermArity.app h =
        let ((l, r), e) = has_app h in
        rw (check_kind, e, app-app_arg v l r t e) (same_term_self t s)
    kind_passes TermArity.join h =
        let ((l, r), e) = has_join h in
        rw (check_kind, e, join-join_arg v l r t e) (same_term_self t s)
    kind_passes TermArity.top h = refl
    kind_passes TermArity.bot h = refl
    kind_passes TermArity.i h = refl
    kind_passes TermArity.k h = refl
    kind_passes TermArity.b h = refl
    kind_passes TermArity.c h = refl
    kind_passes TermArity.s h = refl

  -- `suc n`: one more for the test at the end
  terms_pass :
      (n t : ℕ)
      → 1 ≤ t
      → t + n ≡ length s.arities
      → length s.arities < 2 ^ 32
      → check_terms release (suc n) t (length s.arities - 1) s ≡ some s
  unfolding check_terms check_term
  terms_pass zero t low e fits =
      let over : ltb (length s.arities - 1) t ≡ true = ground arith in rw over refl
  terms_pass (suc n) t low e fits =
      let more : ltb (length s.arities - 1) t ≡ false = ground arith in
      let first = kind_passes t low (omega arith) (term_arity s t) refl in
      let next = all_terms (t + 1) (omega arith) in
      rw (more, check_terms, first)
        (ap (λ k. check_terms release (suc n) k (length s.arities - 1) s) next
          ∙ terms_pass n (t + 1) (omega arith) (omega arith) fits)

  literal_passes : (n : ℕ) → 1 ≤ n → n < length s.less_args → check_literal release n s ≡ some s
  unfolding check_literal literal_arg literal_index literal_abs
  literal_passes zero low lt = absurd (omega arith)
  literal_passes (suc m) low lt =
      let (l, r) = get_or s.less_args (suc m) (0, 0) in
      let again = less-old v l r (pos (suc m)) (v.literals.back (suc m) low lt) in
      rw (check_literal, again, same_literal_self (pos (suc m)) s, again)
        (same_literal_self (negsuc m) s)

  literals_pass :
      (k n : ℕ)
      → 1 ≤ n
      → n + k ≡ length s.less_args
      → length s.less_args < 2 ^ 31
      → check_literals release (suc k) n (length s.less_args - 1) s ≡ some s
  unfolding check_literals
  literals_pass zero n low e fits =
      let over : ltb (length s.less_args - 1) n ≡ true = ground arith in rw over refl
  literals_pass (suc k) n low e fits =
      let more : ltb (length s.less_args - 1) n ≡ false = ground arith in
      let room : (n + 1 == 2 ^ 31) ≡ false = ground arith in
      rw (more, check_literals, literal_passes n low (omega arith), room)
        (literals_pass k (n + 1) (omega arith) (omega arith) fits)

all_literals : (n : ℕ) → n < 2 ^ 31 → rounds (to_literal n) ≡ n
unfolding to_literal rounds
all_literals n lt =
    let fits : n % 2 ^ 32 ≡ n = omega arith in
    let nonneg : ltb n (2 ^ 31) ≡ true = ground arith in rw (fits, nonneg) refl

-- On every valid structure with less than 2 ^ 32 term arities and less than 2 ^ 31 pairs of literals,
-- `assert_valid` of the release build ends, passes and changes nothing.
pub assert_valid_lem :
    (s : Structure)
    → IsValid s
    → length s.arities < 2 ^ 32
    → length s.less_args < 2 ^ 31
    → assert_valid release s ≡ some s
unfolding assert_valid
assert_valid_lem s v terms literals =
    let max_term = length s.arities - 1 in
    let max_lit = length s.less_args - 1 in
    let c : to_term max_term ≡ max_term = all_terms max_term (omega (arith, v.atoms.count)) in
    let d : rounds (to_literal max_lit) ≡ max_lit =
      all_literals max_lit (omega (arith, v.literals.started)) in
    let one : max_term + 1 ≡ suc max_term = omega arith in
    let one' : max_lit + 1 ≡ suc max_lit = omega arith in
    rw
      (
        atoms_pass v,
        c,
        one,
        terms_pass v max_term 1 (omega arith) (omega (arith, v.atoms.count)) terms,
        d,
        one',
        literals_pass v max_lit 1 (omega arith) (omega (arith, v.literals.started)) literals,
      )
      refl

-- ===== src/Syntax/Valid.antt =====
-- What holds of every Structure between two operations, and what an operation keeps.
use Prim.Native.String.{String}
use pomagma.Prelude.{
  ℕ, zero, suc, ◌≤◌, ◌<◌, ◌≡◌, refl, sym, ap, ◌∙◌, List, [], ◌∷◌, ◌++◌, Bool, true, false, ◌&&◌,
  Option, none, some, get_or, get_elem?, length, length-append, get_or-append, arith,
}
use mathlib.Core.Option.{none-ne-some}
use pomagma.Prelude.Table.{find, nat_key, string_key, pair_key}
use pomagma.Syntax.Arity.{TermArity}
use pomagma.Syntax.Intern.{Interned}
use pomagma.Syntax.{
  ℤ, pos, Structure, create, empty, term_arity, ivar_arg, nvar_arg, app_arg, join_arg,
}

pub record HasAtoms (arities : List TermArity) : Type 0 where
  pub count : 8 ≤ length arities
  pub top : get_or arities 1 TermArity.ivar ≡ TermArity.top
  pub bot : get_or arities 2 TermArity.ivar ≡ TermArity.bot
  pub i : get_or arities 3 TermArity.ivar ≡ TermArity.i
  pub k : get_or arities 4 TermArity.ivar ≡ TermArity.k
  pub b : get_or arities 5 TermArity.ivar ≡ TermArity.b
  pub c : get_or arities 6 TermArity.ivar ≡ TermArity.c
  pub s : get_or arities 7 TermArity.ivar ≡ TermArity.s

-- The literals are the numbers of the pairs of terms, from 1 on.
pub record Literals (lesses : List ((ℕ × ℕ) × ℤ)) (args : List (ℕ × ℕ)) : Type 0 where
  pub started : 1 ≤ length args
  pub forth :
      (k : ℕ × ℕ) (l : ℤ)
      → find lesses k ≡ some l
      → (n : ℕ) × (l ≡ pos n) × (1 ≤ n) × (n < length args) × (get_or args n (0, 0) ≡ k)
  pub back : (n : ℕ) → 1 ≤ n → n < length args → find lesses (get_or args n (0, 0)) ≡ some (pos n)

pub record IsValid (s : Structure) : Type 0 where
  pub atoms : HasAtoms s.arities
  pub ivars : Interned TermArity.ivar (get_elem? s.ivars) s.ivar_args s.arities
  pub nvars : Interned TermArity.nvar (find s.nvars) s.nvar_args s.arities
  pub apps : Interned TermArity.app (find s.apps) s.app_args s.arities
  pub joins : Interned TermArity.join (find s.joins) s.join_args s.arities
  pub sorted : (l r t : ℕ) → find s.joins (l, r) ≡ some t → l < r
  pub literals : Literals s.lesses s.less_args

-- What `s` says of its terms and literals, `s'` says too.
pub record Extends (s s' : Structure) : Type 0 where
  pub terms : length s.arities ≤ length s'.arities
  pub kinds : (t : ℕ) → t < length s.arities → term_arity s' t ≡ term_arity s t
  pub ivars : (t r : ℕ) → ivar_arg s t ≡ some r → ivar_arg s' t ≡ some r
  pub nvars : (t : ℕ) (n : String) → nvar_arg s t ≡ some n → nvar_arg s' t ≡ some n
  pub apps : (t : ℕ) (p : ℕ × ℕ) → app_arg s t ≡ some p → app_arg s' t ≡ some p
  pub joins : (t : ℕ) (p : ℕ × ℕ) → join_arg s t ≡ some p → join_arg s' t ≡ some p
  pub literals :
      (n : ℕ)
      → n < length s.less_args
      → (n < length s'.less_args) × (get_or s'.less_args n (0, 0) ≡ get_or s.less_args n (0, 0))

pub Extends-refl : (s : Structure) → Extends s s
Extends-refl s = record {
  terms = omega arith;
  kinds = λ t lt. refl;
  ivars = λ t r e. e;
  nvars = λ t n e. e;
  apps = λ t p e. e;
  joins = λ t p e. e;
  literals = λ n lt. (lt, refl);
}

pub Extends-trans : {s s' s'' : Structure} → Extends s s' → Extends s' s'' → Extends s s''
Extends-trans f g = record {
  terms = omega (arith, f.terms, g.terms);
  kinds = λ t lt. g.kinds t (omega (arith, f.terms)) ∙ f.kinds t lt;
  ivars = λ t r e. g.ivars t r (f.ivars t r e);
  nvars = λ t n e. g.nvars t n (f.nvars t n e);
  apps = λ t p e. g.apps t p (f.apps t p e);
  joins = λ t p e. g.joins t p (f.joins t p e);
  literals =
      λ n lt. let (lt', e) = f.literals n lt in let (lt'', e') = g.literals n lt' in (lt'', e' ∙ e);
}

pub append-HasAtoms :
    {arities : List TermArity} → HasAtoms arities → (a : TermArity) → HasAtoms (arities ++ (a ∷ []))
append-HasAtoms {arities} h a =
    let kept : (t : ℕ)
        → t < 8
        → get_or (arities ++ (a ∷ [])) t TermArity.ivar ≡ get_or arities t TermArity.ivar =
      λ t lt. get_or-append arities (a ∷ []) t TermArity.ivar (omega (arith, h.count)) in
    record {
      count = omega (arith, h.count, length-append arities (a ∷ []));
      top = kept 1 (omega arith) ∙ h.top;
      bot = kept 2 (omega arith) ∙ h.bot;
      i = kept 3 (omega arith) ∙ h.i;
      k = kept 4 (omega arith) ∙ h.k;
      b = kept 5 (omega arith) ∙ h.b;
      c = kept 6 (omega arith) ∙ h.c;
      s = kept 7 (omega arith) ∙ h.s;
    }

is_atom : TermArity → Bool
is_atom TermArity.ivar = false
is_atom TermArity.nvar = false
is_atom TermArity.app = false
is_atom TermArity.join = false
is_atom _ = true

every_atom : List TermArity → Bool
every_atom [] = true
every_atom (a ∷ rest) = is_atom a && every_atom rest

get_or-every_atom :
    (xs : List TermArity) (t : ℕ)
    → every_atom xs ≡ true
    → t < length xs
    → is_atom (get_or xs t TermArity.ivar) ≡ true
unfolding every_atom
get_or-every_atom [] t h lt = absurd (omega arith)
get_or-every_atom (a ∷ rest) zero h lt = ground arith
get_or-every_atom (a ∷ rest) (suc t) h lt = get_or-every_atom rest t (ground arith) (omega arith)

all_atoms : (t : ℕ) → 1 ≤ t → t < 8 → is_atom (get_or create.arities t TermArity.ivar) ≡ true
unfolding create is_atom every_atom
all_atoms zero h lt = absurd (omega arith)
all_atoms (suc t) h lt =
    get_or-every_atom
      (TermArity.top ∷ TermArity.bot ∷ TermArity.i ∷ TermArity.k ∷ TermArity.b ∷ TermArity.c
        ∷ TermArity.s ∷ [])
      t refl (omega arith)

-- Only atoms stand in the structure that the constructor makes.
none-Interned :
    {K : Type 0} (tag : TermArity) (intro : K → Option ℕ)
    → is_atom tag ≡ false
    → ((k : K) → intro k ≡ none)
    → Interned tag intro [] create.arities
unfolding create find
none-Interned tag intro other empty = record {
  forth = λ k t e. absurd (none-ne-some t (sym (empty k) ∙ e));
  back = λ k t e. absurd (none-ne-some k e);
  known = λ k t e. absurd (none-ne-some k e);
  tagged = λ t low lt kind. absurd (
      let atom = all_atoms t low (omega arith) in
      let tag_atom : is_atom tag ≡ true = sym (ap is_atom kind) ∙ atom in ground arith);
}

none-Literals : Literals [] ((0, 0) ∷ [])
unfolding find
none-Literals = record {
  started = omega arith;
  forth = λ k l e. absurd (none-ne-some l e);
  back = λ n low lt. absurd (omega arith);
}

-- The constructor makes a valid structure, with the seven atoms and nothing else.
pub create-IsValid : IsValid create
unfolding create find is_atom
create-IsValid = record {
  atoms = record {
    count = omega arith;
    top = refl;
    bot = refl;
    i = refl;
    k = refl;
    b = refl;
    c = refl;
    s = refl;
  };
  ivars = none-Interned TermArity.ivar (get_elem? create.ivars) refl (λ k. refl);
  nvars = none-Interned TermArity.nvar (find create.nvars) refl (λ k. refl);
  apps = none-Interned TermArity.app (find create.apps) refl (λ k. refl);
  joins = none-Interned TermArity.join (find create.joins) refl (λ k. refl);
  sorted = λ l r t e. absurd (none-ne-some t e);
  literals = none-Literals;
}

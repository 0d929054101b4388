-- ===== src/Syntax/Made.antt =====
-- What every introduction of a term gives.
use pomagma.Prelude.{
  ℕ, ◌^◌, ◌≤◌, ◌<◌, ◌≡◌, refl, List, [], ◌∷◌, ◌++◌, true, false, Option, none, some, get_or, length,
  get_or-append, arith, ◌==◌,
}
use pomagma.Prelude.Table.{Key, find, insert, find-insert, nat_key, string_key, pair_key}
use pomagma.Syntax.Arity.{TermArity}
use pomagma.Syntax.Intern.{Interned, unused}
use pomagma.Syntax.Valid.{IsValid, Extends, Extends-refl}
use pomagma.Syntax.{Structure, term_arity, term_at}

-- A table that has a key gives its term; one that has not gives 0.
module _ {K : Type 0} ⦃key : Key K⦄ (m : List (K × ℕ)) (k : K) where
  pub term_at-none : find m k ≡ none → (term_at m k == 0) ≡ true
  unfolding term_at
  term_at-none e = rw (term_at, e) refl

  pub term_at-some : (t : ℕ) → find m k ≡ some t → term_at m k ≡ t
  unfolding term_at
  term_at-some t e = rw (term_at, e) refl

-- What makes a term: the result is a valid structure in which `t` is a term of its kind, that says
-- of the others what it said.
pub record Made (tag : TermArity) (s : Structure) (t : ℕ) (s' : Structure) : Type 0 where
  pub valid : IsValid s'
  pub low : 1 ≤ t
  pub in_range : t < length s'.arities
  pub kind : term_arity s' t ≡ tag
  pub extends : Extends s s'

-- There is room for one more term.
abbrev pub HasRoom : Structure → Type 0
HasRoom s = length s.arities < 2 ^ 32

-- A table of arguments keeps what it says when it grows.
pub keep :
    {K : Type 0} {tag : TermArity} {intro : K → Option ℕ} {elims : List (ℕ × K)}
    {arities : List TermArity}
    → Interned tag intro elims arities
    → (k : K) (t : ℕ) (j : K) → find elims t ≡ some j
    → find (insert elims (length arities) k) t ≡ some j
keep {elims = elims} {arities} h k t j e =
    let other : (length arities == t) ≡ false = ground (arith, h.known j t e) in
    rw (find-insert elims (length arities) t k (unused h (length arities) (omega arith)), other) e

module _ {s : Structure} (v : IsValid s) where
  pub kept_kind :
      (a : TermArity) (t : ℕ)
      → t < length s.arities
      → get_or (s.arities ++ (a ∷ [])) t TermArity.ivar ≡ get_or s.arities t TermArity.ivar
  kept_kind a t lt = get_or-append s.arities (a ∷ []) t TermArity.ivar lt

  -- A term that the structure has
  pub old-Made :
      {K : Type 0} {tag : TermArity} {intro : K → Option ℕ} {elims : List (ℕ × K)}
      → Interned tag intro elims s.arities
      → (k : K) (t : ℕ) → find elims t ≡ some k
      → Made tag s t s
  unfolding term_arity
  old-Made h k t e =
      let (low, lt, kind) = h.known k t e in
      record { valid = v; low = low; in_range = lt; kind = kind; extends = Extends-refl s }

-- ===== src/Tables/Narrow.antt =====
-- The words of the sets in the tables of pomagma/atlas/macro have 64 bits, and the insertions keep that.
use mathlib.Core.Option
use mathlib.Core.Path.{subst}
use pomagma.Prelude.{
  ℕ, ◌/◌, ◌%◌, ◌<◌, ◌≡◌, List, Bool, true, false, if◌then◌else◌, some, get_or, get_elem?, set,
  get_or-set_keeps, Each, arith, Option-cases, inl, inr,
}
use pomagma.Word.{word_mod, one_bit}
use pomagma.Word.Ref.{one_bit-lt}
use pomagma.DenseSet.{DenseSet, new, raw_insert, try_insert}
use pomagma.DenseSet.Flip.{Small}
use pomagma.BinaryRelation.{BinaryRelation, line, one_at, insert_lx}
use pomagma.InjectiveFunction.{InjectiveFunction, one_if}
use pomagma.BinaryFunction.{one_pair}
use pomagma.SymmetricFunction.{one_both}
use pomagma.Vm.{
  SetRef, null, support, unary, binary_lx, binary_rx, injective, inverse, function_lx, function_rx,
  symmetric_lx,
}
use pomagma.Tables.{Tables, words}

abbrev pub SmallLines : List DenseSet → Type 0
SmallLines table = (ob : ℕ) → Small (line table ob).words

one-Small :
    (ws : List ℕ) (q k : ℕ) → k < 64 → Small ws → Small (set ws q (one_bit (get_or ws q 0) k))
one-Small ws q k lt h r =
    get_or-set_keeps (λ w. w < word_mod) ws q r (one_bit (get_or ws q 0) k) 0
      (λ e. one_bit-lt (get_or ws q 0) k (h q) lt) (h r)

pub raw_insert-Small : (s : DenseSet) (i : ℕ) → Small s.words → Small (raw_insert s i).words
unfolding raw_insert
raw_insert-Small s i = one-Small s.words (i / 64) (i % 64) (omega arith)

pub one_if-Small :
    (flag : Bool) (s : DenseSet) (i : ℕ) → Small s.words → Small (one_if flag s i).words
one_if-Small true s i h = raw_insert-Small s i h
one_if-Small false s i h = h

set-SmallLines :
    (table : List DenseSet) (ob : ℕ) (s : DenseSet)
    → SmallLines table
    → Small s.words
    → SmallLines (set table ob s)
set-SmallLines table ob s h k other =
    get_or-set_keeps (λ d. Small d.words) table ob other s (new 0) (λ e. k) (h other)

pub one_at-SmallLines :
    (table : List DenseSet) (ob bit : ℕ) → SmallLines table → SmallLines (one_at table ob bit)
unfolding one_at
one_at-SmallLines table ob bit h =
    set-SmallLines table ob (raw_insert (line table ob) bit) h
      (raw_insert-Small (line table ob) bit (h ob))

abbrev pub SmallPair : BinaryRelation → Type 0
SmallPair r = SmallLines r.lx × SmallLines r.rx

pub insert_lx-SmallPair : (i j : ℕ) (r : BinaryRelation) → SmallPair r → SmallPair (insert_lx i j r)
unfolding insert_lx try_insert pomagma.Word.fetch_one
insert_lx-SmallPair i j r (l, k) = (
  set-SmallLines r.lx i (try_insert (line r.lx i) j).1 l
      (one-Small (line r.lx i).words (j / 64) (j % 64) (omega arith) (l i)),
  column (try_insert (line r.lx i) j).0,
)
  where
    column : (b : Bool) → SmallLines (if b then one_at r.rx j i else r.rx)
    column true = one_at-SmallLines r.rx j i k
    column false = k

pub one_pair-SmallPair :
    (lhs rhs : ℕ) (r : BinaryRelation) → SmallPair r → SmallPair (one_pair lhs rhs r)
unfolding one_pair
one_pair-SmallPair lhs rhs r (l, k) =
    (one_at-SmallLines r.lx lhs rhs l, one_at-SmallLines r.rx rhs lhs k)

pub one_both-SmallLines :
    (lhs rhs : ℕ) (table : List DenseSet) → SmallLines table → SmallLines (one_both lhs rhs table)
unfolding one_both
one_both-SmallLines lhs rhs table h =
    one_at-SmallLines (one_at table lhs rhs) rhs lhs (one_at-SmallLines table lhs rhs h)

abbrev pub SmallDomains : InjectiveFunction → Type 0
SmallDomains f = Small f.domain.words × Small f.inverse_domain.words

-- The words of all sets of the tables
pub record SmallWords (s : Tables) : Type 0 where
  pub support : Small s.carrier.support.words
  pub unary_relations : Each (λ r. Small r.set.words) s.unary_relations
  pub binary_relations : Each SmallPair s.binary_relations
  pub injective_functions : Each SmallDomains s.injective_functions
  pub binary_functions : Each (λ f. SmallPair f.lines) s.binary_functions
  pub symmetric_functions : Each (λ f. SmallLines f.lines) s.symmetric_functions

map-Each {ℓ} :
    {A : Type ℓ} (Q : A → Type 0) (f : A → List ℕ) (xs : List A) (i : ℕ) (ws : List ℕ)
    → Each Q xs
    → ((x : A) → Q x → Small (f x))
    → Option.map f (get_elem? xs i) ≡ some ws
    → Small ws
map-Each Q f xs i ws h k e = elim (Option-cases (get_elem? xs i)) [
  | inl no_table ↦ absurd (ground arith)
  | inr (x, at) ↦ (let here : f x ≡ ws = ground arith in subst Small here (k x (h i x at)))
]

-- `words` gives such words for every reference.
pub words-Small :
    (s : Tables) (ref : SetRef) (ws : List ℕ) → SmallWords s → words s ref ≡ some ws → Small ws
unfolding words
words-Small s null ws h e = cc
words-Small s pomagma.Vm.SetRef.support ws h e = subst Small (cc) h.support
words-Small s (unary rel) ws h e =
    map-Each (λ r. Small r.set.words) _ s.unary_relations rel ws h.unary_relations (λ r k. k) e
words-Small s (binary_lx rel lhs) ws h e =
    map-Each SmallPair _ s.binary_relations rel ws h.binary_relations (λ r k. k.0 lhs) e
words-Small s (binary_rx rel rhs) ws h e =
    map-Each SmallPair _ s.binary_relations rel ws h.binary_relations (λ r k. k.1 rhs) e
words-Small s (injective fun) ws h e =
    map-Each SmallDomains _ s.injective_functions fun ws h.injective_functions (λ f k. k.0) e
words-Small s (inverse fun) ws h e =
    map-Each SmallDomains _ s.injective_functions fun ws h.injective_functions (λ f k. k.1) e
words-Small s (function_lx fun lhs) ws h e =
    map-Each (λ f. SmallPair f.lines) _ s.binary_functions fun ws h.binary_functions
      (λ f k. k.0 lhs) e
words-Small s (function_rx fun rhs) ws h e =
    map-Each (λ f. SmallPair f.lines) _ s.binary_functions fun ws h.binary_functions
      (λ f k. k.1 rhs) e
words-Small s (symmetric_lx fun lhs) ws h e =
    map-Each (λ f. SmallLines f.lines) _ s.symmetric_functions fun ws h.symmetric_functions
      (λ f k. k lhs) e

-- ===== src/Tables/Counts.antt =====
-- What a program of the virtual machine leaves alone in the tables of pomagma/atlas/macro: the set of
-- obs, the equalities between them, and the arrays of tables.
use mathlib.Core.Path.{subst}
use pomagma.Prelude.{
  ℕ, ◌≡◌, ◌≢◌, refl, sym, ◌∙◌, List, length, get_elem?, length-set, Each, set-Each, set,
}
use pomagma.Carrier.{Carrier}
use pomagma.Carrier.Root.{Decreasing}
use pomagma.Carrier.SameObs.{SameObs, ensure_equal-SameObs}
use pomagma.Carrier.Classes.{SameClass}
use pomagma.Carrier.Ends.{Coarser, Coarser-same, ensure_equal-ends}
use pomagma.DenseSet.Flip.{Small}
use pomagma.UnaryRelation.{UnaryRelation}
use pomagma.UnaryRelation
use pomagma.BinaryRelation.{BinaryRelation}
use pomagma.BinaryRelation
use pomagma.NullaryFunction.{NullaryFunction}
use pomagma.InjectiveFunction.{InjectiveFunction}
use pomagma.BinaryFunction.{BinaryFunction}
use pomagma.SymmetricFunction.{SymmetricFunction}
use pomagma.Vm.{
  Fact, unary_fact, binary_fact, App, nullary_app, injective_app, binary_app, symmetric_app,
  Program, Context, ok, err, no_fuel,
}
use pomagma.Vm.Execute.{execute}
use pomagma.Vm.Returns.{Returns, good, bind, or_missing}
use pomagma.Vm.Sound.{Keeps}
use pomagma.Vm.Total.{execute_lem}
use pomagma.Tables.{Tables, machine, insert_fact, insert, merge_obs}
use pomagma.Tables.Narrow.{
  SmallWords, SmallPair, SmallDomains, SmallLines, raw_insert-Small, insert_lx-SmallPair,
  words-Small,
}
use pomagma.Tables.Inserts.{
  SameObs-trans, nullary_insert-Gives, injective_insert-Gives, binary_insert-Gives,
  symmetric_insert-Gives,
}

-- The obs and the arrays of tables, as they were, and no class of equal obs split
pub record SameSpace (s s' : Tables) : Type 0 where
  pub obs : SameObs s.carrier s'.carrier
  pub classes : (x y : ℕ) → SameClass s.carrier x y → SameClass s'.carrier x y
  pub unary_relations : length s'.unary_relations ≡ length s.unary_relations
  pub binary_relations : length s'.binary_relations ≡ length s.binary_relations
  pub nullary_functions : length s'.nullary_functions ≡ length s.nullary_functions
  pub injective_functions : length s'.injective_functions ≡ length s.injective_functions
  pub binary_functions : length s'.binary_functions ≡ length s.binary_functions
  pub symmetric_functions : length s'.symmetric_functions ≡ length s.symmetric_functions

-- What the tables need for the merges of the carrier and the iterators to end: no parent is greater
-- than its ob, and the words of the sets have 64 bits.
pub record Steady (s : Tables) : Type 0 where
  pub decreasing : Decreasing s.carrier.reps
  pub small : SmallWords s

module _ (s0 : Tables) where
  abbrev pub Fits : Tables → Type 0
  Fits s = SameSpace s0 s × Steady s

  -- Other arrays of the same lengths, and a carrier with the same obs
  changed :
      (s : Tables) (c : Carrier) (us : List UnaryRelation) (bs : List BinaryRelation)
      (ns : List NullaryFunction) (is : List InjectiveFunction) (fs : List BinaryFunction)
      (ss : List SymmetricFunction)
      → Fits s
      → SameObs s.carrier c
      → Coarser s.carrier c
      → length ns ≡ length s.nullary_functions
      → (length us ≡ length s.unary_relations) × Each (λ r. Small r.set.words) us
      → (length bs ≡ length s.binary_relations) × Each SmallPair bs
      → (length is ≡ length s.injective_functions) × Each SmallDomains is
      → (length fs ≡ length s.binary_functions) × Each (λ f. SmallPair f.lines) fs
      → (length ss ≡ length s.symmetric_functions) × Each (λ f. SmallLines f.lines) ss
      → Fits (record {
        carrier = c;
        unary_relations = us;
        binary_relations = bs;
        nullary_functions = ns;
        injective_functions = is;
        binary_functions = fs;
        symmetric_functions = ss;
      })
  changed s c us bs ns is fs ss (k, h) o d n (u, u') (b, b') (i, i') (f, f') (y, y') = (
    record {
      obs = SameObs-trans s0.carrier s.carrier c k.obs o;
      classes = λ x y e. d.1 x y (k.classes x y e);
      unary_relations = u ∙ k.unary_relations;
      binary_relations = b ∙ k.binary_relations;
      nullary_functions = n ∙ k.nullary_functions;
      injective_functions = i ∙ k.injective_functions;
      binary_functions = f ∙ k.binary_functions;
      symmetric_functions = y ∙ k.symmetric_functions;
    },
    record {
      decreasing = d.0;
      small = record {
        support = subst (λ t. Small t.words) (sym o.0) h.small.support;
        unary_relations = u';
        binary_relations = b';
        injective_functions = i';
        binary_functions = f';
        symmetric_functions = y';
      };
    },
  )

  merge_obs-Fits : (s : Tables) (lhs rhs : ℕ) → Fits s → Returns Fits (merge_obs s lhs rhs)
  unfolding merge_obs
  merge_obs-Fits s lhs rhs k =
      let (ob, c, run, d) = ensure_equal-ends s.carrier lhs rhs k.1.decreasing in
      let w = k.1.small in
      rw run (
        good _ (
          changed s c s.unary_relations s.binary_relations s.nullary_functions s.injective_functions
            s.binary_functions s.symmetric_functions k
            (ensure_equal-SameObs s.carrier c lhs rhs ob run) d refl (refl, w.unary_relations)
            (refl, w.binary_relations) (refl, w.injective_functions) (refl, w.binary_functions)
            (refl, w.symmetric_functions)))

  insert_fact-Fits : (s : Tables) (fact : Fact) → Fits s → Returns Fits (insert_fact s fact)
  unfolding insert_fact UnaryRelation.insert
  insert_fact-Fits s (unary_fact rel key) k =
      let w = k.1.small in
      bind _ (or_missing (get_elem? s.unary_relations rel)) λ r at. good _ (
        changed s s.carrier (set s.unary_relations rel (UnaryRelation.insert r key))
          s.binary_relations s.nullary_functions s.injective_functions s.binary_functions
          s.symmetric_functions k (refl, refl) (Coarser-same s.carrier k.1.decreasing) refl
          (
            length-set s.unary_relations rel (UnaryRelation.insert r key),
            set-Each (λ r. Small r.set.words) s.unary_relations rel (UnaryRelation.insert r key)
                w.unary_relations (raw_insert-Small r.set key (w.unary_relations rel r at)),
          )
          (refl, w.binary_relations) (refl, w.injective_functions) (refl, w.binary_functions)
          (refl, w.symmetric_functions))
  insert_fact-Fits s (binary_fact rel lhs rhs) k =
      let w = k.1.small in
      bind _ (or_missing (get_elem? s.binary_relations rel)) λ r at.
        let r' = BinaryRelation.insert_lx lhs rhs r in
        good _ (
          changed s s.carrier s.unary_relations (set s.binary_relations rel r') s.nullary_functions
            s.injective_functions s.binary_functions s.symmetric_functions k (refl, refl)
            (Coarser-same s.carrier k.1.decreasing) refl (refl, w.unary_relations)
            (
              length-set s.binary_relations rel r',
              set-Each SmallPair s.binary_relations rel r' w.binary_relations
                  (insert_lx-SmallPair lhs rhs r (w.binary_relations rel r at)),
            )
            (refl, w.injective_functions) (refl, w.binary_functions) (refl, w.symmetric_functions))

  insert-Fits : (s : Tables) (app : App) (val : ℕ) → Fits s → Returns Fits (insert s app val)
  unfolding insert
  insert-Fits s (nullary_app fun) val k =
      let w = k.1.small in
      bind _ (or_missing (get_elem? s.nullary_functions fun)) λ f at.
        let (f', c, run, o, d) = nullary_insert-Gives s.carrier val f k.1.decreasing in
        rw run (
          good _ (
            changed s c s.unary_relations s.binary_relations (set s.nullary_functions fun f')
              s.injective_functions s.binary_functions s.symmetric_functions k o d
              (length-set s.nullary_functions fun f') (refl, w.unary_relations)
              (refl, w.binary_relations) (refl, w.injective_functions) (refl, w.binary_functions)
              (refl, w.symmetric_functions)))
  insert-Fits s (injective_app fun key) val k =
      let w = k.1.small in
      bind _ (or_missing (get_elem? s.injective_functions fun)) λ f at.
        let (f', c, run, o, d, small) =
          injective_insert-Gives s.carrier key val f k.1.decreasing
            (w.injective_functions fun f at) in
        rw run (
          good _ (
            changed s c s.unary_relations s.binary_relations s.nullary_functions
              (set s.injective_functions fun f') s.binary_functions s.symmetric_functions k o d refl
              (refl, w.unary_relations) (refl, w.binary_relations)
              (
                length-set s.injective_functions fun f',
                set-Each SmallDomains s.injective_functions fun f' w.injective_functions small,
              )
              (refl, w.binary_functions) (refl, w.symmetric_functions)))
  insert-Fits s (binary_app fun lhs rhs) val k =
      let w = k.1.small in
      bind _ (or_missing (get_elem? s.binary_functions fun)) λ f at.
        let (f', c, run, o, d, small) =
          binary_insert-Gives s.carrier lhs rhs val f k.1.decreasing
            (w.binary_functions fun f at) in
        rw run (
          good _ (
            changed s c s.unary_relations s.binary_relations s.nullary_functions
              s.injective_functions (set s.binary_functions fun f') s.symmetric_functions k o d refl
              (refl, w.unary_relations) (refl, w.binary_relations) (refl, w.injective_functions)
              (
                length-set s.binary_functions fun f',
                set-Each (λ f. SmallPair f.lines) s.binary_functions fun f' w.binary_functions
                    small,
              )
              (refl, w.symmetric_functions)))
  insert-Fits s (symmetric_app fun lhs rhs) val k =
      let w = k.1.small in
      bind _ (or_missing (get_elem? s.symmetric_functions fun)) λ f at.
        let (f', c, run, o, d, small) =
          symmetric_insert-Gives s.carrier lhs rhs val f k.1.decreasing
            (w.symmetric_functions fun f at) in
        rw run (
          good _ (
            changed s c s.unary_relations s.binary_relations s.nullary_functions
              s.injective_functions s.binary_functions (set s.symmetric_functions fun f') k o d refl
              (refl, w.unary_relations) (refl, w.binary_relations) (refl, w.injective_functions)
              (refl, w.binary_functions)
              (
                length-set s.symmetric_functions fun f',
                set-Each (λ f. SmallLines f.lines) s.symmetric_functions fun f'
                    w.symmetric_functions small,
              )))

  pub machine-Keeps : (item_dim : ℕ) → Keeps (machine item_dim) Fits
  unfolding machine
  machine-Keeps item_dim = record {
    ensure_equal = merge_obs-Fits;
    insert_fact = insert_fact-Fits;
    insert = insert-Fits;
    small = λ s ref ws k e. words-Small s ref ws k.1.small e;
  }

pub SameSpace-refl : (s : Tables) → SameSpace s s
SameSpace-refl s = record {
  obs = (refl, refl);
  classes = λ x y e. e;
  unary_relations = refl;
  binary_relations = refl;
  nullary_functions = refl;
  injective_functions = refl;
  binary_functions = refl;
  symmetric_functions = refl;
}

-- On tables of the macro atlas whose carrier has no parent greater than its ob, and whose sets have
-- words of 64 bits, every program ends, with a result or with a fault other than missing fuel: its
-- loops, the iterators and the merges of the carrier all stop. If it ends with a result, the carrier
-- has the obs that it had, and the same count of them, obs that were equal are equal, there are as
-- many tables of each kind, and both conditions hold again.
pub execute-SameSpace :
    (item_dim : ℕ) (p : Program) (c : Context) (s : Tables)
    → Steady s
    → (execute (machine item_dim) p c s ≢ err no_fuel)
      × ((c' : Context) (s' : Tables)
          → execute (machine item_dim) p c s ≡ ok (c', s')
          → SameSpace s s' × Steady s')
execute-SameSpace item_dim p c s steady =
    execute_lem (machine item_dim) (Fits s) (machine-Keeps s item_dim) p c s
      (SameSpace-refl s, steady)

-- ===== src/Tables/Inserts.antt =====
-- The insertions into the functions of pomagma/atlas/macro end, on any carrier where no parent is greater
-- than its ob.
use pomagma.Prelude.{ℕ, ◌≡◌, refl, ◌∙◌, inl, inr, ◌==◌, Option, some, set, Bool-cases}
use pomagma.Prelude.Table.{pair_key, put}
use pomagma.Carrier.{Carrier}
use pomagma.Carrier.Root.{Decreasing}
use pomagma.Carrier.SameObs.{SameObs, set_or_merge-SameObs, set_and_merge-SameObs}
use pomagma.Carrier.Ends.{
  Coarser, Coarser-same, Coarser-trans, set_or_merge-ends, set_and_merge-ends,
}
use pomagma.NullaryFunction.{NullaryFunction}
use pomagma.NullaryFunction
use pomagma.InjectiveFunction.{InjectiveFunction, one_if}
use pomagma.InjectiveFunction
use pomagma.BinaryFunction.{BinaryFunction, one_pair}
use pomagma.BinaryFunction
use pomagma.SymmetricFunction.{SymmetricFunction, one_both, make_sorted_pair}
use pomagma.SymmetricFunction
use pomagma.Tables.Narrow.{
  SmallDomains, one_if-Small, SmallPair, one_pair-SmallPair, SmallLines, one_both-SmallLines,
}

pub SameObs-trans : (a b c : Carrier) → SameObs a b → SameObs b c → SameObs a c
SameObs-trans a b c (p, q) (r, t) = (r ∙ p, t ∙ q)

-- An insertion gives a function of a kind and a carrier with the same obs.
abbrev pub Gives {ℓ} : {F : Type ℓ} → (F → Type 0) → Carrier → Option (F × Carrier) → Type ℓ
Gives {F} Q c o =
    (f' : F) × (c' : Carrier) × (o ≡ some (f', c')) × SameObs c c' × Coarser c c' × Q f'

pub nullary_insert-Gives :
    (c : Carrier) (val : ℕ) (f : NullaryFunction)
    → Decreasing c.reps
    → (f' : NullaryFunction) × (c' : Carrier) × (NullaryFunction.insert c val f ≡ some (f', c'))
      × SameObs c c'
      × Coarser c c'
unfolding NullaryFunction.insert
nullary_insert-Gives c val f d =
    let (b, ob, c', run, d') = set_or_merge-ends c f.value val d in
    (record { value = ob }, c', rw run refl, set_or_merge-SameObs c c' f.value val ob b run, d')

pub injective_insert-Gives :
    (c : Carrier) (key val : ℕ) (f : InjectiveFunction)
    → Decreasing c.reps
    → SmallDomains f
    → Gives SmallDomains c (InjectiveFunction.insert c key val f)
unfolding InjectiveFunction.insert
injective_insert-Gives c key val f d (small, small') =
    let old = InjectiveFunction.find f key in
    let old' = InjectiveFunction.inverse_find f val in
    let (b, ob, c₁, run, d₁) = set_or_merge-ends c old val d in
    let (b', ob', c₂, run', d₂) = set_or_merge-ends c₁ old' key d₁.0 in
    (
      record {
        domain = one_if b f.domain key;
        inverse_domain = one_if b' f.inverse_domain val;
        values = set f.values key ob;
        inverse = set f.inverse val ob';
      },
      c₂,
      rw (run, run') refl,
      SameObs-trans c c₁ c₂ (set_or_merge-SameObs c c₁ old val ob b run)
          (set_or_merge-SameObs c₁ c₂ old' key ob' b' run'),
      Coarser-trans c c₁ c₂ d₁ d₂,
      (one_if-Small b f.domain key small, one_if-Small b' f.inverse_domain val small'),
    )

pub binary_insert-Gives :
    (c : Carrier) (lhs rhs val : ℕ) (f : BinaryFunction)
    → Decreasing c.reps
    → SmallPair f.lines
    → Gives (λ f'. SmallPair f'.lines) c (BinaryFunction.insert c lhs rhs val f)
unfolding BinaryFunction.insert
binary_insert-Gives c lhs rhs val f d small =
    let old = BinaryFunction.find f lhs rhs in
    elim (Bool-cases (old == 0)) [
      | inl undefined ↦ (
        record { lines = one_pair lhs rhs f.lines; values = put f.values (lhs, rhs) val },
        c,
        rw undefined refl,
        (refl, refl),
        Coarser-same c d,
        one_pair-SmallPair lhs rhs f.lines small,
      )
      | inr value ↦
          let (b, ob, c', run, d') = set_and_merge-ends c old val d in
          (
            record { lines = f.lines; values = put f.values (lhs, rhs) ob },
            c',
            rw (value, run) refl,
            set_and_merge-SameObs c c' old val ob b run,
            d',
            small,
          )
    ]

pub symmetric_insert-Gives :
    (c : Carrier) (lhs rhs val : ℕ) (f : SymmetricFunction)
    → Decreasing c.reps
    → SmallLines f.lines
    → Gives (λ f'. SmallLines f'.lines) c (SymmetricFunction.insert c lhs rhs val f)
unfolding SymmetricFunction.insert
symmetric_insert-Gives c lhs rhs val f d small =
    let old = SymmetricFunction.find f lhs rhs in
    let pair = make_sorted_pair lhs rhs in
    elim (Bool-cases (old == 0)) [
      | inl undefined ↦ (
        record { lines = one_both lhs rhs f.lines; values = put f.values pair val },
        c,
        rw undefined refl,
        (refl, refl),
        Coarser-same c d,
        one_both-SmallLines lhs rhs f.lines small,
      )
      | inr value ↦
          let (b, ob, c', run, d') = set_and_merge-ends c old val d in
          (
            record { lines = f.lines; values = put f.values pair ob },
            c',
            rw (value, run) refl,
            set_and_merge-SameObs c c' old val ob b run,
            d',
            small,
          )
    ]

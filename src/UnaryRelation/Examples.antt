-- ===== src/UnaryRelation/Examples.antt =====
-- The relation of one ob that was merged: tests of the operations, and the theorems there.
use pomagma.Prelude.{
  ℕ, ◌≡◌, ◌≢◌, ◌↔◌, refl, true, false, not, ◌&&◌, ◌||◌, ◌==◌, ==_iff, some, arith, Bool-cases, inl,
  inr,
}
use pomagma.DenseSet.{IsValid, contains, insert, new}
use pomagma.DenseSet.Element.{contains-insert, contains-new, insert-IsValid, new-IsValid}
use pomagma.Carrier.{item_dim}
use pomagma.Carrier.Root.{root}
use pomagma.Carrier.Examples.{sample, sample-IsValid}
use pomagma.UnaryRelation.{UnaryRelation, resize, unsafe_merge, validate_disjoint}
use pomagma.UnaryRelation.Laws.{IsOver, unsafe_merge_lem, resize_lem, validate_disjoint_lem}

abbrev three_only : UnaryRelation
three_only = record { set = insert (new 4) 3 }

three_only-IsValid : IsValid (insert (new 4) 3)
three_only-IsValid = insert-IsValid (new-IsValid 4) 3 (unfold new in omega arith) (omega arith)

three_in_sample : contains sample.support 3 ≡ true
unfolding contains
three_in_sample = refl

one_is_root : root sample.reps 3 ≢ 3
unfolding root
one_is_root e = absurd (omega arith)

three_only-IsOver : IsOver sample three_only
unfolding new insert
three_only-IsOver = record {
  valid = three_only-IsValid;
  size = refl;
  supported = λ ob h. elim (Bool-cases (3 == ob)) [
    | inl y ↦ rw ((==_iff 3 ob).0 y) at three_in_sample
    | inr n ↦ absurd (
        ground (
          arith,
          contains-insert (new-IsValid 4) 3 (unfold new in omega arith) ob,
          contains-new 4 ob,
        ))
  ];
}

unsafe_merge_lem_example :
    (r' : UnaryRelation) × (unsafe_merge sample 3 three_only ≡ some r')
    × IsOver sample r'
    × ((j : ℕ)
        → contains r'.set j ≡ (
            not (3 == j)
            && (contains three_only.set j
                || (contains three_only.set 3 && root sample.reps 3 == j))))
unsafe_merge_lem_example =
    unsafe_merge_lem sample 3 three_only sample-IsValid three_only-IsOver three_in_sample
      one_is_root

resize_lem_example :
    (r : UnaryRelation) × (resize sample three_only ≡ some r)
    × IsValid r.set
    × (r.set.item_dim ≡ item_dim sample)
    × ((j : ℕ) → contains r.set j ≡ contains three_only.set j)
resize_lem_example =
    resize_lem sample three_only three_only-IsValid (unfold new insert in omega arith)

validate_disjoint_lem_example : (validate_disjoint sample three_only sample three_only ≡ true) ↔ (
    (item_dim sample ≡ item_dim sample)
    × ((j : ℕ) → contains sample.support j ≡ contains sample.support j)
    × ((j : ℕ) → (contains three_only.set j && contains three_only.set j) ≡ false))
validate_disjoint_lem_example =
    validate_disjoint_lem sample sample three_only three_only sample-IsValid sample-IsValid
      three_only-IsOver three_only-IsOver

-- ===== src/BinaryRelation/Examples.antt =====
-- Relations over a carrier with a merged ob: tests of the operations, and the theorems there.
use pomagma.Prelude.{ℕ, ◌≡◌, ◌≢◌, refl, true, not, ◌&&◌, ◌||◌, ◌==◌, some, arith}
use pomagma.DenseSet.{contains}
use pomagma.Carrier.Root.{root}
use pomagma.Carrier.Examples.{sample, sample-IsValid}
use pomagma.BinaryRelation.{
  BinaryRelation, empty, find_lx, insert_lx, insert_rx, insert_row, unsafe_merge,
}
use pomagma.BinaryRelation.Merge.{IsOver, merge_lines_lem}
use pomagma.BinaryRelation.Insert.{empty-IsOver, insert_pair_lem, insert_row_lem}

in_sample : (contains sample.support 2 ≡ true) × (contains sample.support 3 ≡ true)
unfolding contains
in_sample = (refl, refl)

other_root : root sample.reps 3 ≢ 3
unfolding root
other_root e = absurd (omega arith)

-- 3 is related to 2.
abbrev one_pair : BinaryRelation
one_pair = insert_lx 3 2 (empty sample)

one_pair-IsOver : IsOver sample one_pair
one_pair-IsOver =
    (insert_pair_lem sample 3 2 (empty sample) sample-IsValid (empty-IsOver sample) in_sample.1
      in_sample.0).0

insert_pair_lem_example :
    IsOver sample one_pair
    × IsOver sample (insert_rx 3 2 (empty sample))
    × ((a b : ℕ) → find_lx one_pair a b ≡ (find_lx (empty sample) a b || (3 == a && 2 == b)))
    × ((a b : ℕ)
        → find_lx (insert_rx 3 2 (empty sample)) a b
          ≡ (find_lx (empty sample) a b || (3 == a && 2 == b)))
insert_pair_lem_example =
    insert_pair_lem sample 3 2 (empty sample) sample-IsValid (empty-IsOver sample) in_sample.1
      in_sample.0

merge_lines_lem_example :
    (r' : BinaryRelation) × (unsafe_merge sample 3 one_pair ≡ some r')
    × IsOver sample r'
    × ((a b : ℕ)
        → find_lx r' a b ≡ (
            not (3 == a)
            && not (3 == b)
            && (find_lx one_pair a b
                || (root sample.reps 3 == a && find_lx one_pair 3 b)
                || (root sample.reps 3 == b && find_lx one_pair a 3)
                || (root sample.reps 3 == a && root sample.reps 3 == b && find_lx one_pair 3 3))))
merge_lines_lem_example =
    merge_lines_lem sample 3 one_pair sample-IsValid one_pair-IsOver in_sample.1 other_root

insert_row_lem_example :
    (r' : BinaryRelation) × (insert_row 2 sample.support one_pair ≡ some r')
    × IsOver sample r'
    × ((a b : ℕ) → find_lx r' a b ≡ (find_lx one_pair a b || (2 == a && contains sample.support b)))
insert_row_lem_example =
    insert_row_lem sample 2 sample.support one_pair sample-IsValid one_pair-IsOver in_sample.0
      record { valid = sample-IsValid.set; size = refl; items = λ i. refl } (λ j h. h)

-- ===== src/InjectiveFunction/Examples.antt =====
-- Functions over a carrier of three obs: tests of the operations, and the theorems there.
use pomagma.Prelude.{ℕ, ◌≡◌, ◌≢◌, refl, [], ◌∷◌, true, some, Bool, ◌↔◌, ◌≤◌, arith}
use pomagma.DenseSet.{contains}
use pomagma.Carrier.{Carrier}
use pomagma.Carrier.Inv
use pomagma.Carrier.Classes.{SameClass}
use pomagma.Carrier.Examples.{sample, sample-IsValid}
use pomagma.InjectiveFunction.{
  InjectiveFunction, create, find, inverse_find, insert, unsafe_merge, validate_entries,
}
use pomagma.InjectiveFunction.Insert.{IsOver, insert_lem}
use pomagma.InjectiveFunction.Validate.{Consistent, create-IsOver, validate_entries_iff}

in_sample : (contains sample.support 1 ≡ true) × (contains sample.support 2 ≡ true)
unfolding contains
in_sample = (refl, refl)

insert_lem_example :
    (f' : InjectiveFunction) × (c' : Carrier) × (insert sample 1 2 (create sample) ≡ some (f', c'))
    × Inv.IsValid c'
    × (c'.support ≡ sample.support)
    × ((x y : ℕ) → SameClass sample x y → SameClass c' x y)
    × IsOver c' f'
    × (find f' 1 ≢ 0)
    × SameClass c' (find f' 1) 2
    × (inverse_find f' 2 ≢ 0)
    × SameClass c' (inverse_find f' 2) 1
    × ((k : ℕ) → k ≢ 1 → find f' k ≡ find (create sample) k)
    × ((w : ℕ) → w ≢ 2 → inverse_find f' w ≡ inverse_find (create sample) w)
insert_lem_example =
    insert_lem sample 1 2 (create sample) sample-IsValid (create-IsOver sample) in_sample.0
      in_sample.1

validate_entries_iff_example :
    (b : Bool) × (validate_entries sample (create sample) ≡ some b)
    × ((b ≡ true) ↔ (
        (i : ℕ)
        → 1 ≤ i
        → i ≤ 4
        → Consistent sample (create sample).domain (create sample).values (create sample).inverse i
          × Consistent sample
              (create sample).inverse_domain
              (create sample).inverse
              (create sample).values
              i))
validate_entries_iff_example =
    validate_entries_iff sample (create sample) sample-IsValid (omega arith)

-- A function with the one pair 3 -> 2, where 3 was merged into 1.
abbrev one_pair : InjectiveFunction
one_pair = record {
  domain = record { item_dim = 4; words = 8 ∷ [] };
  inverse_domain = record { item_dim = 4; words = 4 ∷ [] };
  values = 0 ∷ 0 ∷ 0 ∷ 2 ∷ 0 ∷ [];
  inverse = 0 ∷ 0 ∷ 3 ∷ 0 ∷ 0 ∷ [];
}

-- `set_and_merge` gets the representative's value 0: the value 2 goes to the ob 0 and the pair is lost.
pair_lost :
    unsafe_merge sample 3 one_pair
    ≡ some (
      record {
        domain = record { item_dim = 4; words = 2 ∷ [] };
        inverse_domain = record { item_dim = 4; words = 4 ∷ [] };
        values = 0 ∷ 0 ∷ 0 ∷ 0 ∷ 0 ∷ [];
        inverse = 0 ∷ 0 ∷ 1 ∷ 0 ∷ 0 ∷ [];
      },
      record {
        support = record { item_dim = 4; words = 14 ∷ [] };
        item_count = 3;
        rep_count = 1;
        reps = 0 ∷ 1 ∷ 0 ∷ 1 ∷ 0 ∷ [];
        merged = 3 ∷ 2 ∷ [];
      },
    )
unfolding unsafe_merge pomagma.Carrier.find pomagma.Carrier.find_fuel pomagma.DenseSet.try_remove
    pomagma.Word.fetch_zero pomagma.Carrier.set_and_merge pomagma.Carrier.ensure_equal
    pomagma.Carrier.merge pomagma.Carrier.merge_loop pomagma.DenseSet.Iter.iter_words
    pomagma.DenseSet.Iter.next_block pomagma.DenseSet.raw_insert pomagma.Word.one_bit
    pomagma.DenseSet.Iter.first_bit pomagma.DenseSet.Iter.visit pomagma.DenseSet.Iter.next
    pomagma.DenseSet.Iter.next_bit pomagma.Carrier.link pomagma.InjectiveFunction.move
    pomagma.InjectiveFunction.replace_each pomagma.Word.load pomagma.Word.zero_bit
pair_lost = refl

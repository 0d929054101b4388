-- ===== src/DenseSet/Examples.antt =====
-- Dense sets of two words: tests of the operations, and the theorems at such sets.
use pomagma.Prelude.{
  ℕ, ◌+◌, ◌≤◌, ◌≡◌, ◌↔◌, refl, [], ◌∷◌, true, false, not, ◌&&◌, ◌||◌, some, arith,
}
use pomagma.Prelude.Count.{count}
use pomagma.DenseSet.{DenseSet, IsValid, contains, insert, new}
use pomagma.DenseSet.Element.{new-IsValid, insert-IsValid}
use pomagma.DenseSet.Whole.{
  set_union, set_insn, set_insn3, set_diff, set_ppn, set_pnn, set_ppnn, merge_diff, ensure, subset,
  equal, likely_disjoint, unlikely_disjoint,
}
use pomagma.DenseSet.Scan.{count_items, max_item, insert_one, validate, insert_all}
use pomagma.DenseSet.Sets.{Items, binary_sets, ternary_sets, merge_diff_sets, ensure_sets}
use pomagma.DenseSet.Order.{subset_iff, disjoint_iff, equal_iff}
use pomagma.DenseSet.Size.{count_items_lem}
use pomagma.DenseSet.Iter.{SetIterator, iter_words, visit, intersection}
use pomagma.DenseSet.Items.{Visits, intersection-Visits}
use pomagma.DenseSet.Max.{max_item_lem}
use pomagma.DenseSet.InsertOne.{FreeItem, insert_one_lem}

-- Items 1 and 64 of 70, and items 1 and 65.
abbrev left : DenseSet
left = insert (insert (new 70) 1) 64

abbrev right : DenseSet
right = insert (insert (new 70) 1) 65

start-IsValid : IsValid (insert (new 70) 1)
start-IsValid = insert-IsValid (new-IsValid 70) 1 (unfold new in omega arith) (omega arith)

left-IsValid : IsValid left
left-IsValid = insert-IsValid start-IsValid 64 (unfold new insert in omega arith) (omega arith)

right-IsValid : IsValid right
right-IsValid = insert-IsValid start-IsValid 65 (unfold new insert in omega arith) (omega arith)

abbrev left_items : Items 70 (contains left) left
left_items = record { valid = left-IsValid; size = unfold new insert in refl; items = λ i. refl }

abbrev right_items : Items 70 (contains right) right
right_items = record { valid = right-IsValid; size = unfold new insert in refl; items = λ i. refl }

left_words : left.words ≡ 2 ∷ 1 ∷ []
unfolding new insert pomagma.Word.one_bit
left_words = refl

left_counts : (count_items left ≡ 2) × (max_item left ≡ 64) × (validate left ≡ true)
unfolding new insert pomagma.Word.one_bit count_items max_item validate
left_counts = (refl, refl, refl)

all_of_three : (insert_all (new 3)).words ≡ 14 ∷ []
unfolding new insert_all
all_of_three = refl

count_items_lem_example : count_items left ≡ count (left.item_dim + 1) (contains left)
count_items_lem_example = count_items_lem left-IsValid

max_item_lem_example :
    ((j : ℕ)
      → contains left j ≡ true
      → (contains left (max_item left) ≡ true) × (j ≤ max_item left))
    × (((j : ℕ) → contains left j ≡ false) → max_item left ≡ 0)
max_item_lem_example = max_item_lem left-IsValid

insert_one_lem_example : (i : ℕ) × (insert_one left ≡ some (i, insert left i)) × FreeItem left i
insert_one_lem_example =
    insert_one_lem left 2 left-IsValid (omega arith) (unfold new insert in omega arith)
      (unfold new insert contains pomagma.Word.one_bit in refl)

binary_sets_example :
    Items 70 (λ i. contains left i || contains right i) (set_union left left right)
    × Items 70 (λ i. contains left i && contains right i) (set_insn left left right)
    × Items 70 (λ i. contains left i && not (contains right i)) (set_diff left left right)
binary_sets_example = binary_sets 70 left left right left_items.size left_items right_items

ternary_sets_example :
    Items 70
      (λ i. contains left i && contains right i && contains left i)
      (set_insn3 left left right left)
    × Items 70
        (λ i. contains left i && contains right i && not (contains left i))
        (set_ppn left left right left)
    × Items 70
        (λ i. contains left i && not (contains right i || contains left i))
        (set_pnn left left right left)
    × Items 70
        (λ i. contains left i && contains right i && not (contains left i || contains right i))
        (set_ppnn left left right left right)
ternary_sets_example =
    ternary_sets 70 left left right left_items.size left_items right_items left_items right_items

merge_diff_sets_example :
    let (s', dep', diff', changed) = merge_diff left right left in
    Items 70 (λ i. contains left i || contains right i) s'
    × Items 70 (λ i. false) dep'
    × Items 70 (λ i. contains right i && not (contains left i)) diff'
    × ((changed ≡ false) ↔ ((i : ℕ) → (contains right i && not (contains left i)) ≡ false))
merge_diff_sets_example = merge_diff_sets 70 left right left left_items right_items left_items.size

ensure_sets_example :
    let (s', diff', changed) = ensure left right left in
    Items 70 (λ i. contains left i || contains right i) s'
    × Items 70 (λ i. contains right i && not (contains left i)) diff'
    × ((changed ≡ false) ↔ ((i : ℕ) → (contains right i && not (contains left i)) ≡ false))
ensure_sets_example = ensure_sets 70 left right left left_items right_items left_items.size

subset_iff_example :
    (subset left right ≡ true) ↔ ((i : ℕ) → contains left i ≡ true → contains right i ≡ true)
subset_iff_example = subset_iff left-IsValid right-IsValid (unfold new insert in refl)

disjoint_iff_example :
    ((likely_disjoint left right ≡ true)
      ↔ ((i : ℕ) → (contains left i && contains right i) ≡ false))
    × (unlikely_disjoint left right ≡ likely_disjoint left right)
disjoint_iff_example = disjoint_iff left-IsValid right-IsValid (unfold new insert in refl)

equal_iff_example : (equal left right ≡ true) ↔ ((i : ℕ) → contains left i ≡ contains right i)
equal_iff_example = equal_iff left-IsValid right-IsValid (unfold new insert in refl)

intersection-Visits_example :
    Visits 70 (contains left) (intersection left.words [] [])
    × Visits 70
        (λ i. contains left i && contains right i)
        (intersection left.words (right.words ∷ []) [])
    × Visits 70
        (λ i. (contains left i && contains right i) && contains left i)
        (intersection left.words (right.words ∷ left.words ∷ []) [])
    × Visits 70
        (λ i. contains left i && not (contains right i))
        (intersection left.words [] (right.words ∷ []))
intersection-Visits_example = intersection-Visits 70 left_items right_items left_items

visit_left :
    (it : SetIterator) × (iter_words left.words ≡ some it) × (visit 71 it ≡ some (1 ∷ 64 ∷ []))
unfolding new insert pomagma.Word.one_bit iter_words visit pomagma.DenseSet.Iter.next_block
    pomagma.DenseSet.Iter.first_bit pomagma.DenseSet.Iter.next pomagma.DenseSet.Iter.next_bit
visit_left = (record { i = 1; rem = 1; quot = 0; word = 1; rest = 1 ∷ [] }, refl, refl)

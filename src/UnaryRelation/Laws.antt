-- ===== src/UnaryRelation/Laws.antt =====
-- The items of a unary relation after a merge and after a change of size.
use pomagma.Prelude.{
  ℕ, ◌+◌, ◌≤◌, ◌≡◌, ◌≢◌, ◌↔◌, refl, sym, ap, ◌∙◌, List, [], ◌∷◌, Bool, true, false, not, ◌&&◌, ◌||◌,
  ◌==◌, ==_iff, some, arith, Bool-cases, inl, inr,
}
use pomagma.Prelude.Count.{count, count_congr}
use pomagma.DenseSet.Whole.{equal, likely_disjoint}
use pomagma.DenseSet.Scan.{count_items}
use pomagma.DenseSet.{DenseSet, IsValid, contains, insert, remove, new, raw_insert}
use pomagma.DenseSet.Element.{
  contains-insert, contains-remove, insert-IsValid, remove-IsValid, raw_insert-eq-insert,
  try_remove_lem, new-IsValid, contains-new,
}
use pomagma.DenseSet.Items.{members, elem, elem-members, visit_items}
use pomagma.DenseSet.Order.{equal_iff, disjoint_iff}
use pomagma.DenseSet.Size.{count_items_lem}
use pomagma.Carrier.{Carrier, item_dim}
use pomagma.Carrier.Root.{root}
use pomagma.Carrier.Inv
use pomagma.Carrier.Find.{find-root, root-supported}
use pomagma.UnaryRelation.{UnaryRelation, raw_insert_each, resize, unsafe_merge, validate_disjoint}

-- A relation over a carrier: a valid set of the carrier's size, of obs of the carrier.
pub record IsOver (c : Carrier) (r : UnaryRelation) : Type 0 where
  pub valid : IsValid r.set
  pub size : r.set.item_dim ≡ item_dim c
  pub supported : (ob : ℕ) → contains r.set ob ≡ true → contains c.support ob ≡ true

insert-size : (s : DenseSet) (i : ℕ) → (insert s i).item_dim ≡ s.item_dim
unfolding insert
insert-size s i = refl

remove-size : (s : DenseSet) (i : ℕ) → (remove s i).item_dim ≡ s.item_dim
unfolding remove
remove-size s i = refl

new-size : (n : ℕ) → (new n).item_dim ≡ n
unfolding new
new-size n = refl

-- For an ob `dep` of a valid carrier that has another representative, `unsafe_merge` ends. The new
-- relation is one over the carrier again; `dep` is not in it; its representative is in it if one
-- of the two was; every other ob is in it exactly if it was.
pub unsafe_merge_lem :
    (c : Carrier) (dep : ℕ) (r : UnaryRelation)
    → Inv.IsValid c
    → IsOver c r
    → contains c.support dep ≡ true
    → root c.reps dep ≢ dep
    → (r' : UnaryRelation) × (unsafe_merge c dep r ≡ some r')
      × IsOver c r'
      × ((j : ℕ)
          → contains r'.set j ≡ (
              not (dep == j) && (contains r.set j || (contains r.set dep && root c.reps dep == j))))
unfolding unsafe_merge
unsafe_merge_lem c dep r v o on ne =
    let rep = root c.reps dep in
    let on_rep = root-supported v dep on in
    let (_, dep_le) = v.set.ranged dep on in
    let (rep_low, rep_le) = v.set.ranged rep on_rep in
    let fits : dep ≤ r.set.item_dim = omega (arith, o.size) in
    let s = remove r.set dep in
    let s_valid = remove-IsValid o.valid dep fits in
    let s_items = contains-remove o.valid dep fits in
    let s_size = remove-size r.set dep in
    let fits' : rep ≤ s.item_dim = omega (arith, o.size, s_size) in
    elim (Bool-cases (contains r.set dep)) [
      | inl was ↦ (
        record { set = insert s rep },
        rw (find-root v dep, try_remove_lem r.set dep, was, raw_insert-eq-insert s rep) refl,
        record {
          valid = insert-IsValid s_valid rep fits' rep_low;
          size = insert-size s rep ∙ s_size ∙ o.size;
          supported = λ j h. elim (Bool-cases (rep == j)) [
            | inl y ↦ rw ((==_iff rep j).0 y) at on_rep
            | inr n ↦ o.supported j (ground (arith, contains-insert s_valid rep fits' j, s_items j))
          ];
        },
        λ j. ground (arith, contains-insert s_valid rep fits' j, s_items j),
      )
      | inr was ↦ (
        record { set = s },
        rw (find-root v dep, try_remove_lem r.set dep, was) refl,
        record {
          valid = s_valid;
          size = s_size ∙ o.size;
          supported = λ j h. o.supported j (ground (arith, s_items j));
        },
        λ j. ground (arith, s_items j),
      )
    ]

raw_insert_each_lem :
    (obs : List ℕ) (s : DenseSet) (n : ℕ)
    → IsValid s
    → s.item_dim ≡ n
    → ((j : ℕ) → elem obs j ≡ true → (1 ≤ j) × (j ≤ n))
    → IsValid (raw_insert_each obs s)
      × ((raw_insert_each obs s).item_dim ≡ n)
      × ((j : ℕ) → contains (raw_insert_each obs s) j ≡ (elem obs j || contains s j))
unfolding raw_insert_each raw_insert insert
raw_insert_each_lem [] s n v size h = (v, size, λ j. refl)
raw_insert_each_lem (ob ∷ obs) s n v size h =
    let (low, le) = h ob (ground arith) in
    let fits : ob ≤ s.item_dim = omega (arith, size) in
    let (v', size', items) =
      raw_insert_each_lem obs (insert s ob) n (insert-IsValid v ob fits low)
        (insert-size s ob ∙ size) (λ j e. h j (ground arith)) in
    (v', size', λ j. ground (arith, items j, contains-insert v ob fits j))

-- The constructor that resizes ends for every relation with a valid set whose size fits the new
-- carrier, and keeps its items.
pub resize_lem :
    (c : Carrier) (other : UnaryRelation)
    → IsValid other.set
    → other.set.item_dim ≤ item_dim c
    → (r : UnaryRelation) × (resize c other ≡ some r)
      × IsValid r.set
      × (r.set.item_dim ≡ item_dim c)
      × ((j : ℕ) → contains r.set j ≡ contains other.set j)
unfolding resize
resize_lem c other v le =
    let (it, made, visited) = visit_items other.set v in
    let obs = members (contains other.set) 1 other.set.item_dim in
    let mem = elem-members (contains other.set) other.set.item_dim 1 in
    let (v', size, items) =
      raw_insert_each_lem obs (new (item_dim c)) (item_dim c) (new-IsValid (item_dim c))
        (new-size (item_dim c)) (λ j h. ground (arith, mem j)) in
    (
      record { set = raw_insert_each obs (new (item_dim c)) },
      rw (made, visited) refl,
      v',
      size,
      λ j. elim (Bool-cases (contains other.set j)) [
        | inl y ↦
            let (low, high) = v.ranged j y in
            ground (arith, items j, mem j, contains-new (item_dim c) j)
        | inr n ↦ ground (arith, items j, mem j, contains-new (item_dim c) j)
      ],
    )

and_true : (a b : Bool) → (a && b) ≡ true → (a ≡ true) × (b ≡ true)
and_true true b h = (refl, h)
and_true false b h = ground arith

-- For relations over two valid carriers, `validate_disjoint` passes exactly if the carriers have the
-- same size and obs and no ob is in both relations.
pub validate_disjoint_lem :
    (c c' : Carrier) (r r' : UnaryRelation)
    → Inv.IsValid c
    → Inv.IsValid c'
    → IsOver c r
    → IsOver c' r'
    → (validate_disjoint c r c' r' ≡ true) ↔ (
        (item_dim c ≡ item_dim c')
        × ((j : ℕ) → contains c.support j ≡ contains c'.support j)
        × ((j : ℕ) → (contains r.set j && contains r'.set j) ≡ false))
unfolding validate_disjoint
validate_disjoint_lem c c' r r' v v' o o' =
    let same_support = equal_iff v.set v'.set in
    let apart = λ (e : item_dim c ≡ item_dim c').
      (disjoint_iff o.valid o'.valid (o.size ∙ e ∙ sym o'.size)).0 in
    (
      λ h.
          let a = item_dim c == item_dim c' in
          let b = count_items c.support == count_items c'.support in
          let d = equal c.support c'.support in
          let (rest, sets) = and_true (a && b && d) (likely_disjoint r.set r'.set) h in
          let (rest', supports) = and_true (a && b) d rest in
          let (sizes, _) = and_true a b rest' in
          let e = (==_iff (item_dim c) (item_dim c')).0 sizes in
          (e, (same_support e).0 supports, (apart e).0 sets),
      λ (e, same, none_in_both).
          let sizes = (==_iff (item_dim c) (item_dim c')).1 e in
          let counts : count_items c.support ≡ count_items c'.support =
            count_items_lem v.set
            ∙ count_congr (item_dim c + 1) (contains c.support) (contains c'.support)
                (λ i lt. same i)
            ∙ ap (λ n. count (n + 1) (contains c'.support)) e
            ∙ sym (count_items_lem v'.set) in
          let counts' = (==_iff (count_items c.support) (count_items c'.support)).1 counts in
          rw (sizes, counts', (same_support e).1 same, (apart e).1 none_in_both) refl,
    )

-- ===== src/BinaryRelation/Insert.antt =====
-- `BinaryRelation::insert_Lx` and `insert_Rx`, and the insertion of rows and columns.
use pomagma.Prelude.{
  ℕ, zero, ◌+◌, ◌≤◌, ◌≡◌, refl, sym, ap, ◌∙◌, List, Bool, true, false, ◌&&◌, ◌||◌, ◌==◌, ==_iff,
  if◌then◌else◌, some, set, replicate, get_or-replicate_in, suc, length-replicate, arith,
  Bool-cases, inl, inr,
}
use pomagma.DenseSet.{DenseSet, contains, new, try_insert}
use pomagma.DenseSet.Sets.{Items}
use pomagma.DenseSet.Element.{new-IsValid, contains-new, try_insert_lem, raw_insert-eq-insert}
use pomagma.Carrier.{Carrier, item_dim}
use pomagma.Carrier.Inv
use pomagma.BinaryRelation.{
  BinaryRelation, line, empty, find_lx, insert_lx, insert_rx, one_at, insert_row,
}
use pomagma.BinaryRelation.Lines.{IsTable, one_at_lem}
use pomagma.BinaryRelation.Rows.{Transposed, Transposed-sym, insert_line_lem, new-size}
use pomagma.BinaryRelation.Merge.{IsOver}

empty-IsTable : (n : ℕ) → IsTable n (replicate (suc n) (new n))
empty-IsTable n = record {
  sized = length-replicate (suc n) (new n) ∙ omega arith;
  valid =
      λ ob le. rw (get_or-replicate_in (suc n) ob (new n) (new 0) (omega arith)) (new-IsValid n);
  size = λ ob le. rw (get_or-replicate_in (suc n) ob (new n) (new 0) (omega arith)) (new-size n);
}

pub and_true : (a b : Bool) → (a && b) ≡ true → (a ≡ true) × (b ≡ true)
and_true true b h = (refl, h)
and_true false b h = ground arith

-- Inserting a pair into both tables
module _ (n i j : ℕ) (low : 1 ≤ i) (le : i ≤ n) (low_j : 1 ≤ j) (le_j : j ≤ n) (t u : List DenseSet)
    (h : Transposed n t u) where
  pair_lem :
      let t' = set t i (try_insert (line t i) j).1 in
      let u' = if (try_insert (line t i) j).0 then one_at u j i else u in
      Transposed n t' u'
      × ((a b : ℕ) → contains (line t' a) b ≡ (contains (line t a) b || (i == a && j == b)))
  unfolding one_at
  pair_lem =
      let s = line t i in
      let (left, bits) = one_at_lem n j low_j le_j t i h.left le in
      let (right, bits') = one_at_lem n i low le u j h.right le_j in
      let eq = sym (raw_insert-eq-insert s j) in
      rw (try_insert_lem s j, eq)
        (
          (elim (Bool-cases (contains s j)) [
            | inl old ↦ rw old record {
              left = left;
              right = h.right;
              agree = λ a b. elim (Bool-cases (i == a && j == b)) [
                | inl y ↦
                    let here = and_true (i == a) (j == b) y in
                    let row = ap (λ k. contains (line t k) j) ((==_iff i a).0 here.0) in
                    let at = ap (contains (line t a)) ((==_iff j b).0 here.1) in
                    ground (arith, bits a b, h.agree a b, row, at)
                | inr n' ↦ ground (arith, bits a b, h.agree a b)
              ];
            }
            | inr fresh ↦ rw fresh record {
              left = left;
              right = right;
              agree = λ a b. ground (arith, bits a b, bits' b a, h.agree a b);
            }
          ]),
          bits,
        )

empty_line : (m n a b : ℕ) → contains (line (replicate m (new n)) a) b ≡ false
empty_line zero n a b = contains-new 0 b
empty_line (suc m) n zero b = contains-new n b
empty_line (suc m) n (suc a) b = empty_line m n a b

pub find-empty : (c : Carrier) (a b : ℕ) → find_lx (empty c) a b ≡ false
unfolding empty find_lx
find-empty c a b = empty_line (1 + item_dim c) (item_dim c) a b

-- The tables of a relation that the constructor makes are empty.
pub empty-IsOver : (c : Carrier) → IsOver c (empty c)
unfolding empty find_lx
empty-IsOver c =
    let n = item_dim c in
    let one : 1 + n ≡ suc n = omega arith in
    record {
      tables = record {
        left = rw one (empty-IsTable n);
        right = rw one (empty-IsTable n);
        agree = λ a b. empty_line (1 + n) n a b ∙ sym (empty_line (1 + n) n b a);
      };
      supported = λ a b e. absurd (ground (arith, empty_line (1 + n) n a b));
    }

-- A relation with one more pair of obs has obs only.
module _ (c : Carrier) (i j : ℕ) (r : BinaryRelation) (o : IsOver c r)
    (on : contains c.support i ≡ true) (on' : contains c.support j ≡ true) where
  more_supported :
      (a b : ℕ)
      → (find_lx r a b || (i == a && j == b)) ≡ true
      → (contains c.support a ≡ true) × (contains c.support b ≡ true)
  more_supported a b e = elim (Bool-cases (i == a && j == b)) [
    | inl y ↦
        let here = and_true (i == a) (j == b) y in
        let at = ap (contains c.support) ((==_iff i a).0 here.0) in
        let at' = ap (contains c.support) ((==_iff j b).0 here.1) in (sym at ∙ on, sym at' ∙ on')
    | inr n ↦ o.supported a b (ground arith)
  ]

-- Inserting a pair of obs of a valid carrier, by either of the two functions, keeps the two tables
-- transposes of one another with obs of the carrier, and relates that pair and no other anew.
pub insert_pair_lem :
    (c : Carrier) (i j : ℕ) (r : BinaryRelation)
    → Inv.IsValid c
    → IsOver c r
    → contains c.support i ≡ true
    → contains c.support j ≡ true
    → IsOver c (insert_lx i j r)
      × IsOver c (insert_rx i j r)
      × ((a b : ℕ) → find_lx (insert_lx i j r) a b ≡ (find_lx r a b || (i == a && j == b)))
      × ((a b : ℕ) → find_lx (insert_rx i j r) a b ≡ (find_lx r a b || (i == a && j == b)))
unfolding insert_lx insert_rx find_lx
insert_pair_lem c i j r v o on on' =
    let n = item_dim c in
    let (low, le) = v.set.ranged i on in
    let (low', le') = v.set.ranged j on' in
    let (h, bits) = pair_lem n i j low le low' le' r.lx r.rx o.tables in
    let (h', bits') = pair_lem n j i low' le' low le r.rx r.lx (Transposed-sym o.tables) in
    let pairs : (a b : ℕ) → find_lx (insert_rx i j r) a b ≡ (find_lx r a b || (i == a && j == b)) =
      λ a b. ground (arith, h'.agree b a, bits' b a, o.tables.agree a b) in
    (
      record {
        tables = h;
        supported = λ a b e. more_supported c i j r o on on' a b (sym (bits a b) ∙ e);
      },
      record {
        tables = Transposed-sym h';
        supported = λ a b e. more_supported c i j r o on on' a b (sym (pairs a b) ∙ e);
      },
      bits,
      pairs,
    )

-- Inserting a row keeps the tables transposes of one another with obs of the carrier, and ends; the
-- new pairs are those of the ob with the items of the set, which are obs of the valid carrier.
pub insert_row_lem :
    (c : Carrier) (i : ℕ) (js : DenseSet) (r : BinaryRelation)
    → Inv.IsValid c
    → IsOver c r
    → contains c.support i ≡ true
    → Items (item_dim c) (contains js) js
    → ((j : ℕ) → contains js j ≡ true → contains c.support j ≡ true)
    → (r' : BinaryRelation) × (insert_row i js r ≡ some r')
      × IsOver c r'
      × ((a b : ℕ) → find_lx r' a b ≡ (find_lx r a b || (i == a && contains js b)))
unfolding insert_row find_lx
insert_row_lem c i js r v o on hjs all =
    let (low, le) = v.set.ranged i on in
    let (lx, rx, run, h, bits) =
      insert_line_lem (item_dim c) i low le r.lx r.rx o.tables js (contains js) hjs in
    (
      record { lx = lx; rx = rx },
      rw run refl,
      record {
        tables = h;
        supported = λ a b e. elim (Bool-cases (i == a)) [
          | inl y ↦
              let at = sym (ap (contains c.support) ((==_iff i a).0 y)) ∙ on in
              elim (Bool-cases (contains js b)) [
                | inl new_b ↦ (at, all b new_b)
                | inr n ↦ o.supported a b (ground (arith, bits a b))
              ]
          | inr n ↦ o.supported a b (ground (arith, bits a b))
        ];
      },
      bits,
    )

-- ===== src/BinaryFunction/Insert.antt =====
-- `BinaryFunction::insert` of pomagma/atlas/macro/binary_function.hpp, on functions that pass the
-- checks of `BinaryFunction::validate`.
use mathlib.Core.Option.{some-injective}
use pomagma.Prelude.{
  ℕ, ◌≤◌, ◌≡◌, ◌≢◌, refl, sym, ap, ◌∙◌, List, true, false, not, ◌&&◌, ◌||◌, ◌==◌, ==_iff,
  if◌then◌else◌, Option, none, some, arith, Bool-cases, inl, inr,
}
use pomagma.Prelude.Table.{pair_key, pair_same}
use pomagma.Prelude.Table.{find as find_pair, put as put_pair, find-put}
use pomagma.DenseSet.{contains}
use pomagma.Carrier.{Carrier, item_dim}
use pomagma.Carrier.Inv
use pomagma.Carrier.Root.{root}
use pomagma.Carrier.Merge.{Merged, Merged-same}
use pomagma.Carrier.Side.{set_and_merge-IsSide}
use pomagma.Carrier.Classes.{SameClass, set_and_merge_lem}
use pomagma.BinaryRelation.{BinaryRelation, line, find_lx}
use pomagma.BinaryRelation.Insert.{and_true, empty-IsOver, find-empty}
use pomagma.BinaryRelation.Lines.{one_at_lem}
use pomagma.BinaryRelation.Rows.{Transposed}
use pomagma.BinaryFunction.{BinaryFunction, defined, clear, find, insert, one_pair}

-- What `validate` asserts
pub record IsOver (c : Carrier) (f : BinaryFunction) : Type 0 where
  pub lines : Transposed (item_dim c) f.lines.lx f.lines.rx
  pub agrees : (i j : ℕ) → defined f i j ≡ not (find f i j == 0)
  pub supported :
      (i j : ℕ)
      → find f i j ≢ 0
      → (contains c.support i ≡ true)
        × (contains c.support j ≡ true)
        × (contains c.support (find f i j) ≡ true)
  pub full : (p : ℕ × ℕ) → find_pair f.values p ≢ some 0

find-put_value :
    (f : BinaryFunction) (r : BinaryRelation) (lhs rhs val i j : ℕ)
    → find (record { lines = r; values = put_pair f.values (lhs, rhs) val }) i j
      ≡ (if lhs == i && rhs == j then val else find f i j)
unfolding find
find-put_value f r lhs rhs val i j =
    ap (λ (o : Option ℕ). elim o as (λ _. ℕ) [ none ↦ 0 | some x ↦ x ])
      (find-put f.values (lhs, rhs) (i, j) val)
    ∙ (elim (Bool-cases (lhs == i && rhs == j)) [
      | inl here ↦ rw here refl
      | inr away ↦ rw away refl
    ])

pub full-put :
    (m : List ((ℕ × ℕ) × ℕ)) (k : ℕ × ℕ) (val : ℕ)
    → ((p : ℕ × ℕ) → find_pair m p ≢ some 0)
    → val ≢ 0
    → (p : ℕ × ℕ) → find_pair (put_pair m k val) p ≢ some 0
full-put m k val full nonzero p e = elim (Bool-cases (pair_same k p)) [
  | inl here ↦ nonzero (some-injective _ _ (sym (rw here at (find-put m k p val)) ∙ e))
  | inr away ↦ full p (sym (rw away at (find-put m k p val)) ∙ e)
]

-- A new value of a pair, and the bits of the pair set
pub put-IsOver :
    (c c' : Carrier) (f : BinaryFunction) (r : BinaryRelation) (lhs rhs val : ℕ)
    → c'.support ≡ c.support
    → IsOver c f
    → Transposed (item_dim c) r.lx r.rx
    → ((a b : ℕ)
        → contains (line r.lx a) b ≡ (contains (line f.lines.lx a) b || (lhs == a && rhs == b)))
    → contains c.support lhs ≡ true
    → contains c.support rhs ≡ true
    → contains c.support val ≡ true
    → val ≢ 0
    → IsOver c' (record { lines = r; values = put_pair f.values (lhs, rhs) val })
unfolding defined
put-IsOver c c' f r lhs rhs val same h lines bits on_lhs on_rhs on_val nonzero = record {
  lines = rw (ap (λ s. s.item_dim) same) lines;
  agrees = λ i j. elim (Bool-cases (lhs == i && rhs == j)) [
    | inl here ↦ rw (find-put_value f r lhs rhs val i j, bits i j, here) (ground arith)
    | inr away ↦
        rw (find-put_value f r lhs rhs val i j, bits i j, away) (ground (arith, h.agrees i j))
  ];
  supported = λ i j.
      rw (find-put_value f r lhs rhs val i j, same)
        (elim (Bool-cases (lhs == i && rhs == j)) [
          | inl here ↦ rw here (λ _. (
            ap (contains c.support) (sym ((==_iff lhs i).0 (and_true _ _ here).0)) ∙ on_lhs,
            ap (contains c.support) (sym ((==_iff rhs j).0 (and_true _ _ here).1)) ∙ on_rhs,
            on_val,
          ))
          | inr away ↦ rw away (h.supported i j)
        ]);
  full = full-put f.values (lhs, rhs) val h.full nonzero;
}

pub one_pair_lem :
    (n i j : ℕ) (low : 1 ≤ i) (le : i ≤ n) (low_j : 1 ≤ j) (le_j : j ≤ n) (r : BinaryRelation)
    → Transposed n r.lx r.rx
    → Transposed n (one_pair i j r).lx (one_pair i j r).rx
      × ((a b : ℕ)
          → contains (line (one_pair i j r).lx a) b
            ≡ (contains (line r.lx a) b || (i == a && j == b)))
unfolding one_pair
one_pair_lem n i j low le low_j le_j r h =
    let (left, bits) = one_at_lem n j low_j le_j r.lx i h.left le in
    let (right, bits') = one_at_lem n i low le r.rx j h.right le_j in
    (
      record {
        left = left;
        right = right;
        agree = λ a b. ground (arith, bits a b, bits' b a, h.agree a b);
      },
      bits,
    )

find-put_here :
    (f : BinaryFunction) (r : BinaryRelation) (lhs rhs val : ℕ)
    → find (record { lines = r; values = put_pair f.values (lhs, rhs) val }) lhs rhs ≡ val
find-put_here f r lhs rhs val =
    let here : (lhs == lhs && rhs == rhs) ≡ true = ground arith in
    find-put_value f r lhs rhs val lhs rhs ∙ rw here refl

find-put_away :
    (f : BinaryFunction) (r : BinaryRelation) (lhs rhs val i j : ℕ)
    → (lhs == i && rhs == j) ≡ false
    → find (record { lines = r; values = put_pair f.values (lhs, rhs) val }) i j ≡ find f i j
find-put_away f r lhs rhs val i j away = find-put_value f r lhs rhs val i j ∙ rw away refl

nonzero-defined :
    (c : Carrier) (f : BinaryFunction) (i j d : ℕ)
    → IsOver c f
    → find f i j ≡ d
    → d ≢ 0
    → defined f i j ≡ true
nonzero-defined c f i j d h e n = h.agrees i j ∙ ground (arith, e)

old_bits :
    (f : BinaryFunction) (lhs rhs : ℕ)
    → defined f lhs rhs ≡ true
    → (a b : ℕ)
    → contains (line f.lines.lx a) b ≡ (contains (line f.lines.lx a) b || (lhs == a && rhs == b))
unfolding defined
old_bits f lhs rhs on a b = elim (Bool-cases (lhs == a && rhs == b)) [
  | inl here ↦
      let (same, same') = and_true _ _ here in
      let row = ap (λ k. contains (line f.lines.lx k) rhs) ((==_iff lhs a).0 same) in
      let bit = ap (contains (line f.lines.lx a)) ((==_iff rhs b).0 same') in
      ground (arith, on, row, bit)
  | inr away ↦ ground arith
]

-- A function without values
pub clear-IsOver : (c : Carrier) (f : BinaryFunction) → IsOver c (clear c f)
unfolding clear defined find find_pair find_lx
clear-IsOver c f =
    let r = empty-IsOver c in
    record {
      lines = r.tables;
      agrees = λ i j. find-empty c i j;
      supported = λ i j n. absurd (n refl);
      full = λ p e. cc;
    }

module _ (c : Carrier) (v : Inv.IsValid c) (f : BinaryFunction) (h : IsOver c f) (lhs rhs val : ℕ)
    (on_lhs : contains c.support lhs ≡ true) (on_rhs : contains c.support rhs ≡ true)
    (on_val : contains c.support val ≡ true) where
  nonzero_val : val ≢ 0
  nonzero_val z = ground (arith, v.set.ranged val on_val)

  -- For obs of a valid carrier, `insert` ends. The old value of the pair, if there is one, is merged with
  -- the new one, and the carrier stays valid. The pair then has a value, which is equal to the new one
  -- in the carrier, and no other pair changes. What `validate` asserts holds again: the tables of
  -- lines are transposes, a pair has a bit where it has a value, and these are pairs and values of obs.
  pub insert_pair_value_lem :
      (f' : BinaryFunction) × (c' : Carrier) × (insert c lhs rhs val f ≡ some (f', c'))
      × Merged c
          (root c.reps (if find f lhs rhs == 0 then val else find f lhs rhs))
          (root c.reps val)
          c'
      × IsOver c' f'
      × SameClass c' (find f' lhs rhs) val
      × (defined f' lhs rhs ≡ true)
      × ((i j : ℕ) → (lhs == i && rhs == j) ≡ false → find f' i j ≡ find f i j)
  unfolding insert
  insert_pair_value_lem = elim (Bool-cases (find f lhs rhs == 0)) [
    | inl fresh ↦
        let (_, le) = v.set.ranged lhs on_lhs in
        let (lines, bits) =
          one_pair_lem (item_dim c) lhs rhs (v.set.ranged lhs on_lhs).0 le
            (v.set.ranged rhs on_rhs).0 (v.set.ranged rhs on_rhs).1 f.lines h.lines in
        let f' : BinaryFunction = record {
          lines = one_pair lhs rhs f.lines;
          values = put_pair f.values (lhs, rhs) val;
        } in
        let over : IsOver c f' =
          put-IsOver c c f f'.lines lhs rhs val refl h lines bits on_lhs on_rhs on_val
            nonzero_val in
        let found = find-put_here f f'.lines lhs rhs val in
        (
          f',
          c,
          rw fresh refl,
          rw fresh (Merged-same v refl),
          over,
          ap (root c.reps) found,
          nonzero-defined c f' lhs rhs val over found nonzero_val,
          find-put_away f f'.lines lhs rhs val,
        )
    | inr old ↦
        let kept = find f lhs rhs in
        let nonzero : kept ≢ 0 = λ z. ground arith in
        let on_kept = (h.supported lhs rhs nonzero).2 in
        let (b, d, c', run, m, changed) = set_and_merge_lem v kept val on_kept on_val in
        let s = set_and_merge-IsSide v kept val b d c' on_kept on_val run in
        let f' : BinaryFunction = record {
          lines = f.lines;
          values = put_pair f.values (lhs, rhs) d;
        } in
        let nonzero_d : d ≢ 0 = λ z. ground (arith, v.set.ranged d s.on) in
        let is_defined = nonzero-defined c f lhs rhs kept h refl nonzero in
        let over : IsOver c' f' =
          put-IsOver c c' f f.lines lhs rhs d m.support h h.lines (old_bits f lhs rhs is_defined)
            on_lhs on_rhs s.on nonzero_d in
        let found = find-put_here f f.lines lhs rhs d in
        (
          f',
          c',
          rw (old, run) refl,
          rw old m,
          over,
          ap (root c'.reps) found ∙ ground (arith, s.side, m.roots d, m.roots val),
          nonzero-defined c' f' lhs rhs d over found nonzero_d,
          find-put_away f f.lines lhs rhs d,
        )
  ]

-- ===== src/SymmetricFunction/Insert.antt =====
-- `SymmetricFunction::insert` of pomagma/atlas/macro/symmetric_function.hpp, on functions that pass
-- the checks of `SymmetricFunction::validate`.
use pomagma.Prelude.{
  ℕ, ◌≤◌, ◌≡◌, ◌≢◌, ◌⊎◌, refl, sym, ap, ◌∙◌, List, Bool, true, false, not, ◌&&◌, ◌||◌, ◌==◌, ltb,
  if◌then◌else◌, Option, none, some, arith, Bool-cases, inl, inr,
}
use pomagma.Prelude.Table.{pair_key, pair_same}
use pomagma.Prelude.Table.{find as find_pair, put as put_pair, find-put}
use pomagma.DenseSet.{DenseSet, contains}
use pomagma.Carrier.{Carrier, item_dim}
use pomagma.Carrier.Inv
use pomagma.Carrier.Root.{root}
use pomagma.Carrier.Merge.{Merged, Merged-same}
use pomagma.Carrier.Side.{set_and_merge-IsSide}
use pomagma.Carrier.Classes.{SameClass, set_and_merge_lem}
use pomagma.BinaryRelation.{line, one_at, empty, find_lx}
use pomagma.BinaryRelation.Insert.{empty-IsOver, find-empty}
use pomagma.BinaryFunction.Insert.{full-put}
use pomagma.BinaryRelation.Lines.{one_at_lem, IsTable}
use pomagma.SymmetricFunction.{
  SymmetricFunction, defined, clear, find, insert, one_both, make_sorted_pair,
}

-- Two pairs are the same up to order.
abbrev pub same_pair : ℕ → ℕ → ℕ → ℕ → Bool
same_pair i j a b = (i == a && j == b) || (i == b && j == a)

-- What `validate` asserts
pub record IsOver (c : Carrier) (f : SymmetricFunction) : Type 0 where
  pub lines : IsTable (item_dim c) f.lines
  pub agrees : (i j : ℕ) → defined f i j ≡ not (find f i j == 0)
  pub supported :
      (i j : ℕ)
      → find f i j ≢ 0
      → (contains c.support i ≡ true)
        × (contains c.support j ≡ true)
        × (contains c.support (find f i j) ≡ true)
  pub full : (p : ℕ × ℕ) → find_pair f.values p ≢ some 0

same_pair-cases :
    (i j a b : ℕ) → same_pair i j a b ≡ true → ((i ≡ a) × (j ≡ b)) ⊎ ((i ≡ b) × (j ≡ a))
same_pair-cases i j a b e = ground arith

make_sorted_pair-same :
    (i j a b : ℕ) → pair_same (make_sorted_pair i j) (make_sorted_pair a b) ≡ same_pair i j a b
unfolding make_sorted_pair
make_sorted_pair-same i j a b = elim (Bool-cases (ltb j i)) [
  | inl p ↦ elim (Bool-cases (ltb b a)) [
    | inl q ↦ rw (p, q) (ground arith)
    | inr q ↦ rw (p, q) (ground arith)
  ]
  | inr p ↦ elim (Bool-cases (ltb b a)) [
    | inl q ↦ rw (p, q) (ground arith)
    | inr q ↦ rw (p, q) (ground arith)
  ]
]

make_sorted_pair_comm : (i j : ℕ) → make_sorted_pair i j ≡ make_sorted_pair j i
unfolding make_sorted_pair
make_sorted_pair_comm i j = elim (Bool-cases (ltb j i)) [
  | inl p ↦ (let q : ltb i j ≡ false = ground arith in rw (p, q) refl)
  | inr p ↦ elim (Bool-cases (ltb i j)) [
    | inl q ↦ rw (p, q) refl
    | inr q ↦
        (let e : i ≡ j = ground arith in rw (p, q) (ap (λ k. (k, j)) e ∙ ap (λ k. (j, k)) (sym e)))
  ]
]

-- The order of the arguments means nothing.
pub find_comm : (f : SymmetricFunction) (i j : ℕ) → find f i j ≡ find f j i
unfolding find
find_comm f i j =
    ap (λ p. elim (find_pair f.values p) as (λ _. ℕ) [ none ↦ 0 | some x ↦ x ])
      (make_sorted_pair_comm i j)

find-put_value :
    (f : SymmetricFunction) (t : List DenseSet) (lhs rhs val i j : ℕ)
    → find (record { lines = t; values = put_pair f.values (make_sorted_pair lhs rhs) val }) i j
      ≡ (if same_pair lhs rhs i j then val else find f i j)
unfolding find
find-put_value f t lhs rhs val i j =
    ap (λ (o : Option ℕ). elim o as (λ _. ℕ) [ none ↦ 0 | some x ↦ x ])
      (find-put f.values (make_sorted_pair lhs rhs) (make_sorted_pair i j) val)
    ∙ (elim (Bool-cases (same_pair lhs rhs i j)) [
      | inl here ↦ rw (make_sorted_pair-same lhs rhs i j, here) refl
      | inr away ↦ rw (make_sorted_pair-same lhs rhs i j, away) refl
    ])

pub one_both_lem :
    (n i j : ℕ) (low : 1 ≤ i) (le : i ≤ n) (low_j : 1 ≤ j) (le_j : j ≤ n) (t : List DenseSet)
    → IsTable n t
    → IsTable n (one_both i j t)
      × ((a b : ℕ)
          → contains (line (one_both i j t) a) b ≡ (contains (line t a) b || same_pair i j a b))
unfolding one_both
one_both_lem n i j low le low_j le_j t h =
    let (h', bits) = one_at_lem n j low_j le_j t i h le in
    let (h'', bits') = one_at_lem n i low le (one_at t i j) j h' le_j in
    (h'', λ a b. ground (arith, bits a b, bits' a b))

-- A new value of a pair, and the bits of the pair set
pub put-IsOver :
    (c c' : Carrier) (f : SymmetricFunction) (t : List DenseSet) (lhs rhs val : ℕ)
    → c'.support ≡ c.support
    → IsOver c f
    → IsTable (item_dim c) t
    → ((a b : ℕ) → contains (line t a) b ≡ (contains (line f.lines a) b || same_pair lhs rhs a b))
    → contains c.support lhs ≡ true
    → contains c.support rhs ≡ true
    → contains c.support val ≡ true
    → val ≢ 0
    → IsOver c' (record { lines = t; values = put_pair f.values (make_sorted_pair lhs rhs) val })
unfolding defined
put-IsOver c c' f t lhs rhs val same h lines bits on_lhs on_rhs on_val nonzero = record {
  lines = rw (ap (λ s. s.item_dim) same) lines;
  agrees = λ i j. elim (Bool-cases (same_pair lhs rhs i j)) [
    | inl here ↦ rw (find-put_value f t lhs rhs val i j, bits i j, here) (ground arith)
    | inr away ↦
        rw (find-put_value f t lhs rhs val i j, bits i j, away) (ground (arith, h.agrees i j))
  ];
  supported = λ i j.
      rw (find-put_value f t lhs rhs val i j, same)
        (elim (Bool-cases (same_pair lhs rhs i j)) [
          | inl here ↦ rw here (λ _. (
            elim (same_pair-cases lhs rhs i j here) [
              | inl (e, e') ↦ ap (contains c.support) (sym e) ∙ on_lhs
              | inr (e, e') ↦ ap (contains c.support) (sym e') ∙ on_rhs
            ],
            elim (same_pair-cases lhs rhs i j here) [
              | inl (e, e') ↦ ap (contains c.support) (sym e') ∙ on_rhs
              | inr (e, e') ↦ ap (contains c.support) (sym e) ∙ on_lhs
            ],
            on_val,
          ))
          | inr away ↦ rw away (h.supported i j)
        ]);
  full = full-put f.values (make_sorted_pair lhs rhs) val h.full nonzero;
}

find-put_here :
    (f : SymmetricFunction) (t : List DenseSet) (lhs rhs val : ℕ)
    → find (record { lines = t; values = put_pair f.values (make_sorted_pair lhs rhs) val }) lhs rhs
      ≡ val
find-put_here f t lhs rhs val =
    let here : same_pair lhs rhs lhs rhs ≡ true = ground arith in
    find-put_value f t lhs rhs val lhs rhs ∙ rw here refl

find-put_away :
    (f : SymmetricFunction) (t : List DenseSet) (lhs rhs val i j : ℕ)
    → same_pair lhs rhs i j ≡ false
    → find (record { lines = t; values = put_pair f.values (make_sorted_pair lhs rhs) val }) i j
      ≡ find f i j
find-put_away f t lhs rhs val i j away = find-put_value f t lhs rhs val i j ∙ rw away refl

nonzero-defined :
    (c : Carrier) (f : SymmetricFunction) (i j d : ℕ)
    → IsOver c f
    → find f i j ≡ d
    → d ≢ 0
    → defined f i j ≡ true
nonzero-defined c f i j d h e n = h.agrees i j ∙ ground (arith, e)

old_bits :
    (c : Carrier) (f : SymmetricFunction) (lhs rhs : ℕ)
    → IsOver c f
    → find f lhs rhs ≢ 0
    → (a b : ℕ)
    → contains (line f.lines a) b ≡ (contains (line f.lines a) b || same_pair lhs rhs a b)
unfolding defined
old_bits c f lhs rhs h n a b = elim (Bool-cases (same_pair lhs rhs a b)) [
  | inl here ↦ elim (same_pair-cases lhs rhs a b here) [
    | inl (e, e') ↦
        let same = ap (λ k. find f k rhs) e ∙ ap (find f a) e' in ground (arith, h.agrees a b, same)
    | inr (e, e') ↦
        let same = find_comm f lhs rhs ∙ ap (λ k. find f k lhs) e' ∙ ap (find f a) e in
        ground (arith, h.agrees a b, same)
  ]
  | inr away ↦ ground arith
]

pub clear-IsOver : (c : Carrier) (f : SymmetricFunction) → IsOver c (clear c f)
unfolding clear defined find find_pair find_lx empty
clear-IsOver c f =
    let r = empty-IsOver c in
    record {
      lines = r.tables.left;
      agrees = find-empty c;
      supported = λ i j n. absurd (n refl);
      full = λ p e. cc;
    }

module _ (c : Carrier) (v : Inv.IsValid c) (f : SymmetricFunction) (h : IsOver c f)
    (lhs rhs val : ℕ) (on_lhs : contains c.support lhs ≡ true)
    (on_rhs : contains c.support rhs ≡ true) (on_val : contains c.support val ≡ true) where
  nonzero_val : val ≢ 0
  nonzero_val z = ground (arith, v.set.ranged val on_val)

  -- For obs of a valid carrier, `insert` ends. The old value of the pair, if there is one, is merged with
  -- the new one, and the carrier stays valid. The pair in either order then has one value, which is
  -- equal to the new one in the carrier, and no other pair changes. What `validate` asserts holds
  -- again: a pair has a bit where it has a value, and these are pairs and values of obs.
  pub insert_both_lem :
      (f' : SymmetricFunction) × (c' : Carrier) × (insert c lhs rhs val f ≡ some (f', c'))
      × Merged c
          (root c.reps (if find f lhs rhs == 0 then val else find f lhs rhs))
          (root c.reps val)
          c'
      × IsOver c' f'
      × SameClass c' (find f' lhs rhs) val
      × (find f' rhs lhs ≡ find f' lhs rhs)
      × (defined f' lhs rhs ≡ true)
      × ((i j : ℕ) → same_pair lhs rhs i j ≡ false → find f' i j ≡ find f i j)
  unfolding insert
  insert_both_lem = elim (Bool-cases (find f lhs rhs == 0)) [
    | inl fresh ↦
        let (lines, bits) =
          one_both_lem (item_dim c) lhs rhs (v.set.ranged lhs on_lhs).0 (v.set.ranged lhs on_lhs).1
            (v.set.ranged rhs on_rhs).0 (v.set.ranged rhs on_rhs).1 f.lines h.lines in
        let t = one_both lhs rhs f.lines in
        let f' : SymmetricFunction = record {
          lines = t;
          values = put_pair f.values (make_sorted_pair lhs rhs) val;
        } in
        let over : IsOver c f' =
          put-IsOver c c f t lhs rhs val refl h lines bits on_lhs on_rhs on_val nonzero_val in
        let found = find-put_here f t lhs rhs val in
        (
          f',
          c,
          rw fresh refl,
          rw fresh (Merged-same v refl),
          over,
          ap (root c.reps) found,
          find_comm f' rhs lhs,
          nonzero-defined c f' lhs rhs val over found nonzero_val,
          find-put_away f t lhs rhs val,
        )
    | inr old ↦
        let kept = find f lhs rhs in
        let nonzero : kept ≢ 0 = λ z. ground arith in
        let on_kept = (h.supported lhs rhs nonzero).2 in
        let (b, d, c', run, m, changed) = set_and_merge_lem v kept val on_kept on_val in
        let s = set_and_merge-IsSide v kept val b d c' on_kept on_val run in
        let f' : SymmetricFunction = record {
          lines = f.lines;
          values = put_pair f.values (make_sorted_pair lhs rhs) d;
        } in
        let nonzero_d : d ≢ 0 = λ z. ground (arith, v.set.ranged d s.on) in
        let over : IsOver c' f' =
          put-IsOver c c' f f.lines lhs rhs d m.support h h.lines (old_bits c f lhs rhs h nonzero)
            on_lhs on_rhs s.on nonzero_d in
        let found = find-put_here f f.lines lhs rhs d in
        (
          f',
          c',
          rw (old, run) refl,
          rw old m,
          over,
          ap (root c'.reps) found ∙ ground (arith, s.side, m.roots d, m.roots val),
          find_comm f' rhs lhs,
          nonzero-defined c' f' lhs rhs d over found nonzero_d,
          find-put_away f f.lines lhs rhs d,
        )
  ]

-- ===== src/BinaryRelation/Merge.antt =====
-- `BinaryRelation::unsafe_merge`.
use mathlib.Core.Path.{subst}
use pomagma.Prelude.{
  ℕ, ◌≤◌, ◌≡◌, ◌≢◌, refl, sym, ap, ◌∙◌, List, Bool, true, not, ◌&&◌, ◌||◌, ◌==◌, ==_iff, some, set,
  arith, Bool-cases, inl, inr,
}
use pomagma.DenseSet.{DenseSet, contains, new}
use pomagma.DenseSet.Whole.{merge_diff}
use pomagma.DenseSet.Sets.{merge_diff_sets}
use pomagma.Carrier.{Carrier, item_dim}
use pomagma.Carrier.Inv
use pomagma.Carrier.Root.{root}
use pomagma.Carrier.Find.{find-root, root-supported}
use pomagma.BinaryRelation.{
  BinaryRelation, line, find_lx, move_line, unsafe_merge, one_each, zero_each,
}
use pomagma.BinaryRelation.Lines.{line-set, set-IsTable, one_each_lem, zero_each_lem, items_lem}
use pomagma.BinaryRelation.Rows.{Transposed, Transposed-sym, line-Items, new-size, item-le}

-- Line i of a relation moves to line j.
abbrev pub moved : ℕ → ℕ → (ℕ → ℕ → Bool) → ℕ → ℕ → Bool
moved i j r a b = not (i == a) && (r a b || (j == a && r i b))

module _ (n i j : ℕ) (low : 1 ≤ i) (le : i ≤ n) (low_j : 1 ≤ j) (le_j : j ≤ n) (ne : i ≢ j)
    (t u : List DenseSet) (h : Transposed n t u) where
  line_at : (k a b : ℕ) → (k == a) ≡ true → contains (line t k) b ≡ contains (line t a) b
  line_at k a b y = ap (λ m. contains (line t m) b) ((==_iff k a).0 y)

  pub move_line_lem :
      (t' : List DenseSet) × (u' : List DenseSet) × (move_line i j t u ≡ some (t', u'))
      × Transposed n t' u'
      × ((a b : ℕ) → contains (line t' a) b ≡ moved i j (λ x y. contains (line t x) y) a b)
  unfolding move_line
  move_line_lem =
      let s = line t i in
      let (rep, dep, diff, changed) = merge_diff (line t j) s (new s.item_dim) in
      let (hr, hd, hf, hc) =
        merge_diff_sets n (line t j) s (new s.item_dim) (line-Items h.left j le_j)
          (line-Items h.left i le) (new-size s.item_dim ∙ h.left.size i le) in
      let (removed, run, mem) = items_lem s (h.left.valid i le) in
      let (right, zeros) =
        zero_each_lem n i low le removed u h.right
          (λ a e. item-le (line-Items h.left i le) a (sym (mem a) ∙ e)) in
      let t1 = set t j rep in
      let left1 = set-IsTable n t h.left j le_j rep hr.valid hr.size in
      let t' = set t1 i dep in
      let left = set-IsTable n t1 left1 i le dep hd.valid hd.size in
      let bits : (a b : ℕ) → contains (line t' a) b ≡ moved i j (λ x y. contains (line t x) y) a b =
        λ a b. elim (Bool-cases (i == a)) [
          | inl y ↦ rw (line-set n t1 left1 i le dep a, y) (hd.items b)
          | inr n' ↦ elim (Bool-cases (j == a)) [
            | inl y ↦
                rw (line-set n t1 left1 i le dep a, n', line-set n t h.left j le_j rep a, y)
                  (ground (arith, hr.items b, line_at j a b y))
            | inr m ↦
                rw (line-set n t1 left1 i le dep a, n', line-set n t h.left j le_j rep a, m)
                  (ground arith)
          ]
        ] in
      elim (Bool-cases changed) [
        | inl c ↦
            let (obs, run', mem') = items_lem diff hf.valid in
            let (right', ones) =
              one_each_lem n j low_j le_j obs (zero_each removed i u) right
                (λ a e. item-le hf a (sym (mem' a) ∙ e)) in
            (
              t',
              one_each obs j (zero_each removed i u),
              rw (run, c, run') refl,
              record {
                left = left;
                right = right';
                agree = λ a b. elim (Bool-cases (i == a)) [
                  | inl y ↦ ground (
                    arith,
                    bits a b,
                    ones b a,
                    zeros b a,
                    mem b,
                    mem' b,
                    hf.items b,
                    h.agree a b,
                    line_at i a b y,
                    ne,
                  )
                  | inr n' ↦ elim (Bool-cases (j == a)) [
                    | inl y ↦ ground (
                      arith,
                      bits a b,
                      ones b a,
                      zeros b a,
                      mem b,
                      mem' b,
                      hf.items b,
                      h.agree a b,
                      line_at j a b y,
                    )
                    | inr m ↦ ground (
                      arith,
                      bits a b,
                      ones b a,
                      zeros b a,
                      mem b,
                      mem' b,
                      hf.items b,
                      h.agree a b,
                    )
                  ]
                ];
              },
              bits,
            )
        | inr c ↦ (
          t',
          zero_each removed i u,
          rw (run, c) refl,
          record {
            left = left;
            right = right;
            agree = λ a b.
                let none_new = hc.0 c b in
                elim (Bool-cases (i == a)) [
                  | inl y ↦ ground (
                    arith,
                    bits a b,
                    zeros b a,
                    mem b,
                    h.agree a b,
                    none_new,
                    line_at i a b y,
                    ne,
                  )
                  | inr n' ↦ elim (Bool-cases (j == a)) [
                    | inl y ↦
                        ground (
                          arith,
                          bits a b,
                          zeros b a,
                          mem b,
                          h.agree a b,
                          none_new,
                          line_at j a b y,
                        )
                    | inr m ↦ ground (arith, bits a b, zeros b a, mem b, h.agree a b, none_new)
                  ]
                ];
          },
          bits,
        )
      ]

-- A binary relation over a carrier: two tables of its size, one the transpose of the other, with
-- obs of the carrier.
pub record IsOver (c : Carrier) (r : BinaryRelation) : Type 0 where
  pub tables : Transposed (item_dim c) r.lx r.rx
  pub supported :
      (a b : ℕ)
      → find_lx r a b ≡ true
      → (contains c.support a ≡ true) × (contains c.support b ≡ true)

-- For an ob `dep` of a valid carrier that has another representative, `unsafe_merge` ends. The tables
-- are transposes of one another again and their obs are obs of the carrier. No pair has `dep`; two
-- other obs are related exactly if they were related with `dep` in the place of its representative
-- on neither, one or both sides.
pub merge_lines_lem :
    (c : Carrier) (dep : ℕ) (r : BinaryRelation)
    → Inv.IsValid c
    → IsOver c r
    → contains c.support dep ≡ true
    → root c.reps dep ≢ dep
    → (r' : BinaryRelation) × (unsafe_merge c dep r ≡ some r')
      × IsOver c r'
      × ((a b : ℕ)
          → find_lx r' a b ≡ (
              not (dep == a)
              && not (dep == b)
              && (find_lx r a b
                  || (root c.reps dep == a && find_lx r dep b)
                  || (root c.reps dep == b && find_lx r a dep)
                  || (root c.reps dep == a && root c.reps dep == b && find_lx r dep dep))))
unfolding unsafe_merge find_lx
merge_lines_lem c dep r v o on ne =
    let n = item_dim c in
    let rep = root c.reps dep in
    let on_rep = root-supported v dep on in
    let (low, le) = v.set.ranged dep on in
    let (low_r, le_r) = v.set.ranged rep on_rep in
    let apart : dep ≢ rep = λ e. ne (sym e) in
    let (lx, rx, run, h1, bits1) =
      move_line_lem n dep rep low le low_r le_r apart r.lx r.rx o.tables in
    let (rx', lx', run', h2, bits2) =
      move_line_lem n dep rep low le low_r le_r apart rx lx (Transposed-sym h1) in
    let pairs : (a b : ℕ)
        → find_lx (record { lx = lx'; rx = rx' }) a b ≡ (
            not (dep == a)
            && not (dep == b)
            && (find_lx r a b
                || (rep == a && find_lx r dep b)
                || (rep == b && find_lx r a dep)
                || (rep == a && rep == b && find_lx r dep dep))) =
      λ a b.
        ground
          (arith, h2.agree b a, bits2 b a, h1.agree a b, h1.agree a dep, bits1 a b, bits1 a dep) in
    let same : (a : ℕ) → (rep == a) ≡ true → contains c.support a ≡ true =
      λ a y. subst (λ k. contains c.support k ≡ true) ((==_iff rep a).0 y) on_rep in
    (
      record { lx = lx'; rx = rx' },
      rw (find-root v dep, run, run') refl,
      record {
        tables = Transposed-sym h2;
        supported = λ a b e. (
          (elim (Bool-cases (rep == a)) [
            | inl y ↦ same a y
            | inr n' ↦ ground (arith, pairs a b, o.supported a b, o.supported a dep)
          ]),
          (elim (Bool-cases (rep == b)) [
            | inl y ↦ same b y
            | inr n' ↦ ground (arith, pairs a b, o.supported a b, o.supported dep b)
          ]),
        );
      },
      pairs,
    )

-- ===== src/BinaryRelation/Rows.antt =====
-- Inserting a line and merging an ob: both tables stay transposes of one another.
use pomagma.Prelude.{
  ℕ, ◌≤◌, ◌≡◌, refl, sym, ap, ◌∙◌, List, Bool, true, ◌&&◌, ◌||◌, ◌==◌, ==_iff, some, set, arith,
  Bool-cases, inl, inr,
}
use pomagma.DenseSet.{DenseSet, contains, new}
use pomagma.DenseSet.Whole.{ensure}
use pomagma.DenseSet.Sets.{Items, ensure_sets}
use pomagma.BinaryRelation.{line, insert_line, one_each}
use pomagma.BinaryRelation.Lines.{IsTable, line-set, set-IsTable, one_each_lem, items_lem}

-- Two tables of which one is the transpose of the other.
pub record Transposed (n : ℕ) (table transpose : List DenseSet) : Type 0 where
  pub left : IsTable n table
  pub right : IsTable n transpose
  pub agree : (a b : ℕ) → contains (line table a) b ≡ contains (line transpose b) a

pub Transposed-sym : {n : ℕ} {t u : List DenseSet} → Transposed n t u → Transposed n u t
Transposed-sym h = record { left = h.right; right = h.left; agree = λ a b. sym (h.agree b a) }

pub line-Items :
    {n : ℕ} {t : List DenseSet}
    → IsTable n t
    → (i : ℕ) → i ≤ n
    → Items n (contains (line t i)) (line t i)
line-Items {n} {t} h i le = record { valid = h.valid i le; size = h.size i le; items = λ b. refl }

pub new-size : (n : ℕ) → (new n).item_dim ≡ n
unfolding new
new-size n = refl

-- An item of a set of size `n` is at most `n`.
pub item-le :
    {n : ℕ} {p : ℕ → Bool} {s : DenseSet} → Items n p s → (a : ℕ) → contains s a ≡ true → a ≤ n
item-le h a e = omega (arith, (h.valid.ranged a e).1, h.size)

module _ (n i : ℕ) (low : 1 ≤ i) (le : i ≤ n) (t u : List DenseSet) (h : Transposed n t u) where
  at_i : (a b : ℕ) → (i == a) ≡ true → contains (line t i) b ≡ contains (line t a) b
  at_i a b y = ap (λ k. contains (line t k) b) ((==_iff i a).0 y)

  pub insert_line_lem :
      (js : DenseSet) (q : ℕ → Bool)
      → Items n q js
      → (t' : List DenseSet) × (u' : List DenseSet) × (insert_line i js t u ≡ some (t', u'))
        × Transposed n t' u'
        × ((a b : ℕ) → contains (line t' a) b ≡ (contains (line t a) b || (i == a && q b)))
  unfolding insert_line
  insert_line_lem js q hjs =
      let s = line t i in
      let (dest, diff, changed) = ensure s js (new s.item_dim) in
      let (hd, hf, hc) =
        ensure_sets n s js (new s.item_dim) (line-Items h.left i le) hjs
          (new-size s.item_dim ∙ h.left.size i le) in
      let t' = set t i dest in
      let table' = set-IsTable n t h.left i le dest hd.valid hd.size in
      let bits : (a b : ℕ) → contains (line t' a) b ≡ (contains (line t a) b || (i == a && q b)) =
        λ a b. elim (Bool-cases (i == a)) [
          | inl y ↦ rw (line-set n t h.left i le dest a, y) (ground (arith, hd.items b, at_i a b y))
          | inr n' ↦ rw (line-set n t h.left i le dest a, n') (ground arith)
        ] in
      elim (Bool-cases changed) [
        | inl c ↦
            let (obs, run, mem) = items_lem diff hf.valid in
            let (right', ones) =
              one_each_lem n i low le obs u h.right (λ a e. item-le hf a (sym (mem a) ∙ e)) in
            (
              t',
              one_each obs i u,
              rw (c, run) refl,
              record {
                left = table';
                right = right';
                agree = λ a b. elim (Bool-cases (i == a)) [
                  | inl y ↦
                      ground (arith, bits a b, ones b a, mem b, hf.items b, h.agree a b, at_i a b y)
                  | inr n' ↦ ground (arith, bits a b, ones b a, mem b, hf.items b, h.agree a b)
                ];
              },
              bits,
            )
        | inr c ↦ (
          t',
          u,
          rw c refl,
          record {
            left = table';
            right = h.right;
            agree = λ a b.
                let none_new = hc.0 c b in
                elim (Bool-cases (i == a)) [
                  | inl y ↦ ground (arith, bits a b, h.agree a b, none_new, at_i a b y)
                  | inr n' ↦ ground (arith, bits a b, h.agree a b)
                ];
          },
          bits,
        )
      ]

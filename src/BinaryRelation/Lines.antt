-- ===== src/BinaryRelation/Lines.antt =====
-- A table of lines: what writing one bit in one or several lines does.
use pomagma.Prelude.{
  ℕ, ◌+◌, ◌≤◌, ◌≡◌, refl, ap, ◌∙◌, List, [], ◌∷◌, true, not, ◌&&◌, ◌||◌, ◌==◌, ==_iff,
  if◌then◌else◌, some, set, length, get_or-set, length-set, arith, Bool-cases, inl, inr,
}
use pomagma.DenseSet.{DenseSet, IsValid, contains, insert, remove, new}
use pomagma.DenseSet.Element.{
  contains-insert, contains-remove, insert-IsValid, remove-IsValid, raw_insert-eq-insert,
  raw_remove-eq-remove,
}
use pomagma.DenseSet.Items.{members, elem, elem-members, visit_items}
use pomagma.BinaryRelation.{line, one_at, zero_at, one_each, zero_each, items}

-- A valid set of the size `n` for each number up to `n`.
pub record IsTable (n : ℕ) (table : List DenseSet) : Type 0 where
  pub sized : length table ≡ n + 1
  pub valid : (ob : ℕ) → ob ≤ n → IsValid (line table ob)
  pub size : (ob : ℕ) → ob ≤ n → (line table ob).item_dim ≡ n

insert-size : (s : DenseSet) (i : ℕ) → (insert s i).item_dim ≡ s.item_dim
unfolding insert
insert-size s i = refl

remove-size : (s : DenseSet) (i : ℕ) → (remove s i).item_dim ≡ s.item_dim
unfolding remove
remove-size s i = refl

module _ (n : ℕ) (table : List DenseSet) (h : IsTable n table) (ob : ℕ) (le : ob ≤ n) where
  pub line-set :
      (s : DenseSet) (a : ℕ) → line (set table ob s) a ≡ (if ob == a then s else line table a)
  line-set s a = get_or-set table ob a s (new 0) (omega (arith, h.sized))

  pub set-IsTable : (s : DenseSet) → IsValid s → s.item_dim ≡ n → IsTable n (set table ob s)
  set-IsTable s v d = record {
    sized = length-set table ob s ∙ h.sized;
    valid = λ a la. elim (Bool-cases (ob == a)) [
      | inl y ↦ rw (line-set s a, y) v
      | inr n' ↦ rw (line-set s a, n') (h.valid a la)
    ];
    size = λ a la. elim (Bool-cases (ob == a)) [
      | inl y ↦ rw (line-set s a, y) d
      | inr n' ↦ rw (line-set s a, n') (h.size a la)
    ];
  }

module _ (n : ℕ) (bit : ℕ) (low : 1 ≤ bit) (le_bit : bit ≤ n) where
  pub one_at_lem :
      (table : List DenseSet) (ob : ℕ)
      → IsTable n table
      → ob ≤ n
      → IsTable n (one_at table ob bit)
        × ((a b : ℕ)
            → contains (line (one_at table ob bit) a) b
              ≡ (contains (line table a) b || (ob == a && bit == b)))
  unfolding one_at
  one_at_lem table ob h le =
      let s = line table ob in
      let fits : bit ≤ s.item_dim = omega (arith, h.size ob le) in
      let eq = raw_insert-eq-insert s bit in
      (
        rw eq (
            set-IsTable n table h ob le (insert s bit) (insert-IsValid (h.valid ob le) bit fits low)
              (insert-size s bit ∙ h.size ob le)),
        λ a b. elim (Bool-cases (ob == a)) [
          | inl y ↦
              let at = ap (λ k. contains (line table k) b) ((==_iff ob a).0 y) in
              rw (eq, line-set n table h ob le (insert s bit) a, y)
                (ground (arith, contains-insert (h.valid ob le) bit fits b, at))
          | inr n' ↦ rw (eq, line-set n table h ob le (insert s bit) a, n') (ground arith)
        ],
      )

  pub zero_at_lem :
      (table : List DenseSet) (ob : ℕ)
      → IsTable n table
      → ob ≤ n
      → IsTable n (zero_at table ob bit)
        × ((a b : ℕ)
            → contains (line (zero_at table ob bit) a) b
              ≡ (contains (line table a) b && not (ob == a && bit == b)))
  unfolding zero_at
  zero_at_lem table ob h le =
      let s = line table ob in
      let fits : bit ≤ s.item_dim = omega (arith, h.size ob le) in
      let eq = raw_remove-eq-remove s bit in
      (
        rw eq (
            set-IsTable n table h ob le (remove s bit) (remove-IsValid (h.valid ob le) bit fits)
              (remove-size s bit ∙ h.size ob le)),
        λ a b. elim (Bool-cases (ob == a)) [
          | inl y ↦
              let at = ap (λ k. contains (line table k) b) ((==_iff ob a).0 y) in
              rw (eq, line-set n table h ob le (remove s bit) a, y)
                (ground (arith, contains-remove (h.valid ob le) bit fits b, at))
          | inr n' ↦ rw (eq, line-set n table h ob le (remove s bit) a, n') (ground arith)
        ],
      )

  pub one_each_lem :
      (obs : List ℕ) (table : List DenseSet)
      → IsTable n table
      → ((a : ℕ) → elem obs a ≡ true → a ≤ n)
      → IsTable n (one_each obs bit table)
        × ((a b : ℕ)
            → contains (line (one_each obs bit table) a) b
              ≡ (contains (line table a) b || (elem obs a && bit == b)))
  unfolding one_each
  one_each_lem [] table h le = (h, λ a b. ground arith)
  one_each_lem (ob ∷ obs) table h le =
      let (h', bits) = one_at_lem table ob h (le ob (ground arith)) in
      let (h'', bits') = one_each_lem obs (one_at table ob bit) h' (λ a e. le a (ground arith)) in
      (h'', λ a b. ground (arith, bits a b, bits' a b))

  pub zero_each_lem :
      (obs : List ℕ) (table : List DenseSet)
      → IsTable n table
      → ((a : ℕ) → elem obs a ≡ true → a ≤ n)
      → IsTable n (zero_each obs bit table)
        × ((a b : ℕ)
            → contains (line (zero_each obs bit table) a) b
              ≡ (contains (line table a) b && not (elem obs a && bit == b)))
  unfolding zero_each
  zero_each_lem [] table h le = (h, λ a b. ground arith)
  zero_each_lem (ob ∷ obs) table h le =
      let (h', bits) = zero_at_lem table ob h (le ob (ground arith)) in
      let (h'', bits') = zero_each_lem obs (zero_at table ob bit) h' (λ a e. le a (ground arith)) in
      (h'', λ a b. ground (arith, bits a b, bits' a b))

-- A loop over a valid set visits its items.
pub items_lem :
    (s : DenseSet)
    → IsValid s
    → (obs : List ℕ) × (items s ≡ some obs) × ((a : ℕ) → elem obs a ≡ contains s a)
unfolding items
items_lem s v =
    let (it, made, visited) = visit_items s v in
    let mem = elem-members (contains s) s.item_dim 1 in
    (
      members (contains s) 1 s.item_dim,
      rw (made, visited) refl,
      λ a. elim (Bool-cases (contains s a)) [
        | inl y ↦ let (low, high) = v.ranged a y in ground (arith, mem a)
        | inr n ↦ ground (arith, mem a)
      ],
    )

-- ===== src/InjectiveFunction/Validate.antt =====
-- The loops of `InjectiveFunction::validate` of pomagma/atlas/macro/injective_function.cpp, and a new
-- function.
use mathlib.Core.Path.{subst}
use pomagma.BinaryRelation.Insert.{and_true}
use pomagma.Carrier.Root.{root}
use pomagma.Prelude.{
  ℕ, zero, suc, ◌+◌, ◌≤◌, ◌<◌, ltb, ◌≡◌, ◌≢◌, ◌↔◌, refl, sym, ap, ◌∙◌, List, Bool, not, ◌&&◌, true,
  false, ◌==◌, ==_iff, Option, some, get_or, replicate, get_or-replicate, length-replicate, arith,
  Bool-cases, inl, inr,
}
use pomagma.DenseSet.{DenseSet, contains, new}
use pomagma.DenseSet.Element.{new-IsValid, contains-new}
use pomagma.Carrier.{Carrier, max_item_dim, next_ob, item_dim}
use pomagma.Carrier.Inv
use pomagma.Carrier.Find.{equal-root}
use pomagma.Carrier.Classes.{SameClass}
use pomagma.InjectiveFunction.{
  InjectiveFunction, create, check_entry, check_entries, validate_entries,
}
use pomagma.InjectiveFunction.Insert.{IsTable, IsOver}

new-size : (n : ℕ) → (new n).item_dim ≡ n
unfolding new
new-size n = refl

empty-IsTable : (c : Carrier) → IsTable c (new (item_dim c)) (replicate (1 + item_dim c) 0)
empty-IsTable c = record {
  valid = new-IsValid (item_dim c);
  size = new-size (item_dim c);
  sized = length-replicate (1 + item_dim c) 0 ∙ omega arith;
  agrees = λ k.
      ground (arith, contains-new (item_dim c) k, get_or-replicate {A = ℕ} (1 + item_dim c) k 0);
  supported = λ k nz. absurd (nz (get_or-replicate {A = ℕ} (1 + item_dim c) k 0));
}

pub create-IsOver : (c : Carrier) → IsOver c (create c)
unfolding create
create-IsOver c = record {
  table = empty-IsTable c;
  inverse_table = empty-IsTable c;
  inverts = λ k nz. absurd (nz (get_or-replicate {A = ℕ} (1 + item_dim c) k 0));
  inverted = λ k nz. absurd (nz (get_or-replicate {A = ℕ} (1 + item_dim c) k 0));
}

-- A key with a value is an ob with its bit, and the inverse of the value is equal to the key; a key
-- without a value has no bit.
pub record Consistent (c : Carrier) (domain : DenseSet) (values inverse : List ℕ) (ob : ℕ)
    : Type 0 where
  pub value :
      get_or values ob 0 ≢ 0
      → (contains c.support ob ≡ true)
        × (contains domain ob ≡ true)
        × SameClass c (get_or inverse (get_or values ob 0) 0) ob
  pub no_value : get_or values ob 0 ≡ 0 → contains domain ob ≡ false

module _ {c : Carrier} (v : Inv.IsValid c) (domain : DenseSet) (values inverse : List ℕ) where
  abbrev Decides : Option Bool → Type 0 → Type 0
  Decides o P = (b : Bool) × (o ≡ some b) × ((b ≡ true) ↔ P)

  check_entry-Decides :
      (ob : ℕ)
      → Decides (check_entry c domain values inverse ob) (Consistent c domain values inverse ob)
  unfolding check_entry
  check_entry-Decides ob =
      let val = get_or values ob 0 in
      elim (Bool-cases (contains c.support ob)) [
        | inr off ↦ (
          val == 0 && not (contains domain ob),
          rw off refl,
          (
            λ e. record { value = λ nz. absurd (ground arith); no_value = λ z. ground arith },
            λ h. elim (Bool-cases (val == 0)) [
              | inl z ↦ let bit = h.no_value (ground arith) in rw (z, bit) refl
              | inr n ↦ let on = (h.value (λ q. ground arith)).0 in absurd (ground arith)
            ],
          ),
        )
        | inl on ↦ elim (Bool-cases (val == 0)) [
          | inl z ↦ (
            not (contains domain ob),
            rw (on, z) refl,
            (
              λ e. record { value = λ nz. absurd (ground arith); no_value = λ q. ground arith },
              λ h. let bit = h.no_value (ground arith) in rw bit refl,
            ),
          )
          | inr n ↦ elim (Bool-cases (contains domain ob)) [
            | inl bit ↦ (
              root c.reps (get_or inverse val 0) == root c.reps ob,
              rw (on, n, bit) (equal-root v (get_or inverse val 0) ob),
              (
                λ e. record {
                  value = λ nz. (on, bit, (==_iff _ _).0 e);
                  no_value = λ q. absurd (ground arith);
                },
                λ h. (==_iff _ _).1 (h.value (λ q. ground arith)).2,
              ),
            )
            | inr no_bit ↦ (
              false,
              rw (on, n, no_bit) refl,
              (λ e. absurd (cc), λ h. sym no_bit ∙ (h.value (λ q. ground arith)).1),
            )
          ]
        ]
      ]

  check_entries-Decides :
      item_dim c < max_item_dim
      → (n ob : ℕ) → ob + n ≡ item_dim c + 1
      → Decides
          (check_entries c domain values inverse (suc n) ob)
          ((i : ℕ) → ob ≤ i → i ≤ item_dim c → Consistent c domain values inverse i)
  unfolding check_entries
  check_entries-Decides fits zero ob e =
      let over : ltb (item_dim c) ob ≡ true = ground arith in
      (true, rw over refl, (λ t i low high. absurd (omega arith), λ h. refl))
  check_entries-Decides fits (suc n) ob e =
      let more : ltb (item_dim c) ob ≡ false = ground arith in
      let next : next_ob ob ≡ ob + 1 = omega (arith, e, fits) in
      let (b, here, (first, last)) = check_entry-Decides ob in
      let (b', later, (first', last')) = check_entries-Decides fits n (ob + 1) (omega arith) in
      let rest : check_entries c domain values inverse (suc n) (next_ob ob) ≡ some b' =
        ap (check_entries c domain values inverse (suc n)) next ∙ later in
      (
        b && b',
        rw (more, check_entries, here, rest) refl,
        (
          λ t i low high. elim (Bool-cases (i == ob)) [
            | inl same ↦
                subst (Consistent c domain values inverse) (sym ((==_iff i ob).0 same))
                  (first (and_true b b' t).0)
            | inr other ↦ first' (and_true b b' t).1 i (ground arith) high
          ],
          λ h.
              let t = last (h ob (omega arith) (omega arith)) in
              let t' = last' (λ i low high. h i (omega arith) high) in rw (t, t') refl,
        ),
      )

-- On a valid carrier of less than the greatest dimension, the two loops of `validate` end, and no
-- assertion of them fails exactly if every key and every value from 1 to the dimension is consistent:
-- one that is mapped is an ob with its bit, and the inverse map leads back to an equal ob; one that is
-- not mapped has no bit.
pub validate_entries_iff :
    (c : Carrier) (f : InjectiveFunction)
    → Inv.IsValid c
    → item_dim c < max_item_dim
    → (b : Bool) × (validate_entries c f ≡ some b)
      × ((b ≡ true) ↔ (
          (i : ℕ)
          → 1 ≤ i
          → i ≤ item_dim c
          → Consistent c f.domain f.values f.inverse i
            × Consistent c f.inverse_domain f.inverse f.values i))
unfolding validate_entries
validate_entries_iff c f v fits =
    let one : item_dim c + 1 ≡ suc (item_dim c) = omega arith in
    let (b, run, (first, last)) =
      check_entries-Decides v f.domain f.values f.inverse fits (item_dim c) 1 (omega arith) in
    let (b', run', (first', last')) =
      check_entries-Decides v f.inverse_domain f.inverse f.values fits (item_dim c) 1
        (omega arith) in
    (
      b && b',
      rw (one, run, run') refl,
      (
        λ t i low high.
            (first (and_true b b' t).0 i low high, first' (and_true b b' t).1 i low high),
        λ h.
            let t = last (λ i low high. (h i low high).0) in
            let t' = last' (λ i low high. (h i low high).1) in rw (t, t') refl,
      ),
    )

-- ===== src/BinaryFunction/Validate.antt =====
-- `BinaryFunction::validate` of pomagma/atlas/macro/binary_function.cpp: the consistency of lines and
-- values.
use pomagma.Prelude.{
  ℕ, zero, suc, ◌+◌, ◌≤◌, ◌<◌, ◌≡◌, ◌≢◌, ◌↔◌, refl, sym, ap, ◌∙◌, Bool, true, false, not, ◌&&◌,
  ◌==◌, ==_iff, inl, inr, Option, none, some, arith, Bool-cases, Option-cases,
}
use pomagma.Prelude.Table.{pair_key}
use pomagma.Prelude.Table.{find as find_pair}
use pomagma.DenseSet.{contains}
use pomagma.Carrier.{Carrier, item_dim}
use pomagma.BinaryFunction.{BinaryFunction, defined, find, all_from, check_value, validate_values}
use pomagma.BinaryFunction.Insert.{IsOver}
use pomagma.BinaryRelation.Insert.{and_true}
use mathlib.Core.Path.{subst}
use mathlib.Core.Option.{some-injective}

pub all_from_lem :
    (n ob : ℕ) (check : ℕ → Bool) → ((i : ℕ) → ob ≤ i → check i ≡ true) → all_from n ob check ≡ true
unfolding all_from
all_from_lem zero ob check h = refl
all_from_lem (suc n) ob check h =
    rw (h ob (omega arith), all_from_lem n (ob + 1) check (λ i le. h i (omega arith))) refl

pub check_value_lem :
    (c : Carrier) (i j value : ℕ) (bit : Bool) (entry : Option ℕ)
    → bit ≡ not (value == 0)
    → elim entry as (λ _. ℕ) [ none ↦ 0 | some x ↦ x ] ≡ value
    → entry ≢ some 0
    → (value ≢ 0
        → (contains c.support i ≡ true)
          × (contains c.support j ≡ true)
          × (contains c.support value ≡ true))
    → check_value c (contains c.support i && contains c.support j) bit entry ≡ true
unfolding check_value
check_value_lem c i j value bit none hb hv full on = ground (arith, hb, hv)
check_value_lem c i j value bit (some x) hb hv full on =
    let more : x ≢ 0 = λ z. full (ap some z) in
    let (on_i, on_j, on_value) = on (λ z. more (hv ∙ z)) in
    let on_x : contains c.support x ≡ true = ap (contains c.support) hv ∙ on_value in
    ground (arith, hb, hv, on_i, on_j, on_x)

-- The assertions on pairs of `validate` hold of every function for which `IsOver` says that bits and
-- values agree, on pairs of obs with obs as values.
pub validate_values_lem :
    (c : Carrier) (f : BinaryFunction) → IsOver c f → validate_values c f ≡ true
unfolding validate_values find
validate_values_lem c f h = all_from_lem (item_dim c) 1 _ λ i le.
    all_from_lem (item_dim c) 1 _ λ j le'.
      check_value_lem c i j (find f i j) (defined f i j) (find_pair f.values (i, j)) (h.agrees i j)
        refl (h.full (i, j)) (h.supported i j)

all_from_iff :
    (n ob : ℕ) (check : ℕ → Bool)
    → (all_from n ob check ≡ true) ↔ ((i : ℕ) → ob ≤ i → i < ob + n → check i ≡ true)
unfolding all_from
all_from_iff zero ob check = (λ e i le lt. absurd (omega arith), λ h. refl)
all_from_iff (suc n) ob check =
    let (first, last) = all_from_iff n (ob + 1) check in
    (
      λ e i le lt. elim (Bool-cases (i == ob)) [
        | inl same ↦ ap check ((==_iff i ob).0 same) ∙ (and_true (check ob) _ e).0
        | inr other ↦ first (and_true (check ob) _ e).1 i (ground arith) (omega arith)
      ],
      λ h.
          let here = h ob (omega arith) (omega arith) in
          let later = last (λ i le lt. h i (omega arith) (omega arith)) in rw (here, later) refl,
    )

-- A pair of obs with its bit, and a value that is an ob
abbrev pub Valued : Carrier → BinaryFunction → ℕ → ℕ → ℕ → Type 0
Valued c f i j val =
    (contains c.support i ≡ true)
    × (contains c.support j ≡ true)
    × (defined f i j ≡ true)
    × (val ≢ 0)
    × (contains c.support val ≡ true)

-- A pair with a value is one of obs, has its bit, and its value is an ob; a pair of obs without a
-- value has no bit.
pub record Consistent (c : Carrier) (f : BinaryFunction) (i j : ℕ) : Type 0 where
  pub value : (val : ℕ) → find_pair f.values (i, j) ≡ some val → Valued c f i j val
  pub no_value :
      find_pair f.values (i, j) ≡ none
      → contains c.support i ≡ true
      → contains c.support j ≡ true
      → defined f i j ≡ false

check_none_iff :
    (c : Carrier) (a b bit : Bool)
    → (check_value c (a && b) bit none ≡ true) ↔ (a ≡ true → b ≡ true → bit ≡ false)
unfolding check_value
check_none_iff c a b bit = (λ e on on'. ground (arith, on, on'), λ h. ground arith)

check_some_iff :
    (c : Carrier) (a b bit : Bool) (val : ℕ)
    → (check_value c (a && b) bit (some val) ≡ true)
      ↔ ((a ≡ true) × (b ≡ true) × (bit ≡ true) × (val ≢ 0) × (contains c.support val ≡ true))
unfolding check_value
check_some_iff c a b bit val = (
  λ e. (ground arith, ground arith, ground arith, λ z. ground arith, ground arith),
  λ (h, h1, h2, h3, h4). ground arith,
)

check_value_iff :
    (c : Carrier) (f : BinaryFunction) (i j : ℕ)
    → (check_value c
          (contains c.support i && contains c.support j)
          (defined f i j)
          (find_pair f.values (i, j))
        ≡ true)
      ↔ Consistent c f i j
check_value_iff c f i j = elim (Option-cases (find_pair f.values (i, j))) [
  | inl empty ↦
      let (first, last) =
        check_none_iff c (contains c.support i) (contains c.support j) (defined f i j) in
      rw empty (
        λ e. record { value = λ val at. absurd (cc); no_value = λ at. first e },
        λ h. last (h.no_value empty),
      )
  | inr (x, at) ↦
      let (first, last) =
        check_some_iff c (contains c.support i) (contains c.support j) (defined f i j) x in
      rw at (
        λ e. record {
          value = λ val at'. subst (Valued c f i j) (some-injective x val (sym at ∙ at')) (first e);
          no_value = λ at'. absurd (cc);
        },
        λ h. last (h.value x at),
      )
]

-- The two loops of `validate` over the pairs from 1 to the dimension find no failing assertion exactly
-- if each of these pairs is consistent: a pair with a value is one of obs, has its bit, and its value
-- is an ob and not 0; a pair of obs without a value has no bit.
pub validate_values_iff :
    (c : Carrier) (f : BinaryFunction)
    → (validate_values c f ≡ true)
      ↔ ((i j : ℕ) → 1 ≤ i → i ≤ item_dim c → 1 ≤ j → j ≤ item_dim c → Consistent c f i j)
unfolding validate_values
validate_values_iff c f = (
  λ e i j low high low' high'.
      let row = (all_from_iff (item_dim c) 1 _).0 e i low (omega arith) in
      let pair = (all_from_iff (item_dim c) 1 _).0 row j low' (omega arith) in
      (check_value_iff c f i j).0 pair,
  λ h. (all_from_iff (item_dim c) 1 _).1 λ i low lt.
      (all_from_iff (item_dim c) 1 _).1
        λ j low' lt'. (check_value_iff c f i j).1 (h i j low (omega arith) low' (omega arith)),
)

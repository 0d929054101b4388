-- ===== src/Carrier/Validate.antt =====
-- The loop of `Carrier::validate` in pomagma/atlas/macro/carrier.cpp, on the representatives and the
-- counts.
use pomagma.Prelude.{
  ℕ, zero, suc, ◌+◌, ◌≤◌, ◌<◌, ◌<◌, ◌≡◌, refl, sym, ap, ◌∙◌, Bool, true, false, ◌&&◌, ◌==◌, ltb,
  if◌then◌else◌, Option, none, some, arith, Bool-cases, inl, inr,
}
use pomagma.Prelude.Count.{count, count-le, to_nat}
use pomagma.Word.{inc_size, word_mod}
use pomagma.DenseSet.{contains}
use pomagma.Carrier.{Carrier, max_item_dim, next_ob, item_dim, rep_at}
use pomagma.Carrier.Inv.{IsValid, is_rep, no_ob_zero}

-- `for (Ob i = 1; i <= item_dim(); ++i)` from `ob` on, with the numbers of items and representatives so
-- far. `none` is an assertion that fails, or a round too many: if the dimension is the greatest `Ob`,
-- the loop never ends.
unfoldable pub check_obs : Carrier → ℕ → ℕ → ℕ → ℕ → Option (ℕ × ℕ)
check_obs c zero ob items reps = none
check_obs c (suc fuel) ob items reps =
    let rep = rep_at c ob in
    let counted =
      check_obs c fuel (next_ob ob) (inc_size items) (if rep == ob then inc_size reps else reps) in
    let free = check_obs c fuel (next_ob ob) items reps in
    if ltb (item_dim c) ob
    then some (items, reps)
    else if contains c.support ob
    then if rep == 0 then none else if ltb ob rep then none else counted
    else if rep == 0
    then free
    else none

-- Whether no assertion of `validate` on representatives and counts fails
unfoldable pub validate_reps : Carrier → Bool
unfolding check_obs
validate_reps c = elim (check_obs c (item_dim c + 1) 1 0 0) [
  | none ↦ false
  | some (items, reps) ↦ c.item_count == items && c.rep_count == reps
]

module _ (c : Carrier) (v : IsValid c) (fits : item_dim c < max_item_dim) where
  abbrev on : ℕ → Bool
  on = contains c.support

  -- The counts of the obs below `k`
  abbrev counts : ℕ → Option (ℕ × ℕ)
  counts k = some (count k on, count k (is_rep c))

  inc_count : (p : ℕ → Bool) (i : ℕ) → i ≤ item_dim c → inc_size (count i p) ≡ count i p + 1
  inc_count p i le =
      let small : count i p + 1 < word_mod = omega (arith, count-le i p, v.small) in
      omega (arith, small)

  count_next : (p : ℕ → Bool) (i : ℕ) → count (i + 1) p ≡ count i p + to_nat (p i)
  unfolding count
  count_next p i = let e : i + 1 ≡ suc i = omega arith in rw e refl

  next_item : (i : ℕ) → i ≤ item_dim c → on i ≡ true → inc_size (count i on) ≡ count (i + 1) on
  next_item i le here =
      inc_count on i le ∙ sym (count_next on i ∙ ap (λ b. count i on + to_nat b) here)

  next_rep :
      (i : ℕ)
      → i ≤ item_dim c
      → on i ≡ true
      → (if rep_at c i == i then inc_size (count i (is_rep c)) else count i (is_rep c))
        ≡ count (i + 1) (is_rep c)
  next_rep i le here = elim (Bool-cases (rep_at c i == i)) [
    | inl top ↦
        let is : is_rep c i ≡ true = ground (arith, here, top) in
        rw top (
          inc_count (is_rep c) i le
          ∙ sym (count_next (is_rep c) i ∙ ap (λ b. count i (is_rep c) + to_nat b) is))
    | inr below ↦
        let is : is_rep c i ≡ false = ground (arith, here, below) in
        rw below
          (omega (arith, count_next (is_rep c) i ∙ ap (λ b. count i (is_rep c) + to_nat b) is))
  ]

  skip_count : (p : ℕ → Bool) (i : ℕ) → p i ≡ false → count i p ≡ count (i + 1) p
  skip_count p i e = omega (arith, count_next p i ∙ ap (λ b. count i p + to_nat b) e)

  shift : (n i : ℕ) → counts (i + 1 + n) ≡ counts (i + suc n)
  shift n i = let e : i + 1 + n ≡ i + suc n = omega arith in ap counts e

  -- `suc n`: one more for the test at the end
  check_obs_lem :
      (n i : ℕ)
      → i + n ≡ item_dim c + 1
      → check_obs c (suc n) i (count i on) (count i (is_rep c)) ≡ counts (i + n)
  unfolding check_obs
  check_obs_lem zero i e =
      let over : ltb (item_dim c) i ≡ true = ground arith in
      let end : i + 0 ≡ i = omega arith in rw (over, end) refl
  check_obs_lem (suc n) i e =
      let more : ltb (item_dim c) i ≡ false = ground arith in
      let next : next_ob i ≡ i + 1 = omega (arith, e, fits) in
      elim (Bool-cases (contains c.support i)) [
        | inl here ↦
            let (low, on_rep) = v.supported i here in
            let some_rep : (rep_at c i == 0) ≡ false = ground (arith, low) in
            let ordered : ltb i (rep_at c i) ≡ false = ground (arith, v.decreasing i) in
            rw (more, here, some_rep, ordered)
              (ap
                  (λ k.
                    check_obs c (suc n) k (inc_size (count i on)) (
                      if rep_at c i == i
                      then inc_size (count i (is_rep c))
                      else count i (is_rep c)))
                  next
                ∙ ap
                    (λ k. check_obs c (suc n) (i + 1) k (
                      if rep_at c i == i
                      then inc_size (count i (is_rep c))
                      else count i (is_rep c)))
                    (next_item i (omega arith) here)
                ∙ ap (check_obs c (suc n) (i + 1) (count (i + 1) on))
                    (next_rep i (omega arith) here)
                ∙ check_obs_lem n (i + 1) (omega arith)
                ∙ shift n i)
        | inr free ↦
            let no_rep : (rep_at c i == 0) ≡ true = ground (arith, v.unsupported i free) in
            let is : is_rep c i ≡ false = ground (arith, free) in
            rw (more, free, no_rep)
              (ap (λ k. check_obs c (suc n) k (count i on) (count i (is_rep c))) next
                ∙ ap (λ k. check_obs c (suc n) (i + 1) k (count i (is_rep c)))
                    (skip_count on i free)
                ∙ ap (check_obs c (suc n) (i + 1) (count (i + 1) on)) (skip_count (is_rep c) i is)
                ∙ check_obs_lem n (i + 1) (omega arith)
                ∙ shift n i)
      ]

  count_zero : (p : ℕ → Bool) → count 0 p ≡ 0
  unfolding count
  count_zero p = refl

  totals : counts (1 + item_dim c) ≡ some (c.item_count, c.rep_count)
  totals =
      let e : 1 + item_dim c ≡ item_dim c + 1 = omega arith in
      ap counts e
      ∙ ap (λ k. some (k, count (item_dim c + 1) (is_rep c))) (sym v.items)
      ∙ ap (λ k. some (c.item_count, k)) (sym v.rep_items)

  -- The loop of `validate` ends and passes on a valid carrier of less than the greatest dimension: each ob has a representative that is no greater,
  -- what is no ob has none, and the counts are those of the obs and of the representatives.
  pub validate_reps_lem : validate_reps c ≡ true
  unfolding validate_reps
  validate_reps_lem =
      let none_yet : (p : ℕ → Bool) → p 0 ≡ false → count 1 p ≡ 0 =
        λ p e. sym (skip_count p 0 e) ∙ count_zero p in
      let no_rep : is_rep c 0 ≡ false = ground (arith, no_ob_zero v) in
      let one_more : item_dim c + 1 ≡ suc (item_dim c) = omega arith in
      let ran : check_obs c (item_dim c + 1) 1 0 0 ≡ some (c.item_count, c.rep_count) =
        ap (λ k. check_obs c (item_dim c + 1) 1 k 0) (sym (none_yet on (no_ob_zero v)))
        ∙ ap (check_obs c (item_dim c + 1) 1 (count 1 on)) (sym (none_yet (is_rep c) no_rep))
        ∙ ap (λ k. check_obs c k 1 (count 1 on) (count 1 (is_rep c))) one_more
        ∙ check_obs_lem (item_dim c) 1 (omega arith)
        ∙ totals in
      let same : (c.item_count == c.item_count && c.rep_count == c.rep_count) ≡ true =
        ground arith in
      ap
        (λ (r : Option (ℕ × ℕ)). elim r as (λ _. Bool) [
          | none ↦ false
          | some (items, reps) ↦ c.item_count == items && c.rep_count == reps
        ])
        ran
      ∙ same

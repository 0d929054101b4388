-- ===== src/DenseSet/Free.antt =====
-- dense_set.cpp, insert_one: the two loops that look for a free bit.
use Prim.Native.Nat.{bit_and}
use native.Mathlib.Nat.{pow-suc, one-le-pow}
use native.Mathlib.Decide.{dec_lt}
use pomagma.Prelude.{
  ℕ, zero, suc, ◌+◌, ◌-◌, ◌*◌, ◌/◌, ◌%◌, ◌^◌, ◌≤◌, ◌<◌, ◌≡◌, ◌≢◌, ap, ◌∙◌, List, [], ◌∷◌, true,
  false, ◌==◌, some, get_or, length, arith, Bool-cases, inl, inr, ==_iff,
}
use pomagma.Word.{word_mod, complement}
use pomagma.Word.Bits.{get_bit, pow-bit_and}
use pomagma.Word.Ref.{mask-lt}
use pomagma.DenseSet.Scan.{free_word, free_bit}

-- A word that is not zero has a bit.
pub some_bit : (n w : ℕ) → w < 2 ^ n → w ≢ 0 → (k : ℕ) × (k < n) × (get_bit w k ≡ true)
unfolding get_bit
some_bit zero w h ne = absurd (omega arith)
some_bit (suc n) w h ne = elim (Bool-cases (w % 2 == 1)) [
  | inl e ↦ (0, omega arith, e)
  | inr e ↦
      let (k, r, on) = some_bit n (w / 2) (omega (arith, pow-suc 2 n)) (λ z. ground arith) in
      (suc k, omega arith, on)
]

-- The first word that is not full.
abbrev pub FreeWord : List ℕ → ℕ → Type 0
FreeWord ws r =
    (complement (get_or ws r 0) ≢ 0) × ((t : ℕ) → t < r → complement (get_or ws t 0) ≡ 0)

FreeWord-suc :
    (w : ℕ) (ws : List ℕ) (r : ℕ) → complement w ≡ 0 → FreeWord ws r → FreeWord (w ∷ ws) (suc r)
FreeWord-suc w ws r z f = (f.0, before)
  where
    before : (t : ℕ) → t < suc r → complement (get_or (w ∷ ws) t 0) ≡ 0
    before zero h = z
    before (suc t) h = f.1 t (omega arith)

pub free_word_lem :
    (ws : List ℕ) (q k : ℕ)
    → k < length ws
    → complement (get_or ws k 0) ≢ 0
    → (r : ℕ) × (free_word ws q ≡ some (q + r)) × (r < length ws) × FreeWord ws r
unfolding free_word
free_word_lem [] q k h ne = absurd (omega arith)
free_word_lem (w ∷ ws) q k h ne = elim (Bool-cases (complement w == 0)) [
  | inr z ↦ (
    0,
    rw z (ap some (omega arith)),
    omega arith,
    (λ e. ground arith, λ t r. absurd (omega arith)),
  )
  | inl z ↦
      let (j, l, f) = later k h ne ((==_iff (complement w) 0).0 z) in
      let (r, e, b, fw) = free_word_lem ws (q + 1) j l f in
      (
        suc r,
        rw z (e ∙ ap some (omega arith)),
        omega arith,
        FreeWord-suc w ws r ((==_iff (complement w) 0).0 z) fw,
      )
]
  where
    later :
        (k : ℕ)
        → k < suc (length ws)
        → complement (get_or (w ∷ ws) k 0) ≢ 0
        → complement w ≡ 0
        → (j : ℕ) × (j < length ws) × (complement (get_or ws j 0) ≢ 0)
    later zero h ne z = absurd (ne z)
    later (suc j) h ne z = (j, omega arith, ne)

-- The least free bit from bit `m` on.
pub free_bit_lem :
    (n free m ob k : ℕ)
    → n + m ≡ 64
    → m ≤ k
    → k < 64
    → get_bit free k ≡ true
    → (t : ℕ) × (free_bit n free (2 ^ m) ob ≡ some (2 ^ t, ob + (t - m)))
      × (m ≤ t)
      × (t < 64)
      × (get_bit free t ≡ true)
      × ((i : ℕ) → m ≤ i → i < t → get_bit free i ≡ false)
unfolding free_bit
free_bit_lem zero free m ob k e l h on = absurd (omega arith)
free_bit_lem (suc n) free m ob k e l h on = elim (Bool-cases (get_bit free m)) [
  | inl b ↦
      let nz : (bit_and (2 ^ m) free == 0) ≡ false =
        ground (arith, pow-bit_and free m, one-le-pow m 2) in
      (
        m,
        rw nz (ap (λ o. some (2 ^ m, o)) (omega arith)),
        omega arith,
        omega arith,
        b,
        λ i p q. absurd (omega arith),
      )
  | inr b ↦
      let z : (bit_and (2 ^ m) free == 0) ≡ true = ground (arith, pow-bit_and free m) in
      let next : m < k = beyond b in
      let shifted : 2 ^ m * 2 % word_mod ≡ 2 ^ suc m =
        omega (arith, pow-suc 2 m, mask-lt (suc m) (omega arith)) in
      let (t, r, lo, hi, bit, least) =
        free_bit_lem n free (suc m) (ob + 1) k (omega arith) next h on in
      (
        t,
        rw (z, shifted) (r ∙ ap (λ o. some (2 ^ t, o)) (omega arith)),
        omega arith,
        hi,
        bit,
        λ i p q. from_next b least i p q,
      )
]
  where
    beyond : get_bit free m ≡ false → m < k
    beyond b = elim (dec_lt m k) [
      | yes p ↦ p
      | no p ↦ let same : m ≡ k = omega arith in let b' = rw same at b in ground arith
    ]

    from_next :
        {t : ℕ}
        → get_bit free m ≡ false
        → ((i : ℕ) → suc m ≤ i → i < t → get_bit free i ≡ false)
        → (i : ℕ) → m ≤ i
        → i < t
        → get_bit free i ≡ false
    from_next b least i p q = elim (dec_lt m i) [
      | yes l ↦ least i l q
      | no l ↦ let same : i ≡ m = omega arith in rw same b
    ]

-- ===== src/Vm/Fold.antt =====
-- The loops of pomagma/atlas/vm_impl.hpp over sets that their body leaves alone: they run the body
-- on the items of the sets, one after the other.
use pomagma.Prelude.{
  ℕ, zero, suc, ◌+◌, ◌*◌, ◌/◌, ◌%◌, ◌≤◌, ◌≡◌, ◌≢◌, refl, sym, ap, ◌∙◌, ◌⊎◌, inl, inr, List, [], ◌∷◌,
  Bool, true, false, ◌==◌, some, drop, arith, Bool-cases, Option-cases,
}
use Prim.Native.Nat.{bit_and}
use pomagma.Word.{bits_per_word}
use pomagma.DenseSet.Iter.{SetIterator, next, next_bit, next_block, first_bit, iter_words, visit}
use pomagma.DenseSet.Items.{Visits, members}
use pomagma.Vm.{Structure, Context, Outcome, ok, err, ◌>>=◌}
use pomagma.Vm.Loop.{Cut, cut_words, start, advance, rounds, loop, Body}

drop-suc-cons {ℓ} :
    {A : Type ℓ} (q : ℕ) (xs : List A) (y : A) (ys : List A)
    → drop q xs ≡ y ∷ ys
    → drop (suc q) xs ≡ ys
drop-suc-cons zero [] y ys e = cc
drop-suc-cons zero (x ∷ xs) y ys e = cc
drop-suc-cons (suc q) [] y ys e = cc
drop-suc-cons (suc q) (x ∷ xs) y ys e = drop-suc-cons q xs y ys e

drop-cons {ℓ} :
    {A : Type ℓ} (q : ℕ) (xs : List A) (y : A) (ys : List A)
    → drop q xs ≡ y ∷ ys
    → drop (q + 1) xs ≡ ys
drop-cons q xs y ys e =
    let next_q : q + 1 ≡ suc q = omega arith in
    ap (λ k. drop k xs) next_q ∙ drop-suc-cons q xs y ys e

-- The words after the current one are those of the sets.
abbrev Follows : List ℕ → SetIterator → Type 0
Follows ws it = (it.i ≡ 0) ⊎ (it.rest ≡ drop (it.quot + 1) ws)

next_block-Follows :
    (q : ℕ) (ws us : List ℕ) (it : SetIterator)
    → drop q ws ≡ us
    → next_block q us ≡ some it
    → Follows ws it
unfolding next_block
next_block-Follows q ws [] it h e = inl (ground arith)
next_block-Follows q ws (w ∷ us) it h e = elim (Bool-cases (w == 0)) [
  | inl empty ↦ next_block-Follows (q + 1) ws us it (drop-cons q ws w us h) (ground arith)
  | inr full ↦ elim (Option-cases (first_bit bits_per_word 0 w)) [
    | inl never ↦ absurd (ground arith)
    | inr ((rem, word), found) ↦ inr (
        let rests : it.rest ≡ us = ground arith in
        let quots : q ≡ it.quot = ground arith in
        rests ∙ sym (drop-cons q ws w us h) ∙ ap (λ k. drop (k + 1) ws) quots)
  ]
]

next_bit-Follows :
    (fuel rem quot word : ℕ) (ws us : List ℕ) (it : SetIterator)
    → drop (quot + 1) ws ≡ us
    → next_bit fuel rem quot word us ≡ some it
    → Follows ws it
unfolding next_bit
next_bit-Follows zero rem quot word ws us it h e = absurd (ground arith)
next_bit-Follows (suc fuel) rem quot word ws us it h e =
    elim (Bool-cases ((rem + 1) % bits_per_word == 0)) [
      | inl over ↦ next_block-Follows (quot + 1) ws us it h (ground arith)
      | inr inside ↦ elim (Bool-cases (bit_and (word / 2) 1 == 1)) [
        | inl one ↦ inr (
            let rests : it.rest ≡ us = ground arith in
            let quots : quot ≡ it.quot = ground arith in
            rests ∙ sym h ∙ ap (λ k. drop (k + 1) ws) quots)
        | inr zero_bit ↦ next_bit-Follows fuel (rem + 1) quot (word / 2) ws us it h (ground arith)
      ]
    ]

next-Follows :
    (ws : List ℕ) (it it' : SetIterator)
    → it.rest ≡ drop (it.quot + 1) ws
    → next it ≡ some it'
    → Follows ws it'
unfolding next
next-Follows ws it it' h e =
    next_bit-Follows bits_per_word it.rem it.quot it.word ws it.rest it' (sym h) e

visit-next :
    (n : ℕ) (it : SetIterator) (obs : List ℕ)
    → (it.i == 0) ≡ false
    → visit (suc n) it ≡ some obs
    → (it' : SetIterator) × (rest : List ℕ) × (next it ≡ some it')
      × (visit n it' ≡ some rest)
      × (it.i ∷ rest ≡ obs)
unfolding visit
visit-next n it obs more e = elim (Option-cases (next it)) [
  | inl stuck ↦ absurd (ground arith)
  | inr (it', moved) ↦ elim (Option-cases (visit n it')) [
    | inl stuck ↦ absurd (ground arith)
    | inr (rest, visited) ↦ (it', rest, moved, visited, ground arith)
  ]
]

no_round : (it : SetIterator) (obs : List ℕ) → visit zero it ≢ some obs
unfolding visit
no_round it obs e = cc

visit-end :
    (n : ℕ) (it : SetIterator) (obs : List ℕ)
    → (it.i == 0) ≡ true
    → visit (suc n) it ≡ some obs
    → [] ≡ obs
unfolding visit
visit-end n it obs over e = ground arith

bind_same {ℓ κ} :
    {A : Type ℓ} {B : Type κ} (m : Outcome A) (f g : A → Outcome B)
    → ((a : A) → m ≡ ok a → f a ≡ g a)
    → (m >>= f) ≡ (m >>= g)
bind_same (ok a) f g h = h a refl
bind_same (err e) f g h = refl

module _ {S : Type 0} (t : Structure S) where
  open t use {word_dim}

  -- The body of a loop on some obs, in order, until it fails.
  unfoldable pub run_each : Body t → List ℕ → Context → S → Outcome (Context × S)
  run_each body [] c s = ok (c, s)
  run_each body (ob ∷ obs) c s = do (c', s') ← body ob c s; run_each body obs c' s'

  module _ (cut : Cut) (ws : List ℕ) (body : Body t) (K : S → Type 0)
      (same : (s : S) → K s → cut_words t s cut ≡ ok ws)
      (keep : (i : ℕ) (c c' : Context) (s s' : S) → K s → body i c s ≡ ok (c', s') → K s') where
    advance-next :
        (s : S) (it it' : SetIterator)
        → K s
        → it.rest ≡ drop (it.quot + 1) ws
        → next it ≡ some it'
        → advance t s cut it ≡ ok it'
    unfolding advance
    advance-next s it it' k h e = rw (same s k, sym h, e) refl

    in_word :
        (it : SetIterator) → Follows ws it → (it.i == 0) ≡ false → it.rest ≡ drop (it.quot + 1) ws
    in_word it (inl z) more = absurd (ground arith)
    in_word it (inr h) more = h

    rounds-run_each :
        (n fuel : ℕ) (it : SetIterator) (obs : List ℕ) (c : Context) (s : S)
        → n ≤ fuel
        → Follows ws it
        → K s
        → visit n it ≡ some obs
        → rounds t fuel cut body it c s ≡ run_each body obs c s
    unfolding rounds run_each
    rounds-run_each zero fuel it obs c s le f k e = absurd (no_round it obs e)
    rounds-run_each (suc n) zero it obs c s le f k e = absurd (omega arith)
    rounds-run_each (suc n) (suc fuel) it obs c s le f k e = elim (Bool-cases (it.i == 0)) [
      | inl over ↦ rw (over, rounds) (ap (λ l. run_each body l c s) (visit-end n it obs over e))
      | inr more ↦
          let (it', rest, moved, visited, cons) = visit-next n it obs more e in
          rw (more, rounds)
            (bind_same (body it.i c s) _ _ (λ r ran.
                let k' = keep it.i c r.0 s r.1 k ran in
                rw (advance-next r.1 it it' k' (in_word it f more) moved) (
                  rounds-run_each n fuel it' rest r.0 r.1 (omega arith)
                    (next-Follows ws it it' (in_word it f more) moved) k' visited))
              ∙ ap (λ l. run_each body l c s) cons)
    ]

    -- A loop whose body leaves the sets of its iterator alone ends, with enough rounds, and runs the
    -- body on the items of the sets in ascending order. The conditions: as long as `K` holds of the
    -- tables, and the body keeps `K`, the words of the sets are `ws`, whose items are the numbers from
    -- 1 to `n` that pass `p`, and the words have room for `n` items.
    pub loop-run_each :
        (n : ℕ) (p : ℕ → Bool) (c : Context) (s : S)
        → n ≤ 64 * word_dim
        → Visits n p ws
        → K s
        → loop t cut body c s ≡ run_each body (members p 1 n) c s
    unfolding loop start iter_words
    loop-run_each n p c s le (it, made, visited) k =
        rw (same s k, made)
          (rounds-run_each (n + 1) (64 * word_dim + 1) it (members p 1 n) c s (omega arith)
            (next_block-Follows 0 ws ws it refl made) k visited)

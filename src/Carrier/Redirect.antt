-- ===== src/Carrier/Redirect.antt =====
-- The loop of Carrier::unsafe_remove that points past the removed ob.
use pomagma.Prelude.{
  ℕ, zero, suc, ◌+◌, ◌≡◌, ◌≢◌, ◌<◌, refl, ap, ◌∙◌, List, true, false, some, ◌==◌, if◌then◌else◌,
  ltb, get_or, set, length, get_or-set, length-set, arith, Bool-cases, inl, inr,
}
use pomagma.Carrier.{redirect, next_ob, max_item_dim}

-- The loop without the wrap, over `n` obs from `other` on
unfoldable pub redirect_rounds : ℕ → ℕ → ℕ → ℕ → List ℕ → List ℕ
redirect_rounds zero other ob rep reps = reps
redirect_rounds (suc n) other ob rep reps =
    redirect_rounds n (other + 1) ob rep
      (if get_or reps other 0 == ob then set reps other rep else reps)

redirect-suc :
    (n other end ob rep : ℕ) (reps : List ℕ)
    → other + n ≡ end + 1
    → end < max_item_dim
    → redirect (suc n) other end ob rep reps ≡ some (redirect_rounds n other ob rep reps)
unfolding redirect redirect_rounds
redirect-suc zero other end ob rep reps e lt =
    let over : ltb end other ≡ true = ground arith in rw over refl
redirect-suc (suc n) other end ob rep reps e lt =
    let more : ltb end other ≡ false = ground arith in
    let next : next_ob other ≡ other + 1 = omega (arith, e, lt) in
    let reps' = if get_or reps other 0 == ob then set reps other rep else reps in
    rw more (
      ap (λ k. redirect (suc n) k end ob rep reps') next
      ∙ redirect-suc n (other + 1) end ob rep reps' (omega arith) lt)

-- The loop ends where the end is less than the greatest `Ob`.
pub redirect-redirect_rounds :
    (n other end ob rep : ℕ) (reps : List ℕ)
    → other + n ≡ end + 1
    → end < max_item_dim
    → redirect (n + 1) other end ob rep reps ≡ some (redirect_rounds n other ob rep reps)
redirect-redirect_rounds n other end ob rep reps e lt =
    let one : n + 1 ≡ suc n = omega arith in
    ap (λ k. redirect k other end ob rep reps) one ∙ redirect-suc n other end ob rep reps e lt

pub length-redirect_rounds :
    (n other ob rep : ℕ) (reps : List ℕ)
    → length (redirect_rounds n other ob rep reps) ≡ length reps
unfolding redirect_rounds
length-redirect_rounds zero other ob rep reps = refl
length-redirect_rounds (suc n) other ob rep reps = elim (Bool-cases (get_or reps other 0 == ob)) [
  | inl e ↦
      rw e (
        length-redirect_rounds n (other + 1) ob rep (set reps other rep)
        ∙ length-set reps other rep)
  | inr e ↦ rw e (length-redirect_rounds n (other + 1) ob rep reps)
]

-- Every ob that pointed to `ob` from `other` on points to `rep`.
pub redirect_rounds_lem :
    (n other ob rep : ℕ) (reps : List ℕ) (i : ℕ)
    → other + n ≡ length reps
    → rep ≢ ob
    → get_or (redirect_rounds n other ob rep reps) i 0 ≡ (
        if ltb i other
        then get_or reps i 0
        else if get_or reps i 0 == ob
        then if ltb i (length reps) then rep else ob
        else get_or reps i 0)
unfolding redirect_rounds
redirect_rounds_lem zero other ob rep reps i e ne = ground arith
redirect_rounds_lem (suc n) other ob rep reps i e ne =
    elim (Bool-cases (get_or reps other 0 == ob)) [
      | inl t ↦ rw t (
          ground (
            arith,
            redirect_rounds_lem n (other + 1) ob rep (set reps other rep) i
                (omega (arith, length-set reps other rep)) ne,
            length-set reps other rep,
            get_or-set reps other i rep 0 (omega arith),
          ))
      | inr t ↦
          rw t (ground (arith, redirect_rounds_lem n (other + 1) ob rep reps i (omega arith) ne))
    ]

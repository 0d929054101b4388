-- ===== src/Scheduler/Order.antt =====
-- The merge queue gives every ob once, in the order in which they first came.
use pomagma.Prelude.{
  ℕ, zero, suc, ◌+◌, ◌≤◌, ◌<◌, ◌≡◌, ◌≢◌, refl, sym, ap, ◌∙◌, List, [], ◌∷◌, ◌++◌, Bool, true, false,
  not, ◌&&◌, ◌||◌, ◌==◌, ==_iff, if◌then◌else◌, some, length, arith, Bool-cases, inl, inr,
}
use mathlib.Core.Path.{subst}
use mathlib.Core.List.{append_assoc, append-nil}
use pomagma.Scheduler.{UniqueFifoQueue, empty, has, erase, push, pop, pop_at, schedule, drain}

-- The obs of a list that are not in `seen`, once each, in the order of their first places.
unfoldable pub firsts : List ℕ → List ℕ → List ℕ
unfolding has
firsts seen [] = []
firsts seen (x ∷ xs) =
    let rest = firsts (x ∷ seen) xs in
    let skip = firsts seen xs in if has seen x then skip else x ∷ rest

unfoldable pub distinct : List ℕ → Bool
unfolding has
distinct [] = true
distinct (x ∷ xs) = not (has xs x) && distinct xs

-- The set has the obs of the queue, none of which stands in it twice or is 0.
pub record IsValid (q : UniqueFifoQueue) : Type 0 where
  pub agree : (ob : ℕ) → has q.members ob ≡ has q.queue ob
  pub once : distinct q.queue ≡ true
  pub nonzero : has q.queue 0 ≡ false

has-append : (xs ys : List ℕ) (ob : ℕ) → has (xs ++ ys) ob ≡ (has xs ob || has ys ob)
unfolding has
has-append [] ys ob = refl
has-append (x ∷ xs) ys ob = ground (arith, has-append xs ys ob)

has-erase : (xs : List ℕ) (a b : ℕ) → has (erase xs a) b ≡ (not (a == b) && has xs b)
unfolding has erase
has-erase [] a b = ground arith
has-erase (x ∷ xs) a b = ground (arith, has-erase xs a b)

-- `firsts` sees only what is in `seen`.
firsts_ext : (s t xs : List ℕ) → ((ob : ℕ) → has s ob ≡ has t ob) → firsts s xs ≡ firsts t xs
unfolding firsts has
firsts_ext s t [] h = refl
firsts_ext s t (x ∷ xs) h =
    rw
      (
        h x,
        firsts_ext s t xs h,
        firsts_ext (x ∷ s) (x ∷ t) xs (λ ob. ap (λ b. (x == ob) || b) (h ob)),
      )
      refl

distinct-append :
    (xs : List ℕ) (x : ℕ) → distinct xs ≡ true → has xs x ≡ false → distinct (xs ++ (x ∷ [])) ≡ true
unfolding distinct has
distinct-append [] x d h = refl
distinct-append (y ∷ ys) x d h =
    ground (arith, distinct-append ys x (ground arith) (ground arith), has-append ys (x ∷ []) y)

pub empty-IsValid : IsValid empty
unfolding empty has distinct
empty-IsValid = record { agree = λ ob. refl; once = refl; nonzero = refl }

push-old : (x : ℕ) (q : UniqueFifoQueue) → has q.members x ≡ true → push x q ≡ q
unfolding push
push-old x q h = rw h refl

push-new :
    (x : ℕ) (q : UniqueFifoQueue)
    → has q.members x ≡ false
    → push x q ≡ record { members = x ∷ q.members; queue = q.queue ++ (x ∷ []) }
unfolding push
push-new x q h = rw h refl

appended-IsValid :
    {q : UniqueFifoQueue}
    → IsValid q
    → (x : ℕ) → x ≢ 0
    → has q.queue x ≡ false
    → IsValid record { members = x ∷ q.members; queue = q.queue ++ (x ∷ []) }
unfolding has
appended-IsValid {q} v x ne h = record {
  agree = λ ob. ground (arith, v.agree ob, has-append q.queue (x ∷ []) ob);
  once = distinct-append q.queue x v.once h;
  nonzero = ground (arith, v.nonzero, has-append q.queue (x ∷ []) 0);
}

abbrev Scheduled : List ℕ → List ℕ → UniqueFifoQueue → Type 0
Scheduled xs queue q = IsValid (schedule xs q) × ((schedule xs q).queue ≡ queue)

-- Scheduling appends the obs that are new, each at its first place.
schedule_lem :
    (xs : List ℕ) (q : UniqueFifoQueue)
    → IsValid q
    → has xs 0 ≡ false
    → Scheduled xs (q.queue ++ firsts q.queue xs) q
unfolding schedule firsts has
schedule_lem [] q v h = (v, sym (append-nil q.queue))
schedule_lem (x ∷ xs) q v h = elim (Bool-cases (has q.queue x)) [
  | inl old ↦
      let kept = sym (push-old x q (v.agree x ∙ old)) in
      rw old (
        subst (Scheduled xs (q.queue ++ firsts q.queue xs)) kept
          (schedule_lem xs q v (ground arith)))
  | inr new ↦
      let tail = x ∷ [] in
      let q' : UniqueFifoQueue = record { members = x ∷ q.members; queue = q.queue ++ tail } in
      let (w, e) =
        schedule_lem xs q' (appended-IsValid v x (λ z. ground arith) new) (ground arith) in
      let same =
        firsts_ext (q.queue ++ tail) (x ∷ q.queue) xs
          (λ ob. ground (arith, has-append q.queue tail ob)) in
      let all = append_assoc q.queue tail (firsts (q.queue ++ tail) xs) in
      rw new (
        subst (Scheduled xs (q.queue ++ (x ∷ firsts (x ∷ q.queue) xs)))
          (sym (push-new x q (v.agree x ∙ new))) (w, e ∙ all ∙ ap (λ l. q.queue ++ (x ∷ l)) same))
]

no_members : (xs : List ℕ) → ((ob : ℕ) → has xs ob ≡ false) → xs ≡ []
unfolding has
no_members [] h = refl
no_members (x ∷ xs) h = absurd (ground (arith, h x))

popped-IsValid :
    (m : List ℕ) (x : ℕ) (rest : List ℕ)
    → IsValid record { members = m; queue = x ∷ rest }
    → IsValid record { members = erase m x; queue = rest }
unfolding has distinct
popped-IsValid m x rest v = record {
  agree = λ ob. ground (arith, v.agree ob, has-erase m x ob, v.once, ==_iff x ob);
  once = ground (arith, v.once);
  nonzero = ground (arith, v.nonzero);
}

-- The loop of `process_mergers` over a valid queue ends, gives all its obs in order, and leaves the
-- queue empty.
drain_lem :
    (fuel : ℕ) (m queue : List ℕ)
    → IsValid record { members = m; queue = queue }
    → length queue < fuel
    → drain fuel record { members = m; queue = queue } ≡ some (queue, empty)
unfolding drain pop pop_at empty has
drain_lem zero m queue v h = absurd (omega arith)
drain_lem (suc fuel) m [] v h =
    ap (λ k. some ([], record { members = k; queue = [] })) (no_members m v.agree)
drain_lem (suc fuel) m (x ∷ rest) v h =
    let nonzero : (x == 0) ≡ false = ground (arith, v.nonzero) in
    let later = drain_lem fuel (erase m x) rest (popped-IsValid m x rest v) (omega arith) in
    rw (drain, nonzero, later) refl

length-firsts : (s xs : List ℕ) → length (firsts s xs) ≤ length xs
unfolding firsts
length-firsts s [] = omega arith
length-firsts s (x ∷ xs) = ground (arith, length-firsts s xs, length-firsts (x ∷ s) xs)

-- If obs, none of them 0, are scheduled in any order and any number of times on an empty queue, the
-- loop that pops until it gets 0 ends within one round more than the obs scheduled; it gives each of
-- the obs exactly once, in the order in which they were first scheduled, and leaves the queue empty.
pub drain-schedule :
    (xs : List ℕ)
    → has xs 0 ≡ false
    → drain (length xs + 1) (schedule xs empty) ≡ some (firsts [] xs, empty)
unfolding empty
drain-schedule xs h =
    let (v, e) = schedule_lem xs empty empty-IsValid h in
    let q = schedule xs empty in
    drain_lem (length xs + 1) q.members q.queue v (omega (arith, ap length e, length-firsts [] xs))
    ∙ ap (λ l. some (l, empty)) e

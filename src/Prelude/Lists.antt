-- ===== src/Prelude/Lists.antt =====
-- Arrays as lists with native indices, under the library's names.
use Prim.Native.Nat.{ℕ, zero, suc, ◌+◌, ◌-◌, ◌<◌, ◌≤◌}
use mathlib.Core.Path.{subst, ◌≡◌, refl, ap, sym, ◌∙◌}
use mathlib.Core.List.{List, [], ◌∷◌, ◌++◌}
use mathlib.Core.Option.{Option, none, some, none-ne-some, some-injective}
use native.Mathlib.Omega.{arith}
use pomagma.Prelude.Tests.{◌==◌, if◌then◌else◌}

module _ {ℓ} {A : Type ℓ} where
  abbrev pub length : List A → ℕ
  length [] = 0
  length (x ∷ xs) = suc (length xs)

  abbrev pub get_elem? : List A → ℕ → Option A
  get_elem? [] i = none
  get_elem? (x ∷ xs) zero = some x
  get_elem? (x ∷ xs) (suc i) = get_elem? xs i

  abbrev pub get_or : List A → ℕ → A → A
  get_or [] i d = d
  get_or (x ∷ xs) zero d = x
  get_or (x ∷ xs) (suc i) d = get_or xs i d

  -- A write out of bounds changes nothing.
  abbrev pub set : List A → ℕ → A → List A
  set [] i v = []
  set (x ∷ xs) zero v = v ∷ xs
  set (x ∷ xs) (suc i) v = x ∷ set xs i v

  abbrev pub replicate : ℕ → A → List A
  replicate zero a = []
  replicate (suc n) a = a ∷ replicate n a

  pub length-append : (xs ys : List A) → length (xs ++ ys) ≡ length xs + length ys
  length-append [] ys = omega arith
  length-append (x ∷ xs) ys = omega (arith, length-append xs ys)

  pub length-set : (xs : List A) (i : ℕ) (v : A) → length (set xs i v) ≡ length xs
  length-set [] i v = refl
  length-set (x ∷ xs) zero v = refl
  length-set (x ∷ xs) (suc i) v = ap suc (length-set xs i v)

  pub length-replicate : (n : ℕ) (a : A) → length (replicate n a) ≡ n
  length-replicate zero a = refl
  length-replicate (suc n) a = ap suc (length-replicate n a)

  pub get_or-set :
      (xs : List A) (i j : ℕ) (v d : A)
      → i < length xs
      → get_or (set xs i v) j d ≡ (if i == j then v else get_or xs j d)
  get_or-set [] i j v d h = absurd (omega arith)
  get_or-set (x ∷ xs) zero zero v d h = refl
  get_or-set (x ∷ xs) zero (suc j) v d h = ground arith
  get_or-set (x ∷ xs) (suc i) zero v d h = ground arith
  get_or-set (x ∷ xs) (suc i) (suc j) v d h = ground (arith, get_or-set xs i j v d)

  -- What holds of an element holds of it after a write, which may miss the list.
  pub get_or-set_keeps {κ} :
      (Q : A → Type κ) (xs : List A) (i j : ℕ) (v d : A)
      → (i ≡ j → Q v)
      → Q (get_or xs j d)
      → Q (get_or (set xs i v) j d)
  get_or-set_keeps Q [] i j v d new old = old
  get_or-set_keeps Q (x ∷ xs) zero zero v d new old = new refl
  get_or-set_keeps Q (x ∷ xs) zero (suc j) v d new old = old
  get_or-set_keeps Q (x ∷ xs) (suc i) zero v d new old = old
  get_or-set_keeps Q (x ∷ xs) (suc i) (suc j) v d new old =
      get_or-set_keeps Q xs i j v d (λ e. new (ap suc e)) old

  -- What holds of all elements of a list
  abbrev pub Each {κ} : (A → Type κ) → List A → Type (ℓ ⊔ κ)
  Each Q xs = (i : ℕ) (x : A) → get_elem? xs i ≡ some x → Q x

  pub set-Each {κ} :
      (Q : A → Type κ) (xs : List A) (i : ℕ) (v : A) → Each Q xs → Q v → Each Q (set xs i v)
  set-Each Q [] i v old new j x e = old j x e
  set-Each Q (y ∷ xs) zero v old new zero x e = subst Q (some-injective v x e) new
  set-Each Q (y ∷ xs) zero v old new (suc j) x e = old (suc j) x e
  set-Each Q (y ∷ xs) (suc i) v old new zero x e = old zero x e
  set-Each Q (y ∷ xs) (suc i) v old new (suc j) x e =
      set-Each Q xs i v (λ k z. old (suc k) z) new j x e

  pub get_or-replicate : (n i : ℕ) (a : A) → get_or (replicate n a) i a ≡ a
  get_or-replicate zero i a = refl
  get_or-replicate (suc n) zero a = refl
  get_or-replicate (suc n) (suc i) a = get_or-replicate n i a

  pub get_or-append :
      (xs ys : List A) (i : ℕ) (d : A) → i < length xs → get_or (xs ++ ys) i d ≡ get_or xs i d
  get_or-append [] ys i d h = absurd (omega arith)
  get_or-append (x ∷ xs) ys zero d h = refl
  get_or-append (x ∷ xs) ys (suc i) d h = get_or-append xs ys i d (omega arith)

  pub get_or-append_end :
      (xs : List A) (a d : A) (i : ℕ) → i ≡ length xs → get_or (xs ++ (a ∷ [])) i d ≡ a
  get_or-append_end [] a d zero h = refl
  get_or-append_end [] a d (suc i) h = absurd (omega arith)
  get_or-append_end (x ∷ xs) a d zero h = absurd (omega arith)
  get_or-append_end (x ∷ xs) a d (suc i) h = get_or-append_end xs a d i (omega arith)

  pub get_elem?-append_end :
      (xs : List A) (a : A) (i : ℕ)
      → get_elem? (xs ++ (a ∷ [])) i ≡ (if length xs == i then some a else get_elem? xs i)
  get_elem?-append_end [] a zero = refl
  get_elem?-append_end [] a (suc i) = ground arith
  get_elem?-append_end (x ∷ xs) a zero = ground arith
  get_elem?-append_end (x ∷ xs) a (suc i) = ground (arith, get_elem?-append_end xs a i)

  pub get_elem?-none : (xs : List A) (i : ℕ) → length xs ≤ i → get_elem? xs i ≡ none
  get_elem?-none [] i h = refl
  get_elem?-none (x ∷ xs) zero h = absurd (omega arith)
  get_elem?-none (x ∷ xs) (suc i) h = get_elem?-none xs i (omega arith)

  pub get_elem?-some :
      (xs : List A) (i : ℕ) (d : A) → i < length xs → get_elem? xs i ≡ some (get_or xs i d)
  get_elem?-some [] i d h = absurd (omega arith)
  get_elem?-some (x ∷ xs) zero d h = refl
  get_elem?-some (x ∷ xs) (suc i) d h = get_elem?-some xs i d (omega arith)

  pub get_elem?-get_or :
      (xs : List A) (i : ℕ) (a d : A)
      → get_elem? xs i ≡ some a
      → (i < length xs) × (get_or xs i d ≡ a)
  get_elem?-get_or [] i a d e = absurd (none-ne-some a e)
  get_elem?-get_or (x ∷ xs) zero a d e = (omega arith, some-injective x a e)
  get_elem?-get_or (x ∷ xs) (suc i) a d e =
      let (lt, at) = get_elem?-get_or xs i a d e in (omega arith, at)

  pub get_or-replicate_in : (n i : ℕ) (a d : A) → i < n → get_or (replicate n a) i d ≡ a
  get_or-replicate_in zero i a d h = absurd (omega arith)
  get_or-replicate_in (suc n) zero a d h = refl
  get_or-replicate_in (suc n) (suc i) a d h = get_or-replicate_in n i a d (omega arith)

  abbrev pub take : ℕ → List A → List A
  take zero xs = []
  take (suc n) [] = []
  take (suc n) (x ∷ xs) = x ∷ take n xs

  abbrev pub drop : ℕ → List A → List A
  drop zero xs = xs
  drop (suc n) [] = []
  drop (suc n) (x ∷ xs) = drop n xs

  pub take-length_append : (xs ys : List A) → take (length xs) (xs ++ ys) ≡ xs
  take-length_append [] ys = refl
  take-length_append (x ∷ xs) ys = ap (◌∷◌ x) (take-length_append xs ys)

  pub take-length : (xs : List A) → take (length xs) xs ≡ xs
  take-length [] = refl
  take-length (x ∷ xs) = ap (◌∷◌ x) (take-length xs)

  pub drop-length_append : (xs ys : List A) → drop (length xs) (xs ++ ys) ≡ ys
  drop-length_append [] ys = refl
  drop-length_append (x ∷ xs) ys = drop-length_append xs ys

  pub drop-length_le : (n : ℕ) (xs : List A) → length xs ≤ n → drop n xs ≡ []
  drop-length_le zero [] h = refl
  drop-length_le (suc n) [] h = refl
  drop-length_le zero (x ∷ xs) h = absurd (omega arith)
  drop-length_le (suc n) (x ∷ xs) h = drop-length_le n xs (omega arith)

  pub drop-append : (n : ℕ) (xs ys : List A) → n ≤ length xs → drop n (xs ++ ys) ≡ drop n xs ++ ys
  drop-append zero xs ys h = refl
  drop-append (suc n) [] ys h = absurd (omega arith)
  drop-append (suc n) (x ∷ xs) ys h = drop-append n xs ys (omega arith)

  pub length-drop : (n : ℕ) (xs : List A) → length (drop n xs) ≡ length xs - n
  length-drop zero xs = omega arith
  length-drop (suc n) [] = omega arith
  length-drop (suc n) (x ∷ xs) = omega (arith, length-drop n xs)

  pub drop_nil : (n : ℕ) → drop n [] ≡ []
  drop_nil zero = refl
  drop_nil (suc n) = refl

  pub drop-drop : (m n : ℕ) (xs : List A) → drop m (drop n xs) ≡ drop (n + m) xs
  drop-drop m zero xs = ap (λ k. drop k xs) (omega arith)
  drop-drop m (suc n) [] = drop_nil m ∙ sym (drop_nil (suc n + m))
  drop-drop m (suc n) (x ∷ xs) =
      let shift : suc n + m ≡ suc (n + m) = omega arith in rw shift (drop-drop m n xs)

  -- The item at the front of a suffix
  pub drop_cons :
      (n : ℕ) (xs : List A) (y : A) (ys : List A)
      → drop n xs ≡ y ∷ ys
      → (drop (n + 1) xs ≡ ys) × (get_elem? xs n ≡ some y) × (n < length xs)
  drop_cons zero [] y ys e = cc
  drop_cons (suc n) [] y ys e = cc
  drop_cons zero (x ∷ xs) y ys e = (cc, cc, omega arith)
  drop_cons (suc n) (x ∷ xs) y ys e =
      let (rest, at, lt) = drop_cons n xs y ys e in
      let shift : suc n + 1 ≡ suc (n + 1) = omega arith in (rw shift rest, at, omega arith)

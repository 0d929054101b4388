-- ===== src/Prelude/Table.antt =====
-- std::unordered_map as an association list.
use Prim.Native.Nat.{ℕ}
use mathlib.Core.Path.{◌≡◌, refl}
use mathlib.Core.Logic.{◌↔◌}
use mathlib.Core.Bool.{Bool, true, ◌&&◌}
use mathlib.Core.List.{List, [], ◌∷◌}
use mathlib.Core.Option.{Option, none, some}
use native.Mathlib.Omega.{arith}
use Prim.Native.String.{String}
use text.Mathlib.Text.{◌==◌ as str_eq}
use text.Mathlib.TextEquality.{eq_iff}
use pomagma.Prelude.Tests.{◌==◌ as nat_eq, ==_iff, if◌then◌else◌}

pub record Key {ℓ} (K : Type ℓ) : Type ℓ where
  pub same : K → K → Bool
  pub same_iff : (a b : K) → (same a b ≡ true) ↔ (a ≡ b)

instance abbrev pub nat_key : Key ℕ
nat_key = record { same = λ a b. nat_eq a b; same_iff = ==_iff }

instance abbrev pub string_key : Key String
string_key = record { same = λ a b. str_eq a b; same_iff = eq_iff }

-- `std::pair`
abbrev pub pair_same : ℕ × ℕ → ℕ × ℕ → Bool
pair_same (a, b) (c, d) = nat_eq a c && nat_eq b d

pub pair_same_iff : (p q : ℕ × ℕ) → (pair_same p q ≡ true) ↔ (p ≡ q)
pair_same_iff (a, b) (c, d) = ground arith

instance abbrev pub pair_key : Key (ℕ × ℕ)
pair_key = record { same = pair_same; same_iff = pair_same_iff }

module _ {ℓ ℓ'} {K : Type ℓ} {V : Type ℓ'} ⦃key : Key K⦄ where
  unfoldable pub find : List (K × V) → K → Option V
  find [] k = none
  find ((i, v) ∷ m) k = if key.same i k then some v else find m k

  -- `m[k] = v`
  unfoldable pub put : List (K × V) → K → V → List (K × V)
  put m k v = (k, v) ∷ m

  -- `m.insert({k, v})`, which keeps the value of a key that is there
  unfoldable pub insert : List (K × V) → K → V → List (K × V)
  insert m k v = elim (find m k) [ none ↦ put m k v | some old ↦ m ]

  pub find-put :
      (m : List (K × V)) (k j : K) (v : V)
      → find (put m k v) j ≡ (if key.same k j then some v else find m j)
  unfolding find put
  find-put m k j v = refl

  pub find-insert :
      (m : List (K × V)) (k j : K) (v : V)
      → find m k ≡ none
      → find (insert m k v) j ≡ (if key.same k j then some v else find m j)
  unfolding insert
  find-insert m k j v h = rw (insert, h) (find-put m k j v)

  pub insert-find : (m : List (K × V)) (k : K) (v old : V) → find m k ≡ some old → insert m k v ≡ m
  unfolding insert
  insert-find m k v old h = rw (insert, h) refl

  -- `m.erase(k)`
  unfoldable pub erase : List (K × V) → K → List (K × V)
  erase [] k = []
  erase ((i, v) ∷ m) k = if key.same i k then erase m k else (i, v) ∷ erase m k

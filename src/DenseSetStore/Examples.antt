-- ===== src/DenseSetStore/Examples.antt =====
-- Inputs of pomagma/util/dense_set_store.cpp: tests and an instance of the theorem.
use mathlib.Core.Option.{some-injective}
use pomagma.Prelude.{
  ℕ, ◌+◌, ◌*◌, ◌≡◌, refl, sym, ap, ◌∙◌, List, [], ◌∷◌, ◌==◌, ==_iff, none, some, arith, Bool-cases,
  inl, inr,
}
use pomagma.Prelude.Table.{nat_key}
use pomagma.Prelude.Table.{find as find_key, insert as insert_new, put}
use pomagma.DenseSet.{DenseSet}
use pomagma.DenseSetStore.{
  DenseSetStore, create, bytes_from, bytes, same_bytes, find, insert, store, load,
}
use pomagma.DenseSetStore.Store.{IsKept, store-load}

-- A fingerprint of few bytes
abbrev number : List ℕ → ℕ
number [] = 0
number (b ∷ bs) = b + 256 * number bs

abbrev set_of : ℕ → DenseSet
set_of word = record { item_dim = 9; words = word ∷ [] }

-- The set of the item 1 is stored.
abbrev one_set : DenseSetStore
one_set = record { index = (2, 2 ∷ []) ∷ []; item_dim = 9; byte_dim = 2 }

stores :
    (store number (create 9) (set_of 2) ≡ some (2, one_set))
    × (store number one_set (set_of 2) ≡ some (2, one_set))
    × (load one_set 2 ≡ some (set_of 2))
    × (store (λ bs. 2) one_set (set_of 512) ≡ none)
unfolding store create bytes_from same_bytes find insert load find_key insert_new put
stores = (refl, refl, refl, refl)

one_set-IsKept : IsKept number one_set
unfolding find find_key bytes_from
one_set-IsKept id raw e = elim (Bool-cases (2 == id)) [
  | inl here ↦
      let same : 2 ∷ [] ≡ raw = some-injective _ _ (ground (arith, e)) in
      sym ((==_iff 2 id).0 here) ∙ ap (λ w. number (bytes one_set w)) same
  | inr away ↦ absurd (ground (arith, e))
]

no_conflict :
    (raw : List ℕ)
    → find one_set (number (bytes one_set (set_of 512).words)) ≡ some raw
    → bytes one_set raw ≡ bytes one_set (set_of 512).words
unfolding find find_key bytes_from
no_conflict raw e = cc

store-load_example :
    (id : ℕ) × (s' : DenseSetStore) × (raw : List ℕ) × (store number one_set (set_of 512)
      ≡ some (id, s'))
    × (load s' id ≡ some (record { item_dim = 9; words = raw }))
    × (bytes one_set raw ≡ bytes one_set (set_of 512).words)
    × IsKept number s'
    × ((i : ℕ) (old : List ℕ) → find one_set i ≡ some old → find s' i ≡ some old)
    × (store number s' (record { item_dim = 9; words = raw }) ≡ some (id, s'))
store-load_example = store-load number one_set (set_of 512) one_set-IsKept no_conflict

-- ===== src/DenseSetStore.antt =====
-- pomagma/util/dense_set_store.hpp and dense_set_store.cpp: sets stored by the fingerprint of their
-- bytes. `Fingerprint64` of farmhash is a parameter, `fingerprint`, a function of the bytes. The data
-- behind a pointer is its list of words, and memory is never freed, so that a set stays as it is.
pub mod Store
pub mod Examples
use pomagma.Prelude.{
  ℕ, zero, suc, ◌+◌, ◌/◌, ◌%◌, ◌*◌, ◌^◌, List, [], ◌∷◌, Bool, true, false, ◌&&◌, ◌==◌,
  if◌then◌else◌, Option, none, some, get_or,
}
use pomagma.Prelude.Table.{nat_key}
use pomagma.Prelude.Table.{find as find_key, insert as insert_new}
use pomagma.DenseSet.{DenseSet}

pub record DenseSetStore : Type 0 where
  pub index : List (ℕ × List ℕ)
  pub item_dim : ℕ
  pub byte_dim : ℕ

unfoldable pub create : ℕ → DenseSetStore
create item_dim = record { index = []; item_dim = item_dim; byte_dim = 1 + item_dim / 8 }

-- The `n` bytes from byte `k` on, of words with their low byte first
unfoldable pub bytes_from : ℕ → ℕ → List ℕ → List ℕ
bytes_from zero k words = []
bytes_from (suc n) k words =
    (get_or words (k / 8) 0 / 256 ^ (k % 8)) % 256 ∷ bytes_from n (k + 1) words

abbrev pub bytes : DenseSetStore → List ℕ → List ℕ
bytes s words = bytes_from s.byte_dim 0 words

-- `memcmp` finds no difference.
unfoldable pub same_bytes : List ℕ → List ℕ → Bool
same_bytes [] [] = true
same_bytes [] (y ∷ ys) = false
same_bytes (x ∷ xs) [] = false
same_bytes (x ∷ xs) (y ∷ ys) = x == y && same_bytes xs ys

unfoldable pub find : DenseSetStore → ℕ → Option (List ℕ)
find s id = find_key s.index id

-- `insert`, which keeps what is stored at the id, and returns it: `none` is the given data.
unfoldable pub insert : DenseSetStore → ℕ → List ℕ → Option (List ℕ) × DenseSetStore
insert s id raw = (find_key s.index id, record s { index = insert_new s.index id raw })

module _ (fingerprint : List ℕ → ℕ) where
  -- `none` is the assertion "hash conflict".
  unfoldable pub store : DenseSetStore → DenseSet → Option (ℕ × DenseSetStore)
  unfolding insert same_bytes
  store s set =
      let id = fingerprint (bytes s set.words) in
      let (stored, s') = insert s id set.words in
      elim stored [
        | none ↦ some (id, s')
        | some raw ↦ (if same_bytes (bytes s set.words) (bytes s raw) then some (id, s') else none)
      ]

-- `none` is the assertion "missing id", of debug builds.
unfoldable pub load : DenseSetStore → ℕ → Option DenseSet
unfolding find
load s id = elim (find s id) [
  | none ↦ none
  | some raw ↦ some (record { item_dim = s.item_dim; words = raw })
]

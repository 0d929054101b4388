-- ===== src/DenseSetStore/Store.antt =====
-- `DenseSetStore::store` and `load` of pomagma/util/dense_set_store.cpp as a store of sets by their
-- content.
use mathlib.Core.Option.{some-injective}
use pomagma.Prelude.{
  ◌↔◌, ℕ, ◌≡◌, refl, sym, ap, ◌∙◌, List, [], ◌∷◌, true, ◌==◌, ==_iff, Option, none, some, arith,
  if◌then◌else◌, Bool-cases, Option-cases, inl, inr,
}
use pomagma.Prelude.Table.{nat_key, find-insert, insert-find}
use pomagma.Prelude.Table.{find as find_key, insert as insert_new}
use pomagma.DenseSet.{DenseSet}
use pomagma.DenseSetStore.{DenseSetStore, bytes, same_bytes, find, insert, store, load}

pub same_bytes_iff : (xs ys : List ℕ) → (same_bytes xs ys ≡ true) ↔ (xs ≡ ys)
unfolding same_bytes
same_bytes_iff [] [] = (λ _. refl, λ _. refl)
same_bytes_iff [] (y ∷ ys) = (λ e. cc, λ e. cc)
same_bytes_iff (x ∷ xs) [] = (λ e. cc, λ e. cc)
same_bytes_iff (x ∷ xs) (y ∷ ys) =
    let (to, from) = same_bytes_iff xs ys in
    (
      λ e. elim (Bool-cases (x == y)) [
        | inl same ↦ ap (λ z. z ∷ xs) ((==_iff x y).0 same) ∙ ap (◌∷◌ y) (to (ground arith))
        | inr differ ↦ absurd (ground arith)
      ],
      λ e.
          let heads : x ≡ y = cc in
          let tails : xs ≡ ys = cc in let same = from tails in ground (arith, heads, same),
    )

module _ (fingerprint : List ℕ → ℕ) where
  -- What the destructor asserts: each set is stored at the fingerprint of its bytes.
  abbrev pub IsKept : DenseSetStore → Type 0
  IsKept s = (id : ℕ) (raw : List ℕ) → find s id ≡ some raw → id ≡ fingerprint (bytes s raw)

  find-stored :
      (s : DenseSetStore) (id : ℕ) (raw : List ℕ) (j : ℕ)
      → find_key s.index id ≡ none
      → find (record s { index = insert_new s.index id raw }) j
        ≡ (if id == j then some raw else find s j)
  unfolding find
  find-stored s id raw j absent = find-insert s.index id j raw absent

  new_IsKept :
      (s : DenseSetStore) (raw : List ℕ)
      → IsKept s
      → find_key s.index (fingerprint (bytes s raw)) ≡ none
      → IsKept (record s { index = insert_new s.index (fingerprint (bytes s raw)) raw })
  new_IsKept s raw kept absent j old e = elim (Bool-cases (fingerprint (bytes s raw) == j)) [
    | inl here ↦
        let at = sym (rw here at (find-stored s (fingerprint (bytes s raw)) raw j absent)) ∙ e in
        sym ((==_iff _ j).0 here) ∙ ap (λ w. fingerprint (bytes s w)) (some-injective _ _ at)
    | inr away ↦
        kept j old (sym (rw away at (find-stored s (fingerprint (bytes s raw)) raw j absent)) ∙ e)
  ]

  find_none : (s : DenseSetStore) (id : ℕ) → find s id ≡ none → find_key s.index id ≡ none
  unfolding find
  find_none s id e = e

  find-new :
      (s : DenseSetStore) (id : ℕ) (raw : List ℕ)
      → find_key s.index id ≡ none
      → find (record s { index = insert_new s.index id raw }) id ≡ some raw
  find-new s id raw absent =
      let self : (id == id) ≡ true = ground arith in find-stored s id raw id absent ∙ rw self refl

  load-find :
      (s : DenseSetStore) (id : ℕ) (raw : List ℕ)
      → find s id ≡ some raw
      → load s id ≡ some (record { item_dim = s.item_dim; words = raw })
  unfolding load
  load-find s id raw at = rw (load, at) refl

  -- What `store` does once it knows what is stored at the id
  abbrev answer :
      DenseSetStore → List ℕ → ℕ → DenseSetStore → Option (List ℕ) → Option (ℕ × DenseSetStore)
  answer s words id s' stored = elim stored as (λ _. Option (ℕ × DenseSetStore)) [
    | none ↦ some (id, s')
    | some raw ↦ (if same_bytes (bytes s words) (bytes s raw) then some (id, s') else none)
  ]

  store-new :
      (s : DenseSetStore) (set : DenseSet)
      → find s (fingerprint (bytes s set.words)) ≡ none
      → store fingerprint s set
        ≡ some (
          fingerprint (bytes s set.words),
          record s { index = insert_new s.index (fingerprint (bytes s set.words)) set.words },
        )
  unfolding store insert find
  store-new s set absent =
      let id = fingerprint (bytes s set.words) in
      ap (answer s set.words id (record s { index = insert_new s.index id set.words })) absent

  store-again :
      (s : DenseSetStore) (set : DenseSet) (raw : List ℕ)
      → find s (fingerprint (bytes s set.words)) ≡ some raw
      → bytes s raw ≡ bytes s set.words
      → store fingerprint s set ≡ some (fingerprint (bytes s set.words), s)
  unfolding store insert find
  store-again s set raw there same =
      let id = fingerprint (bytes s set.words) in
      let equal = (same_bytes_iff (bytes s set.words) (bytes s raw)).1 (sym same) in
      ap (answer s set.words id (record s { index = insert_new s.index id set.words })) there
      ∙ ap
          (λ b. if b then some (id, record s { index = insert_new s.index id set.words }) else none)
          equal
      ∙ ap (λ m. some (id, record s { index = m })) (insert-find s.index id set.words raw there)

  -- The loaded set has the bytes, and so the id, of the one that was given.
  store_loaded :
      (s : DenseSetStore) (set : DenseSet) (raw : List ℕ)
      → find s (fingerprint (bytes s set.words)) ≡ some raw
      → bytes s raw ≡ bytes s set.words
      → store fingerprint s (record { item_dim = s.item_dim; words = raw })
        ≡ some (fingerprint (bytes s set.words), s)
  store_loaded s set raw there same =
      let id_same = ap fingerprint same in
      store-again s (record { item_dim = s.item_dim; words = raw }) raw
        (ap (find s) id_same ∙ there) refl
      ∙ ap (λ i. some (i, s)) id_same

  stays :
      (s : DenseSetStore) (id : ℕ) (raw : List ℕ) (i : ℕ) (old : List ℕ)
      → find s id ≡ none
      → find s i ≡ some old
      → find (record s { index = insert_new s.index id raw }) i ≡ some old
  stays s id raw i old absent e = elim (Bool-cases (id == i)) [
    | inl here ↦ (let clash = sym absent ∙ ap (find s) ((==_iff id i).0 here) ∙ e in cc)
    | inr away ↦ find-stored s id raw i (find_none s id absent) ∙ rw away e
  ]

  -- Where no stored set has the fingerprint of another with other bytes, `store` returns an id at
  -- which `load` finds a set with the same bytes. What was stored stays, and so does what the
  -- destructor asserts. To store the loaded set again gives the same id and changes nothing.
  pub store-load :
      (s : DenseSetStore) (set : DenseSet)
      → IsKept s
      → ((raw : List ℕ)
          → find s (fingerprint (bytes s set.words)) ≡ some raw
          → bytes s raw ≡ bytes s set.words)
      → (id : ℕ) × (s' : DenseSetStore) × (raw : List ℕ) × (store fingerprint s set ≡ some (id, s'))
        × (load s' id ≡ some (record { item_dim = s.item_dim; words = raw }))
        × (bytes s raw ≡ bytes s set.words)
        × IsKept s'
        × ((i : ℕ) (old : List ℕ) → find s i ≡ some old → find s' i ≡ some old)
        × (store fingerprint s' (record { item_dim = s.item_dim; words = raw }) ≡ some (id, s'))
  store-load s set kept agree =
      let id = fingerprint (bytes s set.words) in
      elim (Option-cases (find s id)) [
        | inl absent ↦
            let s' : DenseSetStore = record s { index = insert_new s.index id set.words } in
            let at : find s' id ≡ some set.words =
              find-new s id set.words (find_none s id absent) in
            (
              id,
              s',
              set.words,
              store-new s set absent,
              load-find s' id set.words at,
              refl,
              new_IsKept s set.words kept (find_none s id absent),
              λ i old e. stays s id set.words i old absent e,
              store-again s' (record { item_dim = s.item_dim; words = set.words }) set.words at
                  refl,
            )
        | inr (raw, there) ↦
            let same = agree raw there in
            (
              id,
              s,
              raw,
              store-again s set raw there same,
              load-find s id raw there,
              same,
              kept,
              λ i old e. e,
              store_loaded s set raw there same,
            )
      ]

-- ===== src/Vm/Loop.antt =====
-- The loops `for (; iter.ok(); iter.next())` of pomagma/atlas/vm_impl.hpp. The body can insert into
-- the sets that the iterator runs over: the iterator keeps its current word, and reads each later
-- word of the tables as they are then.
use pomagma.Prelude.{
  ℕ, zero, suc, ◌+◌, ◌*◌, List, [], ◌∷◌, true, false, ◌==◌, Option, none, some, take, drop,
}
use pomagma.DenseSet.Iter.{SetIterator, intersection, next, iter_words}
use pomagma.Vm.{SetRef, Structure, Context, Outcome, ok, err, missing, no_fuel, ◌>>=◌, or_fault}

-- The sets of an `Intersection`: the first, the other positive and the negative ones
pub record Cut : Type 0 where
  pub first : SetRef
  pub pos : List SetRef
  pub neg : List SetRef

module _ {S : Type 0} (t : Structure S) where
  open t use {word_dim, words}

  unfoldable pub words_each : S → List SetRef → Option (List (List ℕ))
  words_each s [] = some []
  words_each s (ref ∷ refs) = elim (words s ref) [
    | none ↦ none
    | some ws ↦ (elim (words_each s refs) [ none ↦ none | some rest ↦ some (ws ∷ rest) ])
  ]

  -- `get_word(0)`, ..., `get_word(word_dim - 1)` of the tables as they are
  unfoldable pub cut_words : S → Cut → Outcome (List ℕ)
  unfolding words_each
  cut_words s cut = do
    first ← or_fault missing (words s cut.first)
    pos ← or_fault missing (words_each s cut.pos)
    neg ← or_fault missing (words_each s cut.neg)
    ok (take word_dim (intersection first pos neg))

  unfoldable pub start : S → Cut → Outcome SetIterator
  unfolding cut_words
  start s cut = do ws ← cut_words s cut; or_fault no_fuel (iter_words ws)

  -- `iter.next()`
  unfoldable pub advance : S → Cut → SetIterator → Outcome SetIterator
  unfolding cut_words
  advance s cut it = do
    ws ← cut_words s cut
    or_fault no_fuel (next (record it { rest = drop (it.quot + 1) ws }))

  abbrev pub Body : Type 0
  Body = ℕ → Context → S → Outcome (Context × S)

  unfoldable pub rounds : ℕ → Cut → Body → SetIterator → Context → S → Outcome (Context × S)
  unfolding advance
  rounds zero cut body it c s = err no_fuel
  rounds (suc fuel) cut body it c s = elim (it.i == 0) [
    | true ↦ ok (c, s)
    | false ↦ do (c', s') ← body it.i c s; it' ← advance s' cut it; rounds fuel cut body it' c' s'
  ]

  -- An iterator visits at most 64 items in each of the words.
  unfoldable pub loop : Cut → Body → Context → S → Outcome (Context × S)
  unfolding start rounds
  loop cut body c s = do it ← start s cut; rounds (64 * word_dim + 1) cut body it c s

-- ===== src/Vm/Examples.antt =====
-- A loop of pomagma/atlas/vm_impl.hpp on tables of pomagma/atlas/macro: the theorem there.
use pomagma.Prelude.{ℕ, ◌*◌, ◌≤◌, ◌≡◌, refl, [], ◌∷◌, get_elem?, arith, inl, inr, Option-cases}
use pomagma.DenseSet.{contains}
use pomagma.DenseSet.Items.{members, visit_items}
use pomagma.Carrier.Examples.{sample, sample-IsValid}
use pomagma.Vm.{Context, cleared, Outcome, ok, support, unary_fact, ◌>>=◌}
use pomagma.Vm.Loop.{Cut, cut_words, loop}
use pomagma.Vm.Fold.{run_each, loop-run_each}
use pomagma.Tables.{Tables, machine, insert_fact}

abbrev tables : Tables
tables = record {
  carrier = sample;
  unary_relations = record { set = record { item_dim = 4; words = 0 ∷ [] } } ∷ [];
  binary_relations = [];
  nullary_functions = [];
  injective_functions = [];
  binary_functions = [];
  symmetric_functions = [];
}

-- FOR_ALL x; INFER_UNARY_RELATION 0 x
abbrev all_obs : Cut
all_obs = record { first = support; pos = []; neg = [] }

abbrev infer : ℕ → Context → Tables → Outcome (Context × Tables)
infer ob c s = insert_fact s (unary_fact 0 ob) >>= λ s'. ok (c, s')

infer-carrier :
    (ob : ℕ) (c c' : Context) (s s' : Tables)
    → s.carrier ≡ sample
    → infer ob c s ≡ ok (c', s')
    → s'.carrier ≡ sample
unfolding insert_fact
infer-carrier ob c c' s s' k e = elim (Option-cases (get_elem? s.unary_relations 0)) [
  | inl none_there ↦ absurd (ground arith)
  | inr (r, there) ↦ (let kept : s.carrier ≡ s'.carrier = ground arith in ground arith)
]

all_obs-words :
    (s : Tables) → s.carrier ≡ sample → cut_words (machine 4) s all_obs ≡ ok sample.support.words
unfolding cut_words machine pomagma.DenseSet.Iter.intersection
all_obs-words s k = rw k refl

room : 4 ≤ 64 * (machine 4).word_dim
unfolding machine
room = omega arith

loop-run_each_example :
    loop (machine 4) all_obs infer cleared tables
    ≡ run_each (machine 4) infer (members (contains sample.support) 1 4) cleared tables
loop-run_each_example =
    loop-run_each (machine 4) all_obs sample.support.words infer (λ s. s.carrier ≡ sample)
      all_obs-words infer-carrier 4 (contains sample.support) cleared tables room
      (visit_items sample.support sample-IsValid.set) refl

-- ===== src/Agenda/Cleanup.antt =====
-- The cleanup tasks of pomagma/atlas/vm.hpp: numbers for them without a gap, and the blocks of obs.
use mathlib.Core.Option
use pomagma.Prelude.{
  ℕ, zero, suc, ◌+◌, ◌-◌, ◌*◌, ◌/◌, ◌%◌, ◌≤◌, ◌<◌, ◌≡◌, refl, sym, ap, ◌∙◌, inl, inr, List, [], ◌∷◌,
  ◌++◌, false, ltb, if◌then◌else◌, some, length, get_elem?, arith, length-append, Bool-cases,
  ltb→lt,
}
use native.Mathlib.Nat.{
  mod-eq_of_lt, mod-eq-sub-mod, mul-add-div_right, div-eq_of_lt, mul-add-mod_self_right,
}
use pomagma.Agenda.{Agenda, Task, small_task, large_task, cleanup_task, cleanup_task_count, load}
use pomagma.Vm.{block_size}

-- The tasks in the order of their numbers: the small programs, then each large one on all blocks
abbrev pub map_small : List ℕ → List Task
map_small [] = []
map_small (p ∷ ps) = small_task p ∷ map_small ps

-- `n` blocks from one on
abbrev pub on_blocks : ℕ → ℕ → ℕ → List Task
on_blocks p block zero = []
on_blocks p block (suc n) = large_task p block ∷ on_blocks p (block + 1) n

abbrev pub map_large : ℕ → List ℕ → List Task
map_large blocks [] = []
map_large blocks (p ∷ ps) = on_blocks p 0 blocks ++ map_large blocks ps

abbrev pub all_tasks : Agenda → List Task
all_tasks a = map_small a.cleanup_small ++ map_large a.block_count a.cleanup_large

length-map_small : (ps : List ℕ) → length (map_small ps) ≡ length ps
length-map_small [] = refl
length-map_small (p ∷ ps) = ap suc (length-map_small ps)

length-on_blocks : (p block n : ℕ) → length (on_blocks p block n) ≡ n
length-on_blocks p block zero = refl
length-on_blocks p block (suc n) = ap suc (length-on_blocks p (block + 1) n)

length-map_large : (blocks : ℕ) (ps : List ℕ) → length (map_large blocks ps) ≡ length ps * blocks
length-map_large blocks [] = omega arith
length-map_large blocks (p ∷ ps) = grind (
  arith,
  length-append (on_blocks p 0 blocks) (map_large blocks ps),
  length-on_blocks p 0 blocks,
  length-map_large blocks ps,
)

get_elem?-append {ℓ} :
    {A : Type ℓ} (xs ys : List A) (i : ℕ)
    → get_elem? (xs ++ ys) i
      ≡ (if ltb i (length xs) then get_elem? xs i else get_elem? ys (i - length xs))
get_elem?-append [] ys i = ground arith
get_elem?-append (x ∷ xs) ys zero = ground arith
get_elem?-append (x ∷ xs) ys (suc i) = ground (arith, get_elem?-append xs ys i)

get_elem?-map_small :
    (ps : List ℕ) (i : ℕ) → get_elem? (map_small ps) i ≡ Option.map small_task (get_elem? ps i)
get_elem?-map_small [] i = refl
get_elem?-map_small (p ∷ ps) zero = refl
get_elem?-map_small (p ∷ ps) (suc i) = get_elem?-map_small ps i

get_elem?-on_blocks :
    (p block n i : ℕ) → i < n → get_elem? (on_blocks p block n) i ≡ some (large_task p (block + i))
get_elem?-on_blocks p block zero i lt = absurd (omega arith)
get_elem?-on_blocks p block (suc n) zero lt = ap (λ b. some (large_task p b)) (omega arith)
get_elem?-on_blocks p block (suc n) (suc i) lt =
    get_elem?-on_blocks p (block + 1) n i (omega arith)
    ∙ ap (λ b. some (large_task p b)) (omega arith)

get_elem?-map_large :
    (blocks : ℕ) (ps : List ℕ) (i : ℕ)
    → 0 < blocks
    → get_elem? (map_large blocks ps) i
      ≡ Option.map (λ p. large_task p (i % blocks)) (get_elem? ps (i / blocks))
get_elem?-map_large blocks [] i pos = refl
get_elem?-map_large blocks (p ∷ ps) i pos = elim (Bool-cases (ltb i blocks)) [
  | inl inside ↦
      (let lt : i < blocks = ltb→lt i blocks inside in
        let first : i / blocks ≡ 0 = grind arith in
        let same : i % blocks ≡ i = mod-eq_of_lt lt in
        get_elem?-append (on_blocks p 0 blocks) (map_large blocks ps) i
        ∙ rw (length-on_blocks, inside, first, same)
            (get_elem?-on_blocks p 0 blocks i lt ∙ ap (λ b. some (large_task p b)) (omega arith)))
  | inr behind ↦
      (let le : blocks ≤ i = ground arith in
        let next : i / blocks ≡ suc ((i - blocks) / blocks) = grind arith in
        let same : i % blocks ≡ (i - blocks) % blocks = mod-eq-sub-mod le in
        get_elem?-append (on_blocks p 0 blocks) (map_large blocks ps) i
        ∙ rw (length-on_blocks, behind, next, same)
            (get_elem?-map_large blocks ps (i - blocks) pos))
]

at_place :
    (a : Agenda) (index : ℕ)
    → 0 < a.block_count
    → (if ltb index (length (map_small a.cleanup_small))
        then get_elem? (map_small a.cleanup_small) index
        else get_elem?
            (map_large a.block_count a.cleanup_large)
            (index - length (map_small a.cleanup_small)))
      ≡ cleanup_task a index
unfolding cleanup_task
at_place a index pos = rw length-map_small (elim (Bool-cases (ltb index (length a.cleanup_small))) [
  | inl small ↦ rw small (get_elem?-map_small a.cleanup_small index)
  | inr large ↦
      rw large
        (get_elem?-map_large a.block_count a.cleanup_large (index - length a.cleanup_small) pos)
])

-- On an agenda with at least one block, the task of the cleanup number `index` is the one at that place
-- of the list of all tasks, which are the small programs, in order, and then the pairs of a large
-- program and a block below `block_count`, program by program and block by block. The list has
-- `cleanup_task_count` tasks, and from there on there is no task.
pub cleanup_task_lem :
    (a : Agenda)
    → 0 < a.block_count
    → ((index : ℕ) → cleanup_task a index ≡ get_elem? (all_tasks a) index)
      × (length (all_tasks a) ≡ cleanup_task_count a)
unfolding cleanup_task cleanup_task_count
cleanup_task_lem a pos = (
  λ index. sym (
      get_elem?-append (map_small a.cleanup_small) (map_large a.block_count a.cleanup_large) index
      ∙ at_place a index pos),
  length-append (map_small a.cleanup_small) (map_large a.block_count a.cleanup_large)
      ∙ omega
          (arith, length-map_small a.cleanup_small, length-map_large a.block_count a.cleanup_large),
)

lt_of_get {ℓ} : {A : Type ℓ} (xs : List A) (i : ℕ) {a : A} → get_elem? xs i ≡ some a → i < length xs
lt_of_get [] i e = cc
lt_of_get (x ∷ xs) zero e = omega arith
lt_of_get (x ∷ xs) (suc i) e = omega (arith, lt_of_get xs i e)

index_in_range : (j n b m : ℕ) → j < n → b < m → j * m + b < n * m
index_in_range j n b m p q = grind arith

-- On an agenda loaded for `item_dim` obs, with any programs, each large program runs on the block of
-- each ob, IF_BLOCK's test of the ob: one of the numbers below `cleanup_task_count` is the task of
-- the program and that block.
pub cleanup-covers :
    (a : Agenda) (item_dim j program ob : ℕ)
    → a.block_count ≡ (load item_dim).block_count
    → get_elem? a.cleanup_large j ≡ some program
    → ob ≤ item_dim
    → (index : ℕ) × (index < cleanup_task_count a)
      × (cleanup_task a index ≡ some (large_task program (ob / block_size)))
unfolding cleanup_task cleanup_task_count load
cleanup-covers a item_dim j program ob loaded at le =
    let small_count = length a.cleanup_small in
    let index = j * a.block_count + ob / block_size in
    let inside : ob / block_size < a.block_count = omega arith in
    let behind : ltb (small_count + index) small_count ≡ false = ground arith in
    let back : small_count + index - small_count ≡ index = omega arith in
    let row : index / a.block_count ≡ j =
      mul-add-div_right (omega arith) j (ob / block_size) ∙ omega (arith, div-eq_of_lt inside) in
    let column : index % a.block_count ≡ ob / block_size =
      mul-add-mod_self_right j a.block_count (ob / block_size) ∙ mod-eq_of_lt inside in
    (
      small_count + index,
      omega (
        arith,
        index_in_range j (length a.cleanup_large) (ob / block_size) a.block_count
            (lt_of_get a.cleanup_large j at) inside,
      ),
      rw (behind, back, row, column, at) refl,
    )

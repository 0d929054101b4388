-- ===== src/Scheduler.antt =====
-- pomagma/atlas/macro/scheduler.cpp: the queue of the obs whose merge is still to be carried out.
-- The set is a list in which the order means nothing.
pub mod Order
pub mod Examples
use pomagma.Prelude.{
  ℕ, zero, suc, List, [], ◌∷◌, ◌++◌, Bool, true, false, not, ◌||◌, ◌==◌, if◌then◌else◌, Option,
  none, some,
}
use mathlib.Core.Option

pub record UniqueFifoQueue : Type 0 where
  pub members : List ℕ
  pub queue : List ℕ

unfoldable pub empty : UniqueFifoQueue
empty = record { members = []; queue = [] }

unfoldable pub has : List ℕ → ℕ → Bool
has [] ob = false
has (x ∷ xs) ob = x == ob || has xs ob

unfoldable pub erase : List ℕ → ℕ → List ℕ
erase [] ob = []
erase (x ∷ xs) ob = let rest = erase xs ob in if x == ob then rest else x ∷ rest

unfoldable pub push : ℕ → UniqueFifoQueue → UniqueFifoQueue
unfolding has
push ob q =
    let inserted = not (has q.members ob) in
    if inserted then record { members = ob ∷ q.members; queue = q.queue ++ (ob ∷ []) } else q

unfoldable pub pop_at : List ℕ → UniqueFifoQueue → ℕ × UniqueFifoQueue
unfolding erase
pop_at [] q = (0, q)
pop_at (front ∷ rest) q = (front, record { members = erase q.members front; queue = rest })

unfoldable pub pop : UniqueFifoQueue → ℕ × UniqueFifoQueue
unfolding pop_at
pop q = pop_at q.queue q

-- `schedule_merge` for each of some obs, in order
unfoldable pub schedule : List ℕ → UniqueFifoQueue → UniqueFifoQueue
unfolding push
schedule [] q = q
schedule (ob ∷ obs) q = schedule obs (push ob q)

-- `while (Ob dep = g_merge_queue.pop())`: the values of `dep`, in order, and the queue at the end
unfoldable pub drain : ℕ → UniqueFifoQueue → Option (List ℕ × UniqueFifoQueue)
unfolding pop
drain zero q = none
drain (suc fuel) q =
    let (dep, q') = pop q in
    let later = drain fuel q' in
    if dep == 0
    then some ([], q')
    else elim later [ none ↦ none | some (deps, q'') ↦ some (dep ∷ deps, q'') ]

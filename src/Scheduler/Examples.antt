-- ===== src/Scheduler/Examples.antt =====
-- Obs scheduled twice: tests of the queue, and the theorem at such a list.
use pomagma.Prelude.{◌≡◌, refl, [], ◌∷◌, some}
use pomagma.Scheduler.{empty, has, schedule, drain}
use pomagma.Scheduler.Order.{firsts, drain-schedule}

drained : drain 5 (schedule (5 ∷ 3 ∷ 5 ∷ 4 ∷ []) empty) ≡ some (5 ∷ 3 ∷ 4 ∷ [], empty)
unfolding empty schedule drain
drained = refl

drain-schedule_example :
    drain (5) (schedule (5 ∷ 3 ∷ 5 ∷ 4 ∷ []) empty) ≡ some (firsts [] (5 ∷ 3 ∷ 5 ∷ 4 ∷ []), empty)
drain-schedule_example = drain-schedule (5 ∷ 3 ∷ 5 ∷ 4 ∷ []) (unfold has in refl)

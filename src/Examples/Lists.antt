-- ===== src/Examples/Lists.antt =====
-- The lists of Sched and WaitQueue, on concrete slabs.
use ein8_proj.Base.{refl, [], ◌∷◌, ◌++◌, arith}
use ein8_proj.Examples.{Ring-with, hot0}
use ein8_proj.Sched.{sched_enqueue}
use ein8_proj.Sched.Ops.{Ring-sched_enqueue}
use ein8_proj.Sched.Ring.{Ring}

Ring-sched_enqueue_example : Ring (sched_enqueue 1 6 hot0) 1 ((2 ∷ 3 ∷ []) ++ 6 ∷ [])
Ring-sched_enqueue_example =
    Ring-sched_enqueue hot0 1 6 (2 ∷ 3 ∷ []) (Ring-with 140000) refl (omega arith)

-- ===== src/Examples/Running.antt =====
-- Start and end of the process, creation, yield and exit of threads, on concrete states.
use ein8_proj.Base.{◌≡◌, refl, ◌⊎◌, some, [], ◌∷◌, ◌++◌, arith}
use ein8_proj.Cold.{finished}
use ein8_proj.Examples.{Ring-with, ready0, s0, threads0}
use ein8_proj.Mono.{State, aborted, switched}
use ein8_proj.Mono.Switch.Stacked.{IsExhausted}
use ein8_proj.Sched.Ring.{Ring}
use ein8_proj.Thread.{thread_create, thread_exit, thread_yield}
use ein8_proj.Thread.Boot.{Booted, init_system, init_system-Booted}
use ein8_proj.Thread.Exit.{thread_exit-handover}
use ein8_proj.Thread.Start.{Created, thread_create-Created, thread_yield-rotate}
use ein8_proj.Thread.Teardown.{Maps}

abbrev s_blank : State
s_blank = record s0 { current = 0 }

abbrev maps0 : Maps
maps0 = record {
  hot_slab = 70000000;
  cold_slab = 80000000;
  hot_entry = 32;
  cold_entry = 80;
  unmapped = [];
}

init_system-Booted_example :
    (s' : State) × (init_system (some 65536) (some 1) (some 2) s_blank ≡ some s') × Booted s'
init_system-Booted_example = init_system-Booted 65536 1 2 s_blank (omega arith) refl

thread_create-Created_example :
    Created s0 (1 ∷ 2 ∷ 3 ∷ 4 ∷ 5 ∷ []) (2 ∷ 3 ∷ []) (thread_create 21 22 s0)
thread_create-Created_example =
    thread_create-Created 21 22 s0 (6 ∷ []) (1 ∷ 2 ∷ 3 ∷ 4 ∷ 5 ∷ []) (2 ∷ 3 ∷ []) threads0 ready0
      (λ a i. ground arith)

thread_yield-rotate_example :
    (IsExhausted s0 × (thread_yield 500 s0 ≡ aborted))
    ⊎ ((s' : State) × (thread_yield 500 s0 ≡ switched s')
        × (s'.current ≡ 2)
        × Ring s'.hot 2 ((3 ∷ []) ++ s0.current ∷ [])
        × ((s'.hot s0.current).rsp ≡ 500)
        × (s'.last_created ≡ 0))
thread_yield-rotate_example = thread_yield-rotate 500 s0 (2 ∷ 3 ∷ []) (3 ∷ []) 2 ready0 refl refl

thread_exit-handover_example :
    (IsExhausted s0 × (thread_exit 33 s0 ≡ aborted))
    ⊎ ((s' : State) × (thread_exit 33 s0 ≡ switched s')
        × (s'.current ≡ (s0.cold s0.current).waiting)
        × Ring s'.hot s'.current (2 ∷ 3 ∷ [])
        × ((s'.cold s0.current).retval ≡ 33)
        × ((s'.cold s0.current).state ≡ finished))
thread_exit-handover_example =
    thread_exit-handover 33 s0 (2 ∷ 3 ∷ []) (Ring-with 140000) refl (omega arith) refl

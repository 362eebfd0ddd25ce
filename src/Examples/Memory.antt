-- ===== src/Examples/Memory.antt =====
-- The allocators and the first frame of a stack, on concrete states.
use ein8_proj.Base.{[], ◌∷◌, ◌++◌}
use ein8_proj.Examples.{s0, stacks0}
use ein8_proj.Mono.Memory.{stack_release}
use ein8_proj.Mono.Memory.Stacks.{Stacks, stack_release-Stacks}

stack_release-Stacks_example :
    Stacks (stack_release 131072 s0) (131072 ∷ (196608 ∷ [])) ((65536 ∷ []) ++ ([]))
stack_release-Stacks_example =
    stack_release-Stacks s0 (196608 ∷ []) (65536 ∷ []) ([]) 131072 stacks0

-- ===== src/Examples/Arena.antt =====
-- The cache of stacks of a worker, on a concrete state.
use ein8_proj.Base.{ℕ, ◌≡◌, refl, [], ◌∷◌, Option, some}
use ein8_proj.StackCache.{StackPools, stack_alloc_mn, lazy_stack_alloc_mn}
use ein8_proj.StackCache.Lazy.{Lazily, lazy_stack_alloc_mn-Lazily}
use ein8_proj.StackCache.Alloc.{Shared, Answered, stack_alloc_mn-Answered}
use ein8_proj.Examples.{s0, stacks0}

abbrev stack_pools0 : StackPools
stack_pools0 = record { global = s0; s_cache_head = 0; s_cache_count = 0 }

stack_pools0-Shared : Shared stack_pools0 [] (196608 ∷ []) (65536 ∷ 131072 ∷ [])
stack_pools0-Shared = (
  65536 ∷ 131072 ∷ [],
  record {
    stacks = stacks0;
    waiting = refl;
    cached = refl;
    members = λ a. refl;
    distinct = tt;
    distinct_cache = tt;
    apart = λ a i. cc;
    apart_used = λ a i. cc;
    apart_cache = λ a i. cc;
    counted = refl;
    sized = refl;
  },
)

stack_alloc_mn-Answered_example :
    (o : Option ℕ × StackPools) × (stack_alloc_mn stack_pools0 ≡ some o)
    × Answered (65536 ∷ 131072 ∷ []) o
stack_alloc_mn-Answered_example =
    stack_alloc_mn-Answered stack_pools0 [] (196608 ∷ []) (65536 ∷ 131072 ∷ []) stack_pools0-Shared

lazy_stack_alloc_mn-Lazily_example :
    (r : Option StackPools) × (lazy_stack_alloc_mn 4 stack_pools0 ≡ some r)
    × Lazily 4 (65536 ∷ 131072 ∷ []) stack_pools0 r
lazy_stack_alloc_mn-Lazily_example =
    lazy_stack_alloc_mn-Lazily 4 stack_pools0 [] (196608 ∷ []) (65536 ∷ 131072 ∷ [])
      stack_pools0-Shared

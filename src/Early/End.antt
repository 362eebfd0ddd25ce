-- ===== src/Early/End.antt =====
-- `thread_system_destroy` of the first version of the library, under options/src: what it frees at
-- the end of the process.
use ein8_proj.Base.{
  ℕ, zero, suc, ◌<◌, ◌≡◌, ◌≢◌, refl, ap, arith, ◌==◌, ==_ne, if◌then◌else◌, not, ◌&&◌, ℕ_discrete,
  List, [], ◌∷◌, has, length, Option, none, some,
}
use ein8_proj.Early.{Thread, Process}
use ein8_proj.Early.Queue.{TailQueue, is_sched_empty_early, sched_dequeue_early}
use ein8_proj.Early.Calls.{free_block}

pub has-free_block : (x a : ℕ) (bs : List ℕ) → has x (free_block a bs) ≡ has x bs && not (x == a)
unfolding free_block
has-free_block x a [] = refl
has-free_block x a (b ∷ bs) = ground (arith, has-free_block x a bs)

-- The descriptors `ts`, each with its stack.
abbrev pub stacks_of : (ℕ → Thread) → List ℕ → List ℕ
stacks_of h [] = []
stacks_of h (t ∷ ts) = (h t).stack ∷ t ∷ stacks_of h ts

module _ (Q : TailQueue) where
  open Q use {
    Queue, contents, first, remove_head, is_empty-nil, is_empty-cons, first-cons,
    contents-remove_head,
  }

  -- A descriptor that leaves the queue, and its stack when it is not NULL.
  unfoldable pub destroy_one : (t : ℕ) → Process Queue → Process Queue
  destroy_one t s =
      let bs = if (s.heap t).stack == 0 then s.blocks else free_block (s.heap t).stack s.blocks in
      record s { blocks = free_block t bs }

  -- `none` when the fuel is used up.
  unfoldable pub thread_system_destroy_early : (fuel : ℕ) → Process Queue → Option (Process Queue)
  thread_system_destroy_early zero s = none
  thread_system_destroy_early (suc fuel) s =
      let (t, s') = sched_dequeue_early Q s in
      let rest = thread_system_destroy_early fuel (destroy_one t s') in
      if not (is_sched_empty_early Q s)
      then rest
      else if not (s.current == 0)
      then some (record s { blocks = free_block s.current s.blocks; current = 0 })
      else some s

  has-destroy_one :
      (x t : ℕ) (s : Process Queue)
      → x ≢ 0
      → has x (destroy_one t s).blocks
        ≡ has x s.blocks && not (x == (s.heap t).stack) && not (x == t)
  unfolding destroy_one
  has-destroy_one x t s real = ground (
    arith,
    has-free_block x t s.blocks,
    has-free_block x (s.heap t).stack s.blocks,
    has-free_block x t (free_block (s.heap t).stack s.blocks),
    real,
  )

  -- With more fuel than ready threads, the end of the process frees the ready threads with their
  -- stacks and the running thread, and no other block.
  pub thread_system_destroy_early-free_block :
      (fuel : ℕ) (rs : List ℕ) (s : Process Queue)
      → contents s.ready_queue ≡ rs
      → length rs < fuel
      → (s' : Process Queue) × (thread_system_destroy_early fuel s ≡ some s')
        × (s'.current ≡ 0)
        × (contents s'.ready_queue ≡ [])
        × ((x : ℕ)
            → x ≢ 0
            → has x s'.blocks
              ≡ has x s.blocks && not (has x (stacks_of s.heap rs)) && not (x == s.current))
  unfolding thread_system_destroy_early is_sched_empty_early sched_dequeue_early destroy_one
  thread_system_destroy_early-free_block zero rs s full low = absurd (omega (arith, low))
  thread_system_destroy_early-free_block (suc fuel) [] s full low =
      rw (is_empty-nil s.ready_queue full) (elim (ℕ_discrete s.current 0) [
        | yes e ↦ (
          s,
          ap
              (λ c.
                if not (c == 0)
                then some (record s { blocks = free_block s.current s.blocks; current = 0 })
                else some s)
              e,
          e,
          full,
          λ x real. ground (arith, e, real),
        )
        | no ne ↦
            rw (==_ne s.current 0 ne)
              (_, refl, refl, full, λ x real. ground (arith, has-free_block x s.current s.blocks))
      ])
  thread_system_destroy_early-free_block (suc fuel) (t ∷ rs) s full low =
      let s' = destroy_one t (record s { ready_queue = remove_head s.ready_queue }) in
      let (out, e, gone, empty, kept) =
        thread_system_destroy_early-free_block fuel rs s'
          (contents-remove_head s.ready_queue t rs full) (omega (arith, low)) in
      rw (is_empty-cons s.ready_queue t rs full, first-cons s.ready_queue t rs full)
        (out, e, gone, empty, λ x real. ground (arith, kept x real, has-destroy_one x t s real))

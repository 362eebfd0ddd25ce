-- ===== src/Early/Queue.antt =====
-- `STAILQ` of <sys/queue.h> as the first version of the library uses it, and src/scheduler.c of
-- options/ on top of it.
use ein8_proj.Base.{ℕ, ◌≡◌, ◌≢◌, Bool, true, false, List, [], ◌∷◌, ◌++◌, ◌∉◌}
use ein8_proj.Early.{Process}

-- A singly-linked tail queue and the threads in it, first to last. What the macros do to the head of
-- an empty queue is not documented, and nothing is said of it.
pub record TailQueue : Type 1 where
  pub Queue : Type 0
  pub contents : Queue → List ℕ
  pub init : Queue
  pub is_empty : Queue → Bool
  pub first : Queue → ℕ
  pub insert_tail : Queue → ℕ → Queue
  pub remove_head : Queue → Queue
  pub contents-init : contents init ≡ []
  pub is_empty-nil : (q : Queue) → contents q ≡ [] → is_empty q ≡ true
  pub is_empty-cons : (q : Queue) (x : ℕ) (xs : List ℕ) → contents q ≡ x ∷ xs → is_empty q ≡ false
  pub first-cons : (q : Queue) (x : ℕ) (xs : List ℕ) → contents q ≡ x ∷ xs → first q ≡ x
  pub contents-insert_tail :
      (q : Queue) (t : ℕ)
      → t ≢ 0
      → t ∉ contents q
      → contents (insert_tail q t) ≡ contents q ++ t ∷ []
  pub contents-remove_head :
      (q : Queue) (x : ℕ) (xs : List ℕ) → contents q ≡ x ∷ xs → contents (remove_head q) ≡ xs

module _ (Q : TailQueue) where
  open Q use {Queue, init, is_empty, first, insert_tail, remove_head}

  unfoldable pub sched_init_early : Process Queue → Process Queue
  sched_init_early s = record s { ready_queue = init }

  unfoldable pub sched_enqueue_early : (t : ℕ) → Process Queue → Process Queue
  sched_enqueue_early t s = record s { ready_queue = insert_tail s.ready_queue t }

  unfoldable pub is_sched_empty_early : Process Queue → Bool
  is_sched_empty_early s = is_empty s.ready_queue

  unfoldable pub sched_dequeue_early : Process Queue → ℕ × Process Queue
  sched_dequeue_early s =
      (first s.ready_queue, record s { ready_queue = remove_head s.ready_queue })

-- ===== src/Deque.antt =====
-- The Chase-Lev deque of src/scheduler_mn.c: the owner pushes and pops at the bottom, a thief steals
-- at the top. Here each operation is taken as a whole, with no other worker in between, so that its
-- compare-and-exchange succeeds; Steps takes each access by itself. Indices are `size_t`, with their
-- wrap-around.
pub mod Lifo
pub mod Steps
pub mod Inv
pub mod Owner
pub mod Pop
pub mod Thief
pub mod Refine
pub mod Conserve
pub mod Alone
use ein8_proj.Base.{ℕ, ◌+◌, ◌-◌, ◌%◌, ◌==◌, leb, ltb, if◌then◌else◌, not, Bool, Option, none, some}
use ein8_proj.Base.Word.{u64}

abbrev pub cl_cap : ℕ
cl_cap = 4096

-- `i & CL_MASK`
abbrev pub slot_of : ℕ → ℕ
slot_of i = i % 4096

-- `worker_runq_t`, the ring buffer with its two ends
pub record Deque : Type 0 where
  pub top : ℕ
  pub bottom : ℕ
  pub items : ℕ → ℕ

abbrev pub write_item : (ℕ → ℕ) → (slot item : ℕ) → ℕ → ℕ
write_item f slot item a = if a == slot then item else f a

-- `a - b` on `size_t`
abbrev pub minus : ℕ → ℕ → ℕ
minus a b = u64 (a + (18446744073709551616 - b))

-- `(ptrdiff_t)x < 0`
abbrev pub is_negative : ℕ → Bool
is_negative x = leb 9223372036854775808 x

-- The size after the push; `none` is `abort()` on a full deque.
unfoldable pub cl_push_bottom : (t : ℕ) → Deque → Option (ℕ × Deque)
cl_push_bottom t q =
    if leb cl_cap (minus q.bottom q.top)
    then none
    else some (
      minus (u64 (q.bottom + 1)) q.top,
      record q { items = write_item q.items (slot_of q.bottom) t; bottom = u64 (q.bottom + 1) },
    )

-- The item, or 0 for NULL.
unfoldable pub cl_pop_bottom : Deque → ℕ × Deque
cl_pop_bottom q =
    let b = minus q.bottom 1 in
    if is_negative (minus b q.top)
    then (0, record q { bottom = q.top })
    else if not (b == q.top)
    then (q.items (slot_of b), record q { bottom = b })
    else (q.items (slot_of b), record q { top = u64 (q.top + 1); bottom = u64 (b + 1) })

unfoldable pub cl_steal : Deque → ℕ × Deque
cl_steal q =
    let size = minus q.bottom q.top in
    if is_negative size
    then (0, q)
    else if size == 0
    then (0, q)
    else (q.items (slot_of q.top), record q { top = u64 (q.top + 1) })

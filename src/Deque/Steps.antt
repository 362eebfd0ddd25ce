-- ===== src/Deque/Steps.antt =====
-- The deque of src/scheduler_mn.c with its owner and its thieves interleaved: every access to `top`,
-- `bottom` or `items` is a step of its own, in an order that all workers see alike.
use ein8_proj.Base.{ℕ, ◌+◌, ◌==◌, leb, if◌then◌else◌, not, List, [], ◌∷◌}
use ein8_proj.Base.Word.{u64}
use ein8_proj.Deque.{Deque, cl_cap, slot_of, write_item, minus, is_negative}

-- Where the owner stands, with its local variables.
pub data OwnerPc : Type 0 where
  owner_idle : OwnerPc
  push_bottom : (x b : ℕ) → OwnerPc  -- cl_push_bottom has read `bottom`
  push_top : (x b t : ℕ) → OwnerPc  -- has read `top`, and there is room
  push_item : (x b t : ℕ) → OwnerPc  -- has written the item
  push_aborted : OwnerPc
  pop_bottom : (b : ℕ) → OwnerPc  -- cl_pop_bottom has read `bottom`
  pop_stored : (b : ℕ) → OwnerPc  -- has lowered `bottom`
  pop_empty : (t : ℕ) → OwnerPc  -- has read `top`, and the deque is empty
  pop_top : (b t : ℕ) → OwnerPc  -- has read `top`, and there is an item
  pop_item : (b t item : ℕ) → OwnerPc  -- has read the last item
  pop_raced : (b : ℕ) → OwnerPc  -- has tried to move `top`

-- Where a thief stands.
pub data ThiefPc : Type 0 where
  thief_idle : ThiefPc
  steal_top : (t : ℕ) → ThiefPc
  steal_bottom : (t : ℕ) → ThiefPc
  steal_item : (t item : ℕ) → ThiefPc

-- What an access decides for the operation that it belongs to.
pub data Event : Type 0 where
  silent : Event
  pushed : (x size : ℕ) → Event  -- cl_push_bottom returns the size
  overflowed : Event  -- cl_push_bottom aborts
  popped : (x : ℕ) → Event
  popped_none : Event  -- cl_pop_bottom returns NULL
  stolen : (x : ℕ) → Event

-- The accesses of cl_push_bottom and cl_pop_bottom.
unfoldable pub owner_step : Deque → OwnerPc → Event × Deque × OwnerPc
owner_step q owner_idle = (silent, q, owner_idle)
owner_step q push_aborted = (silent, q, push_aborted)
owner_step q (push_bottom x b) =
    if leb cl_cap (minus b q.top)
    then (overflowed, q, push_aborted)
    else (silent, q, push_top x b q.top)
owner_step q (push_top x b t) =
    (silent, record q { items = write_item q.items (slot_of b) x }, push_item x b t)
owner_step q (push_item x b t) =
    (pushed x (minus (u64 (b + 1)) t), record q { bottom = u64 (b + 1) }, owner_idle)
owner_step q (pop_bottom b) = (silent, record q { bottom = b }, pop_stored b)
owner_step q (pop_stored b) =
    if is_negative (minus b q.top)
    then (silent, q, pop_empty q.top)
    else (silent, q, pop_top b q.top)
owner_step q (pop_empty t) = (popped_none, record q { bottom = t }, owner_idle)
owner_step q (pop_top b t) =
    let item = q.items (slot_of b) in
    if not (b == t) then (popped item, q, owner_idle) else (silent, q, pop_item b t item)
owner_step q (pop_item b t item) =
    if q.top == t
    then (popped item, record q { top = u64 (t + 1) }, pop_raced b)
    else (popped_none, q, pop_raced b)
owner_step q (pop_raced b) = (silent, record q { bottom = u64 (b + 1) }, owner_idle)

-- The first access of an operation that the owner begins.
unfoldable pub owner_push : (x : ℕ) → Deque → OwnerPc → OwnerPc
owner_push x q owner_idle = push_bottom x q.bottom
owner_push x q pc = pc

unfoldable pub owner_pop : Deque → OwnerPc → OwnerPc
owner_pop q owner_idle = pop_bottom (minus q.bottom 1)
owner_pop q pc = pc

-- The accesses of cl_steal.
unfoldable pub thief_step : Deque → ThiefPc → Event × Deque × ThiefPc
thief_step q thief_idle = (silent, q, steal_top q.top)
thief_step q (steal_top t) =
    let size = minus q.bottom t in
    if is_negative size
    then (silent, q, thief_idle)
    else if size == 0
    then (silent, q, thief_idle)
    else (silent, q, steal_bottom t)
thief_step q (steal_bottom t) = (silent, q, steal_item t (q.items (slot_of t)))
thief_step q (steal_item t item) =
    if q.top == t
    then (stolen item, record q { top = u64 (t + 1) }, thief_idle)
    else (silent, q, thief_idle)

pub record System : Type 0 where
  pub deque : Deque
  pub owner : OwnerPc
  pub thief : ℕ → ThiefPc

-- Who moves, and what the owner begins when it is idle.
pub data Choice : Type 0 where
  begin_push : (x : ℕ) → Choice
  begin_pop : Choice
  go_owner : Choice
  go_thief : (i : ℕ) → Choice

abbrev pub set_thief : (ℕ → ThiefPc) → (i : ℕ) → ThiefPc → ℕ → ThiefPc
set_thief f i p j = if j == i then p else f j

abbrev pub after_owner : (ℕ → ThiefPc) → Event × Deque × OwnerPc → Event × System
after_owner f (e, q, o) = (e, record { deque = q; owner = o; thief = f })

abbrev pub after_thief :
    OwnerPc → (ℕ → ThiefPc) → (i : ℕ) → Event × Deque × ThiefPc → Event × System
after_thief o f i (e, q, p) = (e, record { deque = q; owner = o; thief = set_thief f i p })

unfoldable pub step : Choice → System → Event × System
step (begin_push x) s = (silent, record s { owner = owner_push x s.deque s.owner })
step begin_pop s = (silent, record s { owner = owner_pop s.deque s.owner })
step go_owner s = after_owner s.thief (owner_step s.deque s.owner)
step (go_thief i) s = after_thief s.owner s.thief i (thief_step s.deque (s.thief i))

-- The events of a schedule, and the state that it leads to.
unfoldable pub events : List Choice → System → List Event
events [] s = []
events (c ∷ cs) s = (step c s).0 ∷ events cs (step c s).1

unfoldable pub final : List Choice → System → System
final [] s = s
final (c ∷ cs) s = final cs (step c s).1

-- runq_init
unfoldable pub start : (ℕ → ℕ) → System
start garbage = record {
  deque = record { top = 0; bottom = 0; items = garbage };
  owner = owner_idle;
  thief = λ i. thief_idle;
}

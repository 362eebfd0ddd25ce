-- ===== src/Deque/Inv.antt =====
-- What holds of the deque between two accesses: the items that it contains, and what the owner and
-- the thieves may rely on.
use ein8_proj.Base.{
  ℕ, suc, ◌+◌, ◌<◌, ◌≤◌, ◌≡◌, arith, ◌==◌, if◌then◌else◌, List, [], ◌∷◌, ◌++◌, length,
}
use ein8_proj.Deque.{Deque, cl_cap, slot_of, minus}
use ein8_proj.Deque.Lifo.{Holds}
use ein8_proj.Deque.Steps.{
  OwnerPc, owner_idle, push_bottom, push_top, push_item, push_aborted, pop_bottom, pop_stored,
  pop_empty, pop_top, pop_item, pop_raced, ThiefPc, thief_idle, steal_top, steal_bottom, steal_item,
  Event, silent, pushed, overflowed, popped, popped_none, stolen,
}

-- What a deque does in one piece: a list, oldest first. A push returns at least the number of items.
pub data Spec : List ℕ → Event → List ℕ → Type 0 where
  quiet : {xs : List ℕ} → Spec xs silent xs
  push : {xs : List ℕ} {x size : ℕ} → length xs < size → Spec xs (pushed x size) (xs ++ x ∷ [])
  overflow : {xs : List ℕ} → length xs ≡ cl_cap → Spec xs overflowed xs
  pop : {xs : List ℕ} {x : ℕ} → Spec (xs ++ x ∷ []) (popped x) xs
  pop_nothing : Spec [] popped_none []
  steal : {xs : List ℕ} {x : ℕ} → Spec (x ∷ xs) (stolen x) xs

-- The first index that no thief can take: the owner keeps the item below `bottom` when it saw that
-- there are others.
abbrev pub reach_of : (lb : ℕ) → OwnerPc → ℕ
reach_of lb (pop_top b t) = if b == t then lb else b
reach_of lb pc = lb

-- Where the owner stands, when the items end before index `lb`.
abbrev pub OwnerOk : Deque → (lb : ℕ) → OwnerPc → Type 0
OwnerOk q lb owner_idle = q.bottom ≡ lb
OwnerOk q lb push_aborted = q.bottom ≡ lb
OwnerOk q lb (push_bottom x b) = (b ≡ lb) × (q.bottom ≡ lb)
OwnerOk q lb (push_top x b t) = (b ≡ lb) × (q.bottom ≡ lb) × (lb < q.top + cl_cap) × (t ≤ q.top)
OwnerOk q lb (push_item x b t) =
    (b ≡ lb) × (q.bottom ≡ lb) × (lb < q.top + cl_cap) × (t ≤ q.top) × (q.items (slot_of b) ≡ x)
OwnerOk q lb (pop_bottom b) = (b ≡ minus lb 1) × (q.bottom ≡ lb)
OwnerOk q lb (pop_stored b) = (b ≡ minus lb 1) × (q.bottom ≡ b)
OwnerOk q lb (pop_empty t) = (t ≡ lb) × (q.top ≡ lb) × (q.bottom ≡ minus lb 1)
OwnerOk q lb (pop_top b t) =
    (suc b ≡ lb) × (q.bottom ≡ b) × (t ≤ b) × (t ≤ q.top) × (q.top ≤ reach_of lb (pop_top b t))
OwnerOk q lb (pop_item b t item) =
    (suc b ≡ lb) × (q.bottom ≡ b) × (t ≡ b) × (t ≤ q.top) × (q.items (slot_of b) ≡ item)
OwnerOk q lb (pop_raced b) = (suc b ≡ lb) × (q.bottom ≡ b) × (q.top ≡ lb)

-- Where a thief stands, when no thief can take index `reach` or beyond.
abbrev pub ThiefOk : Deque → (reach : ℕ) → ThiefPc → Type 0
ThiefOk q reach thief_idle = Unit
ThiefOk q reach (steal_top t) = t ≤ q.top
ThiefOk q reach (steal_bottom t) = (t ≤ q.top) × (t < reach)
ThiefOk q reach (steal_item t item) =
    (t ≤ q.top) × (t < reach) × (t ≡ q.top → q.items (slot_of t) ≡ item)

-- The deque contains `xs`, between two accesses.
pub record Inv (q : Deque) (o : OwnerPc) (f : ℕ → ThiefPc) (xs : List ℕ) : Type 0 where
  pub holds : Holds q.items q.top xs
  pub room : length xs ≤ cl_cap
  pub small : q.top + length xs < 9223372036854775808
  pub owner_ok : OwnerOk q (q.top + length xs) o
  pub thieves_ok : (i : ℕ) → ThiefOk q (reach_of (q.top + length xs) o) (f i)

-- The accesses of a step do to the list what the event says, and keep the invariant.
abbrev pub Refines : List ℕ → Event → Deque → OwnerPc → (ℕ → ThiefPc) → Type 0
Refines xs e q o f = (ys : List ℕ) × Spec xs e ys × Inv q o f ys

-- A thief keeps its place when the top stays or grows, its reach is kept, and the items in reach at
-- the top are kept.
pub ThiefOk-kept :
    (q q' : Deque) (reach reach' : ℕ) (pc : ThiefPc)
    → q.top ≤ q'.top
    → ((t : ℕ) → t ≤ q.top → t < reach → t < reach')
    → ((t : ℕ) → t < reach → t ≡ q'.top → q'.items (slot_of t) ≡ q.items (slot_of t))
    → ThiefOk q reach pc
    → ThiefOk q' reach' pc
ThiefOk-kept q q' reach reach' thief_idle grows nearer same ok = tt
ThiefOk-kept q q' reach reach' (steal_top t) grows nearer same ok = omega (arith, ok, grows)
ThiefOk-kept q q' reach reach' (steal_bottom t) grows nearer same (low, near) =
    (omega (arith, low, grows), nearer t low near)
ThiefOk-kept q q' reach reach' (steal_item t item) grows nearer same (low, near, here) = (
  omega (arith, low, grows),
  nearer t low near,
  λ e. let old : t ≡ q.top = omega (arith, low, grows, e) in rw (same t near e) (here old),
)

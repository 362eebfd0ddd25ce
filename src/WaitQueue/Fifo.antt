-- ===== src/WaitQueue/Fifo.antt =====
-- The wait queues of src/thread_sync.c are first in, first out.
use ein8_proj.Base.{
  ℕ, ◌≡◌, ◌≢◌, refl, List, [], ◌∷◌, ◌++◌, arith, ◌∈◌, ◌∉◌, IsDistinct, IsDistinct-append_one, sym,
  subst, ==_ne,
}
use ein8_proj.FreeList.{Linked, Linked-frame}
use ein8_proj.Sched.{Slab, set_next}
use ein8_proj.WaitQueue.{Ends, wq_append, wq_pop}

abbrev pub next_link : Slab → ℕ → ℕ
next_link h t = (h t).sched_next

abbrev pub last_or_null : List ℕ → ℕ
last_or_null [] = 0
last_or_null (x ∷ []) = x
last_or_null (x ∷ y ∷ xs) = last_or_null (y ∷ xs)

-- The queue holds the threads `ws`, oldest first.
pub record IsQueue (h : Slab) (q : Ends) (ws : List ℕ) : Type 0 where
  pub linked : Linked (next_link h) q.head ws
  pub tail : q.tail ≡ last_or_null ws
  pub distinct : IsDistinct ws

pub last_or_null-mem : (x : ℕ) (xs : List ℕ) → last_or_null (x ∷ xs) ∈ x ∷ xs
last_or_null-mem x [] = ground arith
last_or_null-mem x (y ∷ xs) = ground (arith, last_or_null-mem y xs)

pub last_or_null-snoc : (xs : List ℕ) (t : ℕ) → last_or_null (xs ++ t ∷ []) ≡ t
last_or_null-snoc [] t = refl
last_or_null-snoc (x ∷ []) t = refl
last_or_null-snoc (x ∷ y ∷ xs) t = last_or_null-snoc (y ∷ xs) t

-- The link of the last entry may be set to a new one.
Linked-extend :
    (f g : ℕ → ℕ) (head x : ℕ) (xs : List ℕ) (t : ℕ)
    → Linked f head (x ∷ xs)
    → IsDistinct (x ∷ xs)
    → t ≢ 0
    → g (last_or_null (x ∷ xs)) ≡ t
    → g t ≡ 0
    → ((a : ℕ) → a ∈ x ∷ xs → a ≢ last_or_null (x ∷ xs) → g a ≡ f a)
    → Linked g head (x ∷ xs ++ t ∷ [])
Linked-extend f g head x [] t (e, n, l) d ne last_t null same =
    (e, n, (ground arith, ne, ground arith))
Linked-extend f g head x (y ∷ xs) t (e, n, l) d ne last_t null same =
    let away : x ≢ last_or_null (y ∷ xs) = ground (arith, last_or_null-mem y xs, d) in
    (
      e,
      n,
      rw (same x (ground arith) away) (
          Linked-extend f g (f x) y xs t l d.1 ne last_t null
            (λ a i out. same a (ground arith) out)),
    )

Linked-mem_nonnull : (f : ℕ → ℕ) (head a : ℕ) (xs : List ℕ) → Linked f head xs → a ∈ xs → a ≢ 0
Linked-mem_nonnull f head a [] l i = cc
Linked-mem_nonnull f head a (x ∷ xs) (e, n, l) i = ground (arith, Linked-mem_nonnull f (f x) a xs l)

pub tail-mem : (h : Slab) (q : Ends) (x : ℕ) (ws : List ℕ) → IsQueue h q (x ∷ ws) → q.tail ∈ x ∷ ws
tail-mem h q x ws is = subst (λ a. a ∈ x ∷ ws) (sym is.tail) (last_or_null-mem x ws)

pub tail_nonnull : (h : Slab) (q : Ends) (x : ℕ) (ws : List ℕ) → IsQueue h q (x ∷ ws) → q.tail ≢ 0
tail_nonnull h q x ws is =
    Linked-mem_nonnull (next_link h) q.head q.tail (x ∷ ws) is.linked (tail-mem h q x ws is)

wq_append_behind :
    (q : Ends) (t : ℕ) (h : Slab)
    → q.tail ≢ 0
    → wq_append q t h ≡ (record { head = q.head; tail = t }, set_next q.tail t (set_next t 0 h))
unfolding wq_append
wq_append_behind q t h ne = rw (==_ne q.tail 0 ne)

wq_append_first :
    (q : Ends) (t : ℕ) (h : Slab)
    → q.tail ≡ 0
    → wq_append q t h ≡ (record { head = t; tail = t }, set_next t 0 h)
unfolding wq_append
wq_append_first q t h e = rw e

-- `wq_append` puts a thread that is not in the queue behind the others.
pub wq_append-IsQueue :
    (h : Slab) (q : Ends) (ws : List ℕ) (t : ℕ)
    → IsQueue h q ws
    → t ∉ ws
    → t ≢ 0
    → IsQueue (wq_append q t h).1 (wq_append q t h).0 (ws ++ t ∷ [])
wq_append-IsQueue h q [] t is out ne =
    rw (wq_append_first q t h is.tail)
      (record { linked = (refl, ne, ground arith); tail = refl; distinct = (refl, tt) })
wq_append-IsQueue h q (x ∷ ws) t is out ne =
    let inside : q.tail ∈ x ∷ ws = tail-mem h q x ws is in
    rw (wq_append_behind q t h (tail_nonnull h q x ws is)) (record {
      linked =
          Linked-extend (next_link h) (next_link (set_next q.tail t (set_next t 0 h))) q.head x ws t
            is.linked is.distinct ne (ground (arith, is.tail)) (ground (arith, is.tail, inside))
            (λ a i away. ground (arith, is.tail));
      tail = sym (last_or_null-snoc (x ∷ ws) t);
      distinct = IsDistinct-append_one (x ∷ ws) t is.distinct out;
    })

-- `wq_pop` returns the oldest thread, NULL if there is none, and keeps the others in their order.
pub wq_pop-cons :
    (h : Slab) (q : Ends) (x : ℕ) (ws : List ℕ)
    → IsQueue h q (x ∷ ws)
    → ((wq_pop q h).0 ≡ x) × IsQueue h (wq_pop q h).1 ws
unfolding wq_pop
wq_pop-cons h q x [] is =
    let (e, n, l) = is.linked in
    (ground arith, record { linked = ground arith; tail = ground arith; distinct = tt })
wq_pop-cons h q x (y ∷ ws) is =
    let (e, n, (e', n', l')) = is.linked in
    (
      ground arith,
      record {
        linked = (ground arith, n', l');
        tail = ground (arith, is.tail);
        distinct = is.distinct.1;
      },
    )

pub wq_pop-nil : (h : Slab) (q : Ends) → IsQueue h q [] → wq_pop q h ≡ (0, q)
unfolding wq_pop
wq_pop-nil h q is = rw is.linked

-- A queue depends on the links of its own threads alone.
pub IsQueue-frame :
    (h g : Slab) (q : Ends) (ws : List ℕ)
    → IsQueue h q ws
    → ((a : ℕ) → a ∈ ws → (g a).sched_next ≡ (h a).sched_next)
    → IsQueue g q ws
IsQueue-frame h g q ws is same = record {
  linked = Linked-frame (next_link h) (next_link g) q.head ws is.linked same;
  tail = is.tail;
  distinct = is.distinct;
}

-- `wq_append` writes the link of the thread and that of the last in the queue.
pub wq_append-frame :
    (h : Slab) (q : Ends) (ws : List ℕ) (t a : ℕ)
    → IsQueue h q ws
    → a ∉ ws
    → a ≢ t
    → (wq_append q t h).1 a ≡ h a
wq_append-frame h q [] t a is out ne = rw (wq_append_first q t h is.tail) (ground arith)
wq_append-frame h q (x ∷ ws) t a is out ne =
    rw (wq_append_behind q t h (tail_nonnull h q x ws is))
      (ground (arith, is.tail, last_or_null-mem x ws))

pub wq_append-rsp : (q : Ends) (t : ℕ) (h : Slab) (a : ℕ) → ((wq_append q t h).1 a).rsp ≡ (h a).rsp
unfolding wq_append
wq_append-rsp q t h a = ground arith

-- ===== src/UnionFind.antt =====
-- The deadlock test of src/thread.c: `uf_find` with path halving and `uf_union` by rank, over the
-- `parent` and `rank` of the descriptors. The test of src/thread_mn.c differs by its lock alone.
pub mod Rep
pub mod Union
use ein8_proj.Base.{ℕ, zero, suc, ◌+◌, ◌==◌, if◌then◌else◌, ltb}
use ein8_proj.Base.Int.{ℤ, pos, negsuc}
use ein8_proj.Base.Word.{u8}
use ein8_proj.Cold.{Cold}
use ein8_proj.Mono.{write_cold}

-- The slab of cold descriptors.
abbrev pub Cells : Type 0
Cells = ℕ → Cold

abbrev pub set_parent : ℕ → ℕ → Cells → Cells
set_parent t p c = write_cold c t (record (c t) { parent = p })

abbrev pub set_rank : ℕ → ℕ → Cells → Cells
set_rank t k c = write_cold c t (record (c t) { rank = k })

-- `while (t->parent != t) t = t->parent = t->parent->parent;`
unfoldable pub uf_find : (fuel t : ℕ) → Cells → ℕ × Cells
uf_find zero t c = (t, c)
uf_find (suc fuel) t c =
    let up = (c (c t).parent).parent in
    let rest = uf_find fuel up (set_parent t up c) in if (c t).parent == t then (t, c) else rest

-- `while (a->rank < b->rank)` swap the two; it runs at most once.
unfoldable pub uf_order : (fuel a b : ℕ) → Cells → ℕ × ℕ
uf_order zero a b c = (a, b)
uf_order (suc fuel) a b c =
    let rest = uf_order fuel b a c in if ltb (c a).rank (c b).rank then rest else (a, b)

-- `b` goes below `a`.
unfoldable pub uf_link : (a b : ℕ) → Cells → Cells
uf_link a b c =
    let c = set_parent b a c in
    if (c a).rank == (c b).rank then set_rank a (u8 ((c a).rank + 1)) c else c

-- `uf_union` behind the two calls of `uf_find`, on the roots that they found.
unfoldable pub uf_join : (a b : ℕ) → Cells → ℤ × Cells
uf_join a b c =
    let (upper, lower) = uf_order 2 a b c in
    if a == b then (negsuc 0, c) else (pos 0, uf_link upper lower c)

unfoldable pub uf_union : (fuel a b : ℕ) → Cells → ℤ × Cells
uf_union fuel a b c =
    let (a, c) = uf_find fuel a c in let (b, c) = uf_find fuel b c in uf_join a b c

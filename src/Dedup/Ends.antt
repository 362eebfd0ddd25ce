-- ===== src/Dedup/Ends.antt =====
-- When the searches of src/dedup.h end, and what an insertion and a lookup do then.
use ein8_proj.Base.{
  ℕ, zero, suc, ◌+◌, ◌*◌, ◌<◌, ◌≡◌, refl, arith, true, false, Option-cases, none, some, inl, inr,
  ◌⊎◌,
}
use ein8_proj.Dedup.{
  Table, Probing, dedup_hash_full, swiss_probe_next, has_empty, find_step, find_loop, lookup_at,
  dedup_lookup, dedup_insert,
}
use ein8_proj.Dedup.Group.{hit, match_slot-cases}
use ein8_proj.Dedup.Find.{find_loop-hit}
use ein8_proj.Dedup.Probe.{find_loop_ends}
use ein8_proj.Dedup.Laws.{tag_of, start_of, place_of, insert_absent}

-- With 256 rounds and a slot of the table that was never used, `dedup_lookup` returns: the thread of
-- a slot that holds the key under its tag, or NULL.
pub dedup_lookup_ends :
    (func arg target : ℕ) (t : Table)
    → target < 256
    → has_empty t target ≡ true
    → (dedup_lookup 256 func arg t ≡ some 0)
      ⊎ ((g : ℕ) × (i : ℕ) × (i < 16)
          × (hit func arg (tag_of func arg) t g i ≡ true)
          × (dedup_lookup 256 func arg t ≡ some (t.val (g * 16 + i))))
unfolding dedup_lookup lookup_at
dedup_lookup_ends func arg target t small empty = elim (Option-cases (place_of 256 func arg t)) [
  | inl out ↦ absurd (
      find_loop_ends func arg (tag_of func arg) (dedup_hash_full func arg) target t small empty out)
  | inr (none, found) ↦ inl (rw found refl)
  | inr (some (g, i), found) ↦
      let (below, here) =
        find_loop-hit 256 func arg (tag_of func arg) g i (start_of func arg) t found in
      inr (g, i, below, here, rw found refl)
]

-- When some slot was never used and the key is nowhere in the table, an insertion of the key with 256
-- rounds succeeds, and a lookup with 256 rounds then returns the thread that was inserted.
pub dedup_lookup-dedup_insert :
    (func arg v target : ℕ) (t : Table)
    → target < 256
    → has_empty t target ≡ true
    → ((group i : ℕ) → i < 16 → hit func arg (tag_of func arg) t group i ≡ false)
    → (t' : Table) × (dedup_insert 256 func arg v t ≡ some t')
      × (dedup_lookup 256 func arg t' ≡ some v)
dedup_lookup-dedup_insert func arg v target t small empty absent =
    elim (Option-cases (place_of 256 func arg t)) [
      | inl out ↦ absurd (
          find_loop_ends func arg (tag_of func arg) (dedup_hash_full func arg) target t small empty
            out)
      | inr (none, found) ↦ insert_absent 256 func arg v t found
      | inr (some (g, i), found) ↦
          let (below, here) =
            find_loop-hit 256 func arg (tag_of func arg) g i (start_of func arg) t found in
          absurd (ground (arith, here, absent g i below))
    ]

find_loop_endless :
    (fuel func arg tag : ℕ) (p : Probing) (t : Table)
    → ((group : ℕ) → has_empty t group ≡ false)
    → ((group i : ℕ) → i < 16 → hit func arg tag t group i ≡ false)
    → find_loop fuel func arg tag p t ≡ none
unfolding find_loop find_step
find_loop_endless zero func arg tag p t used absent = refl
find_loop_endless (suc fuel) func arg tag p t used absent =
    elim (match_slot-cases func arg tag p.group t) [
      | inr (k, e, small, here) ↦ absurd (ground (arith, here, absent p.group k small))
      | inl (e, nowhere) ↦
          rw (e, used p.group)
            (find_loop_endless fuel func arg tag (swiss_probe_next p) t used absent)
    ]

-- When every slot of the table is in use or was deleted, a lookup of a key that is not there never
-- returns, whatever the number of rounds.
pub dedup_lookup_endless :
    (fuel func arg : ℕ) (t : Table)
    → ((group : ℕ) → has_empty t group ≡ false)
    → ((group i : ℕ) → i < 16 → hit func arg (tag_of func arg) t group i ≡ false)
    → dedup_lookup fuel func arg t ≡ none
unfolding dedup_lookup lookup_at
dedup_lookup_endless fuel func arg t used absent =
    rw (find_loop_endless fuel func arg (tag_of func arg) (start_of func arg) t used absent) refl

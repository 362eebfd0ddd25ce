-- ===== src/Dedup/Laws.antt =====
-- Insertions into the table of src/dedup.h: a lookup finds what was inserted, and the other keys
-- stay.
use ein8_proj.Base.{
  ℕ, ◌+◌, ◌*◌, ◌<◌, ◌≡◌, ◌≢◌, refl, ◌∙◌, ap, arith, ==_self, ==_ne, true, ℕ_discrete, Option,
  Option-cases, none, some, inl, inr, ◌⊎◌, subst,
}
use ein8_proj.Dedup.{
  Table, dedup_hash_full, swiss_tag, swiss_probe_start, find_loop, avail_loop, fill, lookup_at,
  insert_at, dedup_lookup, dedup_insert, Probing,
}
use ein8_proj.Dedup.Group.{hit, is_avail}
use ein8_proj.Dedup.Find.{
  find_loop_kept, find_loop-hit, find_loop-fill, avail_loop-avail, avail_loop_found, fill-empties,
}

abbrev pub tag_of : (func arg : ℕ) → ℕ
tag_of func arg = swiss_tag (dedup_hash_full func arg)

abbrev pub start_of : (func arg : ℕ) → Probing
start_of func arg = swiss_probe_start (dedup_hash_full func arg)

-- The place of a key, found within the fuel.
abbrev pub place_of : (fuel func arg : ℕ) → Table → Option (Option (ℕ × ℕ))
place_of fuel func arg t = find_loop fuel func arg (tag_of func arg) (start_of func arg) t

pub tag_of-lt : (func arg : ℕ) → tag_of func arg < 128
unfolding swiss_tag
tag_of-lt func arg = omega arith

val-fill : (slot f a tag w : ℕ) (t : Table) → (fill slot f a tag w t).val slot ≡ w
unfolding fill
val-fill slot f a tag w t = rw (==_self slot) refl

-- A key whose search ends without finding it: its insertion succeeds with the fuel of the search, and
-- a lookup then returns the thread that was inserted.
pub insert_absent :
    (fuel func arg v : ℕ) (t : Table)
    → place_of fuel func arg t ≡ some none
    → (t' : Table) × (dedup_insert fuel func arg v t ≡ some t')
      × (dedup_lookup fuel func arg t' ≡ some v)
unfolding dedup_insert insert_at dedup_lookup lookup_at
insert_absent fuel func arg v t absent =
    let (g, i, found) =
      avail_loop_found fuel func arg (tag_of func arg) (start_of func arg) t absent in
    let back =
      find_loop-fill fuel func arg (tag_of func arg) v g i (start_of func arg) t
        (tag_of-lt func arg) absent found in
    (
      fill (g * 16 + i) func arg (tag_of func arg) v t,
      rw found refl,
      rw back (ap (λ (x : ℕ). some x) (val-fill (g * 16 + i) func arg (tag_of func arg) v t)),
    )

-- A lookup of a key that is found, in a table where it is found at the same place.
pub lookup_moved :
    (fuel func arg w g i : ℕ) (t t' : Table)
    → place_of fuel func arg t ≡ some (some (g, i))
    → place_of fuel func arg t' ≡ some (some (g, i))
    → t'.val (g * 16 + i) ≡ t.val (g * 16 + i)
    → dedup_lookup fuel func arg t ≡ some w
    → dedup_lookup fuel func arg t' ≡ some w
unfolding dedup_lookup lookup_at
lookup_moved fuel func arg w g i t t' there there' same before =
    rw there' (ap (λ (x : ℕ). some x) same ∙ rw there at before)

hit-fill_others :
    (func arg tag func' arg' tag' v g i group j : ℕ) (t : Table)
    → (func ≢ func') ⊎ (arg ≢ arg')
    → tag' < 128
    → is_avail t g i ≡ true
    → hit func' arg' tag' (fill (g * 16 + i) func arg tag v t) group j
      ≡ hit func' arg' tag' t group j
unfolding fill
hit-fill_others func arg tag func' arg' tag' v g i group j t differ small free =
    elim (ℕ_discrete (group * 16 + j) (g * 16 + i)) [
      | yes here ↦ rw (here, ==_self (g * 16 + i)) (ground (arith, differ, free))
      | no away ↦ rw (==_ne (group * 16 + j) (g * 16 + i) away) refl
    ]

val-fill_others :
    (func arg tag func' arg' tag' v g i g' i' : ℕ) (t : Table)
    → tag' < 128
    → is_avail t g i ≡ true
    → hit func' arg' tag' t g' i' ≡ true
    → (fill (g * 16 + i) func arg tag v t).val (g' * 16 + i') ≡ t.val (g' * 16 + i')
unfolding fill
val-fill_others func arg tag func' arg' tag' v g i g' i' t small free there =
    elim (ℕ_discrete (g' * 16 + i') (g * 16 + i)) [
      | yes here ↦ absurd (ground (arith, rw here at there, free))
      | no away ↦ rw (==_ne (g' * 16 + i') (g * 16 + i) away) refl
    ]

-- An insertion leaves every other key that is found where it is, with its thread.
pub dedup_insert-others :
    (fuel func arg func' arg' v w : ℕ) (t t' : Table) (g i : ℕ)
    → (func ≢ func') ⊎ (arg ≢ arg')
    → dedup_insert fuel func arg v t ≡ some t'
    → place_of fuel func' arg' t ≡ some (some (g, i))
    → dedup_lookup fuel func' arg' t ≡ some w
    → dedup_lookup fuel func' arg' t' ≡ some w
unfolding dedup_insert insert_at
dedup_insert-others fuel func arg func' arg' v w t t' g i differ ins there before =
    elim (Option-cases (avail_loop fuel (start_of func arg) t)) [
      | inl out ↦ cc
      | inr ((g2, i2), found) ↦
          let e : fill (g2 * 16 + i2) func arg (tag_of func arg) v t ≡ t' = cc in
          let (_, free) = avail_loop-avail fuel g2 i2 (start_of func arg) t found in
          let (_, here) =
            find_loop-hit fuel func' arg' (tag_of func' arg') g i (start_of func' arg') t there in
          let small = tag_of-lt func' arg' in
          subst (λ u. dedup_lookup fuel func' arg' u ≡ some w) e
            (lookup_moved fuel func' arg' w g i t
              (fill (g2 * 16 + i2) func arg (tag_of func arg) v t) there
              (find_loop_kept fuel func' arg' (tag_of func' arg') g i (start_of func' arg') t
                (fill (g2 * 16 + i2) func arg (tag_of func arg) v t)
                (λ group j _.
                  hit-fill_others func arg (tag_of func arg) func' arg' (tag_of func' arg') v g2 i2
                    group j t differ small free)
                (λ group.
                  fill-empties (g2 * 16 + i2) func arg (tag_of func arg) v group t
                    (tag_of-lt func arg))
                there)
              (val-fill_others func arg (tag_of func arg) func' arg' (tag_of func' arg') v g2 i2 g i
                t small free here)
              before)
    ]

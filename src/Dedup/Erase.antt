-- ===== src/Dedup/Erase.antt =====
-- Removals from the table of src/dedup.h: they take their own key away and leave the others alone.
use ein8_proj.Base.{
  ℕ, ◌+◌, ◌*◌, ◌<◌, ◌≡◌, ◌≢◌, refl, sym, ◌∙◌, arith, ==_self, ==_ne, true, false, Bool-cases,
  ℕ_discrete, Option-cases, none, some, inl, inr, ◌⊎◌, subst,
}
use ein8_proj.Dedup.{
  Table, dedup_hash_full, has_empty, erase, lookup_at, remove_at, dedup_lookup, dedup_remove,
}
use ein8_proj.Dedup.Group.{hit, has_empty-cases}
use ein8_proj.Dedup.Find.{find_loop_kept, find_loop-hit}
use ein8_proj.Dedup.Probe.{find_loop_ends}
use ein8_proj.Dedup.Laws.{tag_of, start_of, place_of, tag_of-lt, lookup_moved}

false_ne_true : false ≢ true
false_ne_true e = cc

erase-empties :
    (g i group : ℕ) (t : Table)
    → i < 16
    → has_empty t group ≡ false
    → has_empty (erase g i t) group ≡ false
unfolding erase
erase-empties g i group t small none_empty = elim (has_empty-cases (erase g i t) group) [
  | inl (e, _) ↦ e
  | inr (e, j, below, empty) ↦ elim (has_empty-cases t group) [
    | inl (_, nowhere) ↦ elim (ℕ_discrete (group * 16 + j) (g * 16 + i)) [
      | yes here ↦
          let eg : group ≡ g = omega arith in
          let full : has_empty t g ≡ false = subst (λ k. has_empty t k ≡ false) eg none_empty in
          let bad = rw (here, ==_self (g * 16 + i), full) at empty in absurd (false_ne_true bad)
      | no away ↦
          let old = rw (==_ne (group * 16 + j) (g * 16 + i) away) at empty in
          absurd (false_ne_true (sym (nowhere j below) ∙ old))
    ]
    | inr (bad, _, _, _) ↦ cc
  ]
]

hit-erase_others :
    (func arg tag func' arg' tag' g i group j : ℕ) (t : Table)
    → (func ≢ func') ⊎ (arg ≢ arg')
    → hit func arg tag t g i ≡ true
    → hit func' arg' tag' (erase g i t) group j ≡ hit func' arg' tag' t group j
unfolding erase
hit-erase_others func arg tag func' arg' tag' g i group j t differ gone =
    elim (ℕ_discrete (group * 16 + j) (g * 16 + i)) [
      | yes here ↦ rw (here, ==_self (g * 16 + i)) (ground (arith, differ, gone))
      | no away ↦ rw (==_ne (group * 16 + j) (g * 16 + i) away) refl
    ]

val-erase_others :
    (func arg tag func' arg' tag' g i g' i' : ℕ) (t : Table)
    → (func ≢ func') ⊎ (arg ≢ arg')
    → hit func arg tag t g i ≡ true
    → hit func' arg' tag' t g' i' ≡ true
    → (erase g i t).val (g' * 16 + i') ≡ t.val (g' * 16 + i')
unfolding erase
val-erase_others func arg tag func' arg' tag' g i g' i' t differ gone there =
    elim (ℕ_discrete (g' * 16 + i') (g * 16 + i)) [
      | yes here ↦ absurd (ground (arith, rw here at there, gone, differ))
      | no away ↦ rw (==_ne (g' * 16 + i') (g * 16 + i) away) refl
    ]

-- A removal leaves every other key that is found where it is, with its thread.
pub dedup_remove-others :
    (fuel func arg func' arg' w : ℕ) (t t' : Table) (g i : ℕ)
    → (func ≢ func') ⊎ (arg ≢ arg')
    → dedup_remove fuel func arg t ≡ some t'
    → place_of fuel func' arg' t ≡ some (some (g, i))
    → dedup_lookup fuel func' arg' t ≡ some w
    → dedup_lookup fuel func' arg' t' ≡ some w
unfolding dedup_remove remove_at
dedup_remove-others fuel func arg func' arg' w t t' g i differ rem there before =
    elim (Option-cases (place_of fuel func arg t)) [
      | inl out ↦ cc
      | inr (none, found) ↦
          let e : t ≡ t' = cc in subst (λ u. dedup_lookup fuel func' arg' u ≡ some w) e before
      | inr (some (g2, i2), found) ↦
          let e : erase g2 i2 t ≡ t' = cc in
          let (below, gone) =
            find_loop-hit fuel func arg (tag_of func arg) g2 i2 (start_of func arg) t found in
          let (_, here) =
            find_loop-hit fuel func' arg' (tag_of func' arg') g i (start_of func' arg') t there in
          subst (λ u. dedup_lookup fuel func' arg' u ≡ some w) e
            (lookup_moved fuel func' arg' w g i t (erase g2 i2 t) there
              (find_loop_kept fuel func' arg' (tag_of func' arg') g i (start_of func' arg') t
                (erase g2 i2 t)
                (λ group j _.
                  hit-erase_others func arg (tag_of func arg) func' arg' (tag_of func' arg') g2 i2
                    group j t differ gone)
                (λ group. erase-empties g2 i2 group t below) there)
              (val-erase_others func arg (tag_of func arg) func' arg' (tag_of func' arg') g2 i2 g i
                t differ gone here)
              before)
    ]

-- No key stands twice in the table: two slots that answer to it are one.
abbrev pub IsSingle : (func arg : ℕ) → Table → Type 0
IsSingle func arg t =
    (g i g' i' : ℕ)
    → i < 16
    → i' < 16
    → hit func arg (tag_of func arg) t g i ≡ true
    → hit func arg (tag_of func arg) t g' i' ≡ true
    → (g ≡ g') × (i ≡ i')

erase-has_empty :
    (func arg tag g i target : ℕ) (t : Table)
    → tag < 128
    → hit func arg tag t g i ≡ true
    → has_empty t target ≡ true
    → has_empty (erase g i t) target ≡ true
unfolding erase
erase-has_empty func arg tag g i target t small gone empty = elim (has_empty-cases t target) [
  | inl (bad, _) ↦ cc
  | inr (_, j, below, there) ↦ elim (has_empty-cases (erase g i t) target) [
    | inr (e, _, _, _) ↦ e
    | inl (_, nowhere) ↦
        let away : target * 16 + j ≢ g * 16 + i =
          λ e. absurd (ground (arith, rw e at there, gone)) in
        let old = rw (==_ne (target * 16 + j) (g * 16 + i) away) at (nowhere j below) in
        absurd (false_ne_true (sym old ∙ there))
  ]
]

-- A slot that answers to the key after the removal is another one, and did so before.
hit-erase_self :
    (func arg tag g i g' i' : ℕ) (t : Table)
    → tag < 128
    → hit func arg tag (erase g i t) g' i' ≡ true
    → (g' * 16 + i' ≢ g * 16 + i) × (hit func arg tag t g' i' ≡ true)
unfolding erase
hit-erase_self func arg tag g i g' i' t small back = elim (ℕ_discrete (g' * 16 + i') (g * 16 + i)) [
  | yes here ↦ elim (Bool-cases (has_empty t g)) [
    | inl e ↦ absurd (ground (arith, rw (here, ==_self (g * 16 + i), e) at back))
    | inr e ↦ absurd (ground (arith, rw (here, ==_self (g * 16 + i), e) at back))
  ]
  | no away ↦ (away, rw (==_ne (g' * 16 + i') (g * 16 + i) away) at back)
]

-- After a removal of a key that stands once, a lookup of it returns NULL, with 256 rounds and a slot
-- that was never used.
pub dedup_lookup-dedup_remove :
    (func arg target : ℕ) (t : Table)
    → IsSingle func arg t
    → target < 256
    → has_empty t target ≡ true
    → (t' : Table) × (dedup_remove 256 func arg t ≡ some t')
      × (dedup_lookup 256 func arg t' ≡ some 0)
unfolding dedup_remove remove_at dedup_lookup lookup_at
dedup_lookup-dedup_remove func arg target t single small empty =
    elim (Option-cases (place_of 256 func arg t)) [
      | inl out ↦ absurd (
          find_loop_ends func arg (tag_of func arg) (dedup_hash_full func arg) target t small empty
            out)
      | inr (none, found) ↦ (t, rw found refl, rw found refl)
      | inr (some (g, i), found) ↦
          let (below, gone) =
            find_loop-hit 256 func arg (tag_of func arg) g i (start_of func arg) t found in
          (
            erase g i t,
            rw found refl,
            elim (Option-cases (place_of 256 func arg (erase g i t))) [
              | inl out ↦ absurd (
                  find_loop_ends func arg (tag_of func arg) (dedup_hash_full func arg) target
                    (erase g i t) small
                    (erase-has_empty func arg (tag_of func arg) g i target t (tag_of-lt func arg)
                      gone empty)
                    out)
              | inr (none, absent) ↦ rw absent refl
              | inr (some (g', i'), again) ↦
                  let (below', back) =
                    find_loop-hit 256 func arg (tag_of func arg) g' i' (start_of func arg)
                      (erase g i t) again in
                  let old =
                    hit-erase_self func arg (tag_of func arg) g i g' i' t (tag_of-lt func arg)
                      back in
                  let (eg, ei) = single g i g' i' below below' gone old.1 in
                  absurd (old.0 (omega (arith, eg, ei)))
            ],
          )
    ]

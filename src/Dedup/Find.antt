-- ===== src/Dedup/Find.antt =====
-- The loops of src/dedup.h over the groups: what a change of one slot does to a search.
use ein8_proj.Base.{
  ℕ, zero, suc, ◌+◌, ◌*◌, ◌<◌, ◌≡◌, ◌≢◌, refl, sym, ◌∙◌, ap, arith, ◌==◌, ==_ne, true, false,
  Bool-cases, Option, none, some, inl, inr, ◌⊎◌, subst,
}
use ein8_proj.Base.Bits.{ctz}
use ein8_proj.Dedup.{
  Table, Probing, match_slot, has_empty, find_step, find_loop, avail_loop, fill, swiss_probe_next,
  swiss_match_empty_or_deleted,
}
use ein8_proj.Dedup.Group.{
  hit, is_avail, has_empty-cases, avail-cases, match_slot-same, match_slot-cases, match_slot_only,
}

abbrev pub Place : Type 0
Place = Option (Option (ℕ × ℕ))

-- A key that is found stays found when no hit changes and no group gets its first empty slot.
pub find_loop_kept :
    (fuel func arg tag g i : ℕ) (p : Probing) (t t' : Table)
    → ((group j : ℕ) → j < 16 → hit func arg tag t' group j ≡ hit func arg tag t group j)
    → ((group : ℕ) → has_empty t group ≡ false → has_empty t' group ≡ false)
    → find_loop fuel func arg tag p t ≡ some (some (g, i))
    → find_loop fuel func arg tag p t' ≡ some (some (g, i))
unfolding find_loop find_step
find_loop_kept zero func arg tag g i p t t' hits empties h = cc
find_loop_kept (suc fuel) func arg tag g i p t t' hits empties h =
    let same = match_slot-same func arg tag p.group t t' (hits p.group) in
    elim (match_slot-cases func arg tag p.group t) [
      | inr (k, e, small, here) ↦ rw (same, e) (rw e at h)
      | inl (e, nowhere) ↦ elim (Bool-cases (has_empty t p.group)) [
        | inl stop ↦ cc
        | inr go ↦
            rw (same, e, empties p.group go)
              (find_loop_kept fuel func arg tag g i (swiss_probe_next p) t t' hits empties
                (rw (e, go) at h))
      ]
    ]

-- A key that is found stands in its slot.
pub find_loop-hit :
    (fuel func arg tag g i : ℕ) (p : Probing) (t : Table)
    → find_loop fuel func arg tag p t ≡ some (some (g, i))
    → (i < 16) × (hit func arg tag t g i ≡ true)
unfolding find_loop find_step
find_loop-hit zero func arg tag g i p t h = cc
find_loop-hit (suc fuel) func arg tag g i p t h = elim (match_slot-cases func arg tag p.group t) [
  | inr (k, e, small, here) ↦
      let found = rw e at h in
      let eg : p.group ≡ g = cc in
      let ek : k ≡ i = cc in
      (
        omega (arith, small, ek),
        subst (λ a. hit func arg tag t a i ≡ true) eg
            (subst (λ b. hit func arg tag t p.group b ≡ true) ek here),
      )
  | inl (e, nowhere) ↦ elim (Bool-cases (has_empty t p.group)) [
    | inl stop ↦ cc
    | inr go ↦ find_loop-hit fuel func arg tag g i (swiss_probe_next p) t (rw (e, go) at h)
  ]
]

-- The first round of `avail_loop`.
avail_loop_round :
    (fuel g i : ℕ) (p : Probing) (t : Table)
    → avail_loop (suc fuel) p t ≡ some (g, i)
    → ((p.group ≡ g) × (i < 16) × (is_avail t p.group i ≡ true))
      ⊎ (((j : ℕ) → j < 16 → is_avail t p.group j ≡ false)
          × (avail_loop fuel (swiss_probe_next p) t ≡ some (g, i)))
unfolding avail_loop
avail_loop_round fuel g i p t h = elim (avail-cases t p.group) [
  | inr (ne, small, here) ↦
      let stop = ==_ne (swiss_match_empty_or_deleted t p.group) 0 ne in
      let found = rw stop at h in
      let eg : p.group ≡ g = cc in
      let ei : ctz 32 (swiss_match_empty_or_deleted t p.group) ≡ i = cc in
      inl (eg, omega (arith, small, ei), subst (λ k. is_avail t p.group k ≡ true) ei here)
  | inl (e, nowhere) ↦
      let go : (swiss_match_empty_or_deleted t p.group == 0) ≡ true = ground arith in
      inr (nowhere, rw go at h)
]

pub avail_loop-avail :
    (fuel g i : ℕ) (p : Probing) (t : Table)
    → avail_loop fuel p t ≡ some (g, i)
    → (i < 16) × (is_avail t g i ≡ true)
unfolding avail_loop
avail_loop-avail zero g i p t h = cc
avail_loop-avail (suc fuel) g i p t h = elim (avail_loop_round fuel g i p t h) [
  | inl (eg, small, here) ↦ (small, subst (λ k. is_avail t k i ≡ true) eg here)
  | inr (nowhere, rest) ↦ avail_loop-avail fuel g i (swiss_probe_next p) t rest
]

-- A group without a free slot has no empty one.
full-no_empty :
    (t : Table) (group : ℕ)
    → ((j : ℕ) → j < 16 → is_avail t group j ≡ false)
    → has_empty t group ≡ false
full-no_empty t group full = elim (has_empty-cases t group) [
  | inl (e, _) ↦ e
  | inr (e, j, small, empty) ↦ absurd (ground (arith, empty, full j small))
]

-- Where a search ends without a hit, an insertion finds a slot on the way.
pub avail_loop_found :
    (fuel func arg tag : ℕ) (p : Probing) (t : Table)
    → find_loop fuel func arg tag p t ≡ some none
    → (g : ℕ) × (i : ℕ) × (avail_loop fuel p t ≡ some (g, i))
unfolding find_loop find_step avail_loop
avail_loop_found zero func arg tag p t h = cc
avail_loop_found (suc fuel) func arg tag p t h = elim (avail-cases t p.group) [
  | inr (ne, small, here) ↦ (
    p.group,
    ctz 32 (swiss_match_empty_or_deleted t p.group),
    rw (==_ne (swiss_match_empty_or_deleted t p.group) 0 ne) refl,
  )
  | inl (e, nowhere) ↦ elim (match_slot-cases func arg tag p.group t) [
    | inr (k, found, _, _) ↦ cc
    | inl (miss, _) ↦
        let go : (swiss_match_empty_or_deleted t p.group == 0) ≡ true = ground arith in
        let (g, i, rest) =
          avail_loop_found fuel func arg tag (swiss_probe_next p) t
            (rw (miss, full-no_empty t p.group nowhere) at h) in
        (g, i, rw go rest)
  ]
]

pub fill-empties :
    (slot func arg tag v group : ℕ) (t : Table)
    → tag < 128
    → has_empty t group ≡ false
    → has_empty (fill slot func arg tag v t) group ≡ false
unfolding fill
fill-empties slot func arg tag v group t small none_empty =
    elim (has_empty-cases (fill slot func arg tag v t) group) [
      | inl (e, _) ↦ e
      | inr (e, j, below, empty) ↦ elim (has_empty-cases t group) [
        | inl (_, nowhere) ↦ absurd (ground (arith, empty, nowhere j below))
        | inr (bad, _, _, _) ↦ cc
      ]
    ]

hit-fill_self :
    (func arg tag v g i : ℕ) (t : Table)
    → hit func arg tag (fill (g * 16 + i) func arg tag v t) g i ≡ true
unfolding fill
hit-fill_self func arg tag v g i t = ground arith

-- The other slots answer as before.
pub hit-fill_ne :
    (func arg tag func' arg' tag' v slot group j : ℕ) (t : Table)
    → group * 16 + j ≢ slot
    → hit func' arg' tag' (fill slot func arg tag v t) group j ≡ hit func' arg' tag' t group j
unfolding fill
hit-fill_ne func arg tag func' arg' tag' v slot group j t away =
    rw (==_ne (group * 16 + j) slot away) refl

-- After the insertion the same search finds the key in that slot.
pub find_loop-fill :
    (fuel func arg tag v g i : ℕ) (p : Probing) (t : Table)
    → tag < 128
    → find_loop fuel func arg tag p t ≡ some none
    → avail_loop fuel p t ≡ some (g, i)
    → find_loop fuel func arg tag p (fill (g * 16 + i) func arg tag v t) ≡ some (some (g, i))
unfolding find_loop find_step
find_loop-fill zero func arg tag v g i p t small h a = cc
find_loop-fill (suc fuel) func arg tag v g i p t small h a =
    let t' = fill (g * 16 + i) func arg tag v t in
    elim (match_slot-cases func arg tag p.group t) [
      | inr (k, found, _, _) ↦ cc
      | inl (miss, nowhere) ↦ elim (avail_loop_round fuel g i p t a) [
        | inl (eg, below, here) ↦
            let found : match_slot func arg tag t' p.group ≡ some i =
              match_slot_only func arg tag p.group i t' below
                (subst (λ k. hit func arg tag t' k i ≡ true) (sym eg)
                  (hit-fill_self func arg tag v g i t))
                (λ j inside away.
                  hit-fill_ne func arg tag func arg tag v (g * 16 + i) p.group j t
                    (omega (arith, eg))
                  ∙ nowhere j inside) in
            rw found (ap (λ (k : ℕ). some (some (k, i))) eg)
        | inr (full, rest) ↦
            let (below, here) = avail_loop-avail fuel g i (swiss_probe_next p) t rest in
            let same : match_slot func arg tag t' p.group ≡ match_slot func arg tag t p.group =
              match_slot-same func arg tag p.group t t' (λ j inside.
                hit-fill_ne func arg tag func arg tag v (g * 16 + i) p.group j t
                  (λ e. absurd (ground (arith, e, here, full j inside)))) in
            let go = full-no_empty t p.group full in
            rw (same, miss, fill-empties (g * 16 + i) func arg tag v p.group t small go)
              (find_loop-fill fuel func arg tag v g i (swiss_probe_next p) t small
                (rw (miss, go) at h) rest)
      ]
    ]

-- ===== src/Dedup/Group.antt =====
-- One group of the table of src/dedup.h: which slot answers to a key, and whether a slot is empty.
use ein8_proj.Base.{
  ℕ, ◌+◌, ◌*◌, ◌<◌, ◌≡◌, ◌≢◌, sym, ◌∙◌, arith, ◌==◌, leb, ◌&&◌, Bool, true, false, none, some, inl,
  inr, ◌⊎◌,
}
use ein8_proj.Base.Bits.{ctz}
use ein8_proj.Dedup.{
  Table, ctrl_empty, swiss_match, swiss_match_empty, swiss_match_empty_or_deleted, match_slot,
  has_empty,
}
use ein8_proj.Dedup.Mask.{
  search, scan-mask_from, mask_from-cases, search_cases, search_only, search_same,
}

-- Slot `i` of the group holds the key, under its tag.
abbrev pub hit : (func arg tag : ℕ) → Table → (group i : ℕ) → Bool
hit func arg tag t group i =
    (t.ctrl (group * 16 + i) == tag)
    && ((t.key_func (group * 16 + i) == func) && (t.key_arg (group * 16 + i) == arg))

abbrev pub is_empty : Table → (group i : ℕ) → Bool
is_empty t group i = t.ctrl (group * 16 + i) == ctrl_empty

abbrev pub is_avail : Table → (group i : ℕ) → Bool
is_avail t group i = leb 128 (t.ctrl (group * 16 + i))

pub match_slot-search :
    (func arg tag group : ℕ) (t : Table)
    → match_slot func arg tag t group ≡ search (hit func arg tag t group) 0 16
unfolding match_slot swiss_match
match_slot-search func arg tag group t =
    scan-mask_from (λ i. t.ctrl (group * 16 + i) == tag)
      (λ i. (t.key_func (group * 16 + i) == func) && (t.key_arg (group * 16 + i) == arg))

pub has_empty-cases :
    (t : Table) (group : ℕ)
    → ((has_empty t group ≡ false) × ((i : ℕ) → i < 16 → is_empty t group i ≡ false))
      ⊎ ((has_empty t group ≡ true) × (i : ℕ) × (i < 16) × (is_empty t group i ≡ true))
unfolding has_empty swiss_match_empty
has_empty-cases t group = elim (mask_from-cases (is_empty t group)) [
  | inl (e, nowhere) ↦ inl (ground arith, nowhere)
  | inr (ne, small, here) ↦ inr (ground arith, _, small, here)
]

pub avail-cases :
    (t : Table) (group : ℕ)
    → ((swiss_match_empty_or_deleted t group ≡ 0) × ((i : ℕ) → i < 16 → is_avail t group i ≡ false))
      ⊎ ((swiss_match_empty_or_deleted t group ≢ 0)
          × (ctz 32 (swiss_match_empty_or_deleted t group) < 16)
          × (is_avail t group (ctz 32 (swiss_match_empty_or_deleted t group)) ≡ true))
unfolding swiss_match_empty_or_deleted
avail-cases t group = mask_from-cases (is_avail t group)

-- The search in a group depends on the hits alone.
pub match_slot-same :
    (func arg tag group : ℕ) (t t' : Table)
    → ((i : ℕ) → i < 16 → hit func arg tag t' group i ≡ hit func arg tag t group i)
    → match_slot func arg tag t' group ≡ match_slot func arg tag t group
match_slot-same func arg tag group t t' same =
    match_slot-search func arg tag group t'
    ∙ search_same (hit func arg tag t' group) (hit func arg tag t group) 0 16
        (λ j below. same j (omega arith))
    ∙ sym (match_slot-search func arg tag group t)

pub match_slot-cases :
    (func arg tag group : ℕ) (t : Table)
    → ((match_slot func arg tag t group ≡ none)
        × ((i : ℕ) → i < 16 → hit func arg tag t group i ≡ false))
      ⊎ ((i : ℕ) × (match_slot func arg tag t group ≡ some i)
          × (i < 16)
          × (hit func arg tag t group i ≡ true))
match_slot-cases func arg tag group t =
    rw (match_slot-search func arg tag group t)
      (elim (search_cases (hit func arg tag t group) 0 16) [
        | inl (e, nowhere) ↦ inl (e, λ i small. nowhere i (omega arith) (omega arith))
        | inr (k, e, low, high, here, _) ↦ inr (k, e, omega arith, here)
      ])

pub match_slot_only :
    (func arg tag group i : ℕ) (t : Table)
    → i < 16
    → hit func arg tag t group i ≡ true
    → ((j : ℕ) → j < 16 → j ≢ i → hit func arg tag t group j ≡ false)
    → match_slot func arg tag t group ≡ some i
match_slot_only func arg tag group i t small here others =
    match_slot-search func arg tag group t
    ∙ search_only (hit func arg tag t group) 0 16 i (omega arith) (omega arith) here
        (λ j below away. others j (omega arith) away)

-- ===== src/Dedup/Probe.antt =====
-- The probe sequence of src/dedup.h visits every group, so that the searches end.
use ein8_proj.Base.{
  ℕ, zero, suc, ◌+◌, ◌-◌, ◌/◌, ◌^◌, ◌%◌, ◌<◌, ◌≡◌, ◌≢◌, refl, sym, ◌∙◌, ap, arith, ◌==◌, ==_eq,
  ◌||◌, Bool, true, false, Bool-cases, none, inl, inr, subst,
}
use ein8_proj.Base.Word.{u32}
use ein8_proj.Base.Bits.{every, every-at}
use ein8_proj.Dedup.{
  Table, Probing, swiss_group_index, swiss_probe_start, swiss_probe_next, has_empty, find_step,
  find_loop,
}
use ein8_proj.Dedup.Group.{match_slot-cases}

-- The probe after `n` steps.
unfoldable probe_after : (n : ℕ) → Probing → Probing
probe_after zero p = p
probe_after (suc n) p = probe_after n (swiss_probe_next p)

-- Whether a probe with this group and this stride comes to the target within the steps.
unfoldable comes_to : (steps group stride target : ℕ) → Bool
comes_to zero group stride target = false
comes_to (suc steps) group stride target =
    let rest = comes_to steps ((group + (stride + 1)) % 256) (stride + 1) target in
    (group == target) || rest

covers_table : every (λ target. comes_to 256 0 0 target) 256 ≡ true
unfolding every comes_to
covers_table = refl

probe_next :
    (group stride group' stride' : ℕ)
    → (group + u32 (stride + 1)) % 256 ≡ group'
    → u32 (stride + 1) ≡ stride'
    → swiss_probe_next (record { group = group; stride = stride })
      ≡ record { group = group'; stride = stride' }
unfolding swiss_probe_next
probe_next group stride group' stride' e1 e2 = cc

-- A sequence that starts elsewhere is the same one, shifted.
comes_to-probe :
    (steps group stride shift target : ℕ)
    → stride + steps < 4294967296
    → comes_to steps group stride target ≡ true
    → (n : ℕ) × (n < steps)
      × ((probe_after n (record { group = (group + shift) % 256; stride = stride })).group
          ≡ (target + shift) % 256)
unfolding comes_to probe_after swiss_probe_next
comes_to-probe zero group stride shift target small c = cc
comes_to-probe (suc steps) group stride shift target small c = elim (Bool-cases (group == target)) [
  | inl here ↦ (0, omega arith, ap (λ (x : ℕ). (x + shift) % 256) (==_eq group target here))
  | inr on ↦
      let (n, below, e) =
        comes_to-probe steps ((group + (stride + 1)) % 256) (stride + 1) shift target (omega arith)
          (rw on at c) in
      let next : ((group + shift) % 256 + u32 (stride + 1)) % 256
          ≡ ((group + (stride + 1)) % 256 + shift) % 256 =
        omega arith in
      let stride' : u32 (stride + 1) ≡ stride + 1 = omega arith in
      (
        suc n,
        omega arith,
        subst (λ q. (probe_after n q).group ≡ (target + shift) % 256)
            (sym (probe_next ((group + shift) % 256) stride _ _ next stride')) e,
      )
]

-- Every group is visited in the first 256 rounds.
probe_start_visits :
    (h target : ℕ)
    → target < 256
    → (n : ℕ) × (n < 256) × ((probe_after n (swiss_probe_start h)).group ≡ target)
unfolding swiss_probe_start swiss_group_index
probe_start_visits h target small =
    let shift = u32 (h / 2 ^ 50) in
    let goal = (target + (256 - shift % 256)) % 256 in
    let (n, below, e) =
      comes_to-probe 256 0 0 shift goal (omega arith)
        (every-at (λ x. comes_to 256 0 0 x) 256 goal (omega arith) covers_table) in
    let start : (0 + shift) % 256 ≡ shift % 256 = omega arith in
    (n, below, rw start at e ∙ omega arith)

none_after :
    {fuel : ℕ} (n : ℕ) (p : Probing) (t : Table)
    → has_empty t p.group ≡ false
    → ((m : ℕ) → m < fuel → has_empty t (probe_after m (swiss_probe_next p)).group ≡ false)
    → n < suc fuel
    → has_empty t (probe_after n p).group ≡ false
unfolding probe_after
none_after zero p t go rest below = go
none_after (suc n) p t go rest below = rest n (omega arith)

-- A search that uses up its fuel has seen no empty slot.
find_loop-none :
    (fuel func arg tag n : ℕ) (p : Probing) (t : Table)
    → find_loop fuel func arg tag p t ≡ none
    → n < fuel
    → has_empty t (probe_after n p).group ≡ false
unfolding find_loop find_step probe_after
find_loop-none zero func arg tag n p t h below = absurd (omega arith)
find_loop-none (suc fuel) func arg tag n p t h below =
    elim (match_slot-cases func arg tag p.group t) [
      | inr (k, found, _, _) ↦ cc
      | inl (miss, _) ↦ elim (Bool-cases (has_empty t p.group)) [
        | inl stop ↦ cc
        | inr go ↦
            none_after n p t go
              (λ m lt.
                find_loop-none fuel func arg tag m (swiss_probe_next p) t (rw (miss, go) at h) lt)
              below
      ]
    ]

-- With 256 rounds a search ends, if a slot of the table was never used.
pub find_loop_ends :
    (func arg tag h target : ℕ) (t : Table)
    → target < 256
    → has_empty t target ≡ true
    → find_loop 256 func arg tag (swiss_probe_start h) t ≢ none
find_loop_ends func arg tag h target t small empty out =
    let (n, below, e) = probe_start_visits h target small in
    let no_empty = find_loop-none 256 func arg tag n (swiss_probe_start h) t out below in
    absurd (cc)

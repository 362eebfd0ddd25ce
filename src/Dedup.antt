-- ===== src/Dedup.antt =====
-- src/dedup.h: the open-addressing table of the FP build, from a function and its argument to the
-- thread that runs it. 256 groups of 16 slots, each slot with a control byte.
pub mod Digits
pub mod Mask
pub mod Group
pub mod Probe
pub mod Find
pub mod Laws
pub mod Erase
pub mod Ends
use ein8_proj.Base.{
  ℕ, zero, suc, ◌+◌, ◌-◌, ◌*◌, ◌/◌, ◌%◌, ◌^◌, bit_and, bit_or, bit_xor, ◌==◌, leb, if◌then◌else◌,
  not, ◌&&◌, Bool, Option, none, some,
}
use ein8_proj.Base.Bits.{ctz}
use ein8_proj.Base.Word.{u32, u64}

-- The arrays of the table. A control byte is the bit pattern of an `int8_t`: the negative ones are
-- those from 128 on.
pub record Table : Type 0 where
  pub ctrl : ℕ → ℕ
  pub key_func : ℕ → ℕ
  pub key_arg : ℕ → ℕ
  pub val : ℕ → ℕ

abbrev pub ctrl_empty : ℕ
ctrl_empty = 128

abbrev pub ctrl_deleted : ℕ
ctrl_deleted = 254

abbrev pub swiss_groups : ℕ
swiss_groups = 256

unfoldable pub dedup_hash_full : (func arg : ℕ) → ℕ
dedup_hash_full func arg =
    bit_xor (u64 (func * 11400714819323198485)) (u64 (arg * 7046029254386353131))

unfoldable pub swiss_group_index : ℕ → ℕ
swiss_group_index h = u32 (h / 2 ^ 50) % swiss_groups

unfoldable pub swiss_tag : ℕ → ℕ
swiss_tag h = h / 2 ^ 43 % 128

-- `for (i = 0; i < 16; i++) if (test) mask |= 1u << i`, from `i` on
unfoldable pub mask_from : (test : ℕ → Bool) → (rounds i mask : ℕ) → ℕ
mask_from test zero i mask = mask
mask_from test (suc rounds) i mask =
    mask_from test rounds (i + 1) (if test i then bit_or mask (2 ^ i) else mask)

unfoldable pub swiss_match : (t : Table) → (group tag : ℕ) → ℕ
swiss_match t group tag = mask_from (λ i. t.ctrl (group * 16 + i) == tag) 16 0 0

unfoldable pub swiss_match_empty : (t : Table) → (group : ℕ) → ℕ
swiss_match_empty t group = mask_from (λ i. t.ctrl (group * 16 + i) == ctrl_empty) 16 0 0

unfoldable pub swiss_match_empty_or_deleted : (t : Table) → (group : ℕ) → ℕ
swiss_match_empty_or_deleted t group = mask_from (λ i. leb 128 (t.ctrl (group * 16 + i))) 16 0 0

pub record Probing : Type 0 where
  pub group : ℕ
  pub stride : ℕ

unfoldable pub swiss_probe_start : ℕ → Probing
swiss_probe_start h = record { group = swiss_group_index h; stride = 0 }

-- The mask keeps the last 8 bits of the sum, which its wrap-around on 32 bits leaves alone.
unfoldable pub swiss_probe_next : Probing → Probing
swiss_probe_next p = record {
  group = (p.group + u32 (p.stride + 1)) % swiss_groups;
  stride = u32 (p.stride + 1);
}

-- `while (match)`: the lowest bit that passes the test; at most 16 rounds.
unfoldable pub scan : (fuel : ℕ) → (ℕ → Bool) → (mask : ℕ) → Option ℕ
scan zero test mask = none
scan (suc fuel) test mask =
    let i = ctz 32 mask in
    let rest = scan fuel test (bit_and mask (mask - 1)) in
    if mask == 0 then none else if test i then some i else rest

-- The slot of the key in a group.
unfoldable pub match_slot : (func arg tag : ℕ) → Table → (group : ℕ) → Option ℕ
match_slot func arg tag t group =
    scan 16 (λ i. (t.key_func (group * 16 + i) == func) && (t.key_arg (group * 16 + i) == arg))
      (swiss_match t group tag)

-- Whether the group has a slot that was never used.
unfoldable pub has_empty : Table → (group : ℕ) → Bool
has_empty t group = not (swiss_match_empty t group == 0)

-- One round of the loop below, given what `match_slot` found and the result of the next rounds.
unfoldable pub find_step :
    Table → (group : ℕ) → Option ℕ → Option (Option (ℕ × ℕ)) → Option (Option (ℕ × ℕ))
find_step t group (some i) rest = some (some (group, i))
find_step t group none rest = if has_empty t group then some none else rest

-- The loop that `dedup_lookup` and `dedup_remove` share: the group and the index in it where the key
-- stands, or that it stands nowhere; `none` when the fuel is used up.
unfoldable pub find_loop : (fuel func arg tag : ℕ) → Probing → Table → Option (Option (ℕ × ℕ))
find_loop zero func arg tag p t = none
find_loop (suc fuel) func arg tag p t =
    find_step t p.group (match_slot func arg tag t p.group)
      (find_loop fuel func arg tag (swiss_probe_next p) t)

-- The loop of `dedup_insert`: the first slot that is empty or deleted.
unfoldable pub avail_loop : (fuel : ℕ) → Probing → Table → Option (ℕ × ℕ)
avail_loop zero p t = none
avail_loop (suc fuel) p t =
    let avail = swiss_match_empty_or_deleted t p.group in
    let rest = avail_loop fuel (swiss_probe_next p) t in
    if not (avail == 0) then some (p.group, ctz 32 avail) else rest

abbrev pub write_slot : (ℕ → ℕ) → (slot v : ℕ) → ℕ → ℕ
write_slot f slot v a = if a == slot then v else f a

unfoldable pub fill : (slot func arg tag v : ℕ) → Table → Table
fill slot func arg tag v t = record {
  ctrl = write_slot t.ctrl slot tag;
  key_func = write_slot t.key_func slot func;
  key_arg = write_slot t.key_arg slot arg;
  val = write_slot t.val slot v;
}

unfoldable pub erase : (group i : ℕ) → Table → Table
erase group i t = record t {
  ctrl =
      write_slot t.ctrl (group * 16 + i) (if has_empty t group then ctrl_empty else ctrl_deleted);
  val = write_slot t.val (group * 16 + i) 0;
}

unfoldable pub lookup_at : Table → Option (Option (ℕ × ℕ)) → Option ℕ
lookup_at t none = none
lookup_at t (some none) = some 0
lookup_at t (some (some (group, i))) = some (t.val (group * 16 + i))

-- 0 is NULL; `none` when the fuel is used up.
unfoldable pub dedup_lookup : (fuel func arg : ℕ) → Table → Option ℕ
dedup_lookup fuel func arg t =
    let h = dedup_hash_full func arg in
    lookup_at t (find_loop fuel func arg (swiss_tag h) (swiss_probe_start h) t)

unfoldable pub insert_at : (func arg tag v : ℕ) → Table → Option (ℕ × ℕ) → Option Table
insert_at func arg tag v t none = none
insert_at func arg tag v t (some (group, i)) = some (fill (group * 16 + i) func arg tag v t)

unfoldable pub dedup_insert : (fuel func arg v : ℕ) → Table → Option Table
dedup_insert fuel func arg v t =
    let h = dedup_hash_full func arg in
    insert_at func arg (swiss_tag h) v t (avail_loop fuel (swiss_probe_start h) t)

unfoldable pub remove_at : Table → Option (Option (ℕ × ℕ)) → Option Table
remove_at t none = none
remove_at t (some none) = some t
remove_at t (some (some (group, i))) = some (erase group i t)

unfoldable pub dedup_remove : (fuel func arg : ℕ) → Table → Option Table
dedup_remove fuel func arg t =
    let h = dedup_hash_full func arg in
    remove_at t (find_loop fuel func arg (swiss_tag h) (swiss_probe_start h) t)

-- `dedup_mem_init`, on memory that `mmap` gave
unfoldable pub dedup_clear : Table → Table
dedup_clear t = record t { ctrl = λ a. ctrl_empty }

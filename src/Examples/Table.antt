-- ===== src/Examples/Table.antt =====
-- The table of the FP build, on concrete contents.
use ein8_proj.Base.{
  ℕ, ◌+◌, ◌*◌, ◌≡◌, refl, none, some, true, false, arith, ◌==◌, if◌then◌else◌, ℕ_discrete, ◌&&◌,
  ==_ne,
}
use ein8_proj.Base.Bits.{ctz}
use ein8_proj.Dedup.{
  Table, avail_loop, dedup_hash_full, dedup_insert, dedup_lookup, dedup_remove, erase, fill,
  find_loop, find_step, has_empty, insert_at, lookup_at, mask_from, match_slot, remove_at, scan,
  swiss_group_index, swiss_match, swiss_match_empty, swiss_match_empty_or_deleted,
  swiss_probe_start, swiss_tag,
}
use ein8_proj.Dedup.Ends.{dedup_lookup-dedup_insert, dedup_lookup_endless}
use ein8_proj.Dedup.Erase.{IsSingle, dedup_lookup-dedup_remove}
use ein8_proj.Dedup.Group.{hit}
use ein8_proj.Dedup.Laws.{place_of, tag_of}

-- Two keys, 11 with 12 and 21 with 22, in a table with 4094 slots never used.
abbrev two_keys : Table
two_keys = record {
  ctrl = λ a. if a == 1040 then 14 else if a == 1744 then 110 else 128;
  key_func = λ a. if a == 1040 then 11 else 21;
  key_arg = λ a. if a == 1040 then 12 else 22;
  val = λ a. if a == 1040 then 7 else 8;
}

abbrev no_keys : Table
no_keys = record { ctrl = λ a. 128; key_func = λ a. 0; key_arg = λ a. 0; val = λ a. 0 }

-- Every slot was used and deleted.
abbrev tombstones : Table
tombstones = record no_keys { ctrl = λ a. 254 }

there : place_of 1 11 12 two_keys ≡ some (some (65, 0))
unfolding dedup_hash_full swiss_group_index swiss_tag mask_from swiss_match swiss_match_empty
    has_empty match_slot scan find_step find_loop swiss_probe_start ctz
there = refl

there_other : place_of 1 21 22 two_keys ≡ some (some (109, 0))
unfolding dedup_hash_full swiss_group_index swiss_tag mask_from swiss_match swiss_match_empty
    has_empty match_slot scan find_step find_loop swiss_probe_start ctz
there_other = refl

found : dedup_lookup 1 11 12 two_keys ≡ some 7
unfolding dedup_lookup lookup_at
found = rw there refl

tag_value : tag_of 11 12 ≡ 14
unfolding dedup_hash_full swiss_tag
tag_value = refl

two_keys-IsSingle : IsSingle 11 12 two_keys
two_keys-IsSingle g i g' i' small small' here here' =
    let at_slot : (a : ℕ)
        → (two_keys.ctrl a == tag_of 11 12)
            && ((two_keys.key_func a == 11) && (two_keys.key_arg a == 12))
          ≡ true
        → a ≡ 1040 =
      λ a e. elim (ℕ_discrete a 1040) [
        | yes same ↦ same
        | no away ↦ absurd (ground (arith, rw (==_ne a 1040 away) at e))
      ] in
    let e = at_slot (g * 16 + i) here in
    let e' = at_slot (g' * 16 + i') here' in (omega arith, omega arith)

room : has_empty two_keys 0 ≡ true
unfolding has_empty swiss_match_empty mask_from
room = refl

deleted : (group : ℕ) → has_empty tombstones group ≡ false
unfolding has_empty swiss_match_empty mask_from
deleted group = refl

inserted : dedup_insert 1 31 32 9 two_keys ≡ some (fill 1680 31 32 110 9 two_keys)
unfolding dedup_insert insert_at avail_loop swiss_match_empty_or_deleted dedup_hash_full
    swiss_group_index swiss_tag mask_from swiss_probe_start ctz
inserted = refl

removed : dedup_remove 1 21 22 two_keys ≡ some (erase 109 0 two_keys)
unfolding dedup_remove remove_at
removed = rw there_other refl

no_third : (g i : ℕ) → hit 31 32 (tag_of 31 32) two_keys g i ≡ false
no_third g i = ground arith

untagged : (g i : ℕ) → hit 11 12 (tag_of 11 12) tombstones g i ≡ false
untagged g i = rw tag_value refl

dedup_lookup-dedup_insert_example :
    (t' : Table) × (dedup_insert 256 31 32 9 two_keys ≡ some t')
    × (dedup_lookup 256 31 32 t' ≡ some 9)
dedup_lookup-dedup_insert_example =
    dedup_lookup-dedup_insert 31 32 9 0 two_keys (omega arith) room (λ g i small. no_third g i)

dedup_lookup-dedup_remove_example :
    (t' : Table) × (dedup_remove 256 11 12 two_keys ≡ some t')
    × (dedup_lookup 256 11 12 t' ≡ some 0)
dedup_lookup-dedup_remove_example =
    dedup_lookup-dedup_remove 11 12 0 two_keys (two_keys-IsSingle) (omega arith) room

dedup_lookup_endless_example : dedup_lookup 5 11 12 tombstones ≡ none
dedup_lookup_endless_example =
    dedup_lookup_endless 5 11 12 tombstones deleted (λ g i small. untagged g i)

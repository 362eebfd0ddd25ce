-- ===== src/Sched/Pick.antt =====
-- `sched_pick_highest` of src/scheduler.h (build with -DUSE_PRIORITY).
use ein8_proj.Base.{
  ℕ, zero, suc, ◌<◌, ◌≤◌, ◌≡◌, refl, inl, inr, List, [], ◌∷◌, ◌++◌, false, arith, has-append, ◌∈◌,
  ◌∉◌, length, append_assoc, append-nil, Bool-cases, ltb, ◌==◌, ==_self, if◌then◌else◌,
}
use ein8_proj.Sched.{Slab, pick_loop, sched_pick_highest}
use ein8_proj.Sched.Ring.{Chain, Ring}

-- `m` has the highest priority in the list, and is the first that has it.
pub record IsFirstHighest (h : Slab) (xs : List ℕ) (m : ℕ) : Type 0 where
  pub before : List ℕ
  pub after : List ℕ
  pub place : xs ≡ before ++ m ∷ after
  pub lower : (a : ℕ) → a ∈ before → (h a).priority < (h m).priority
  pub no_higher : (a : ℕ) → a ∈ after → (h a).priority ≤ (h m).priority

IsFirstHighest-snoc :
    (h : Slab) (xs : List ℕ) (m t : ℕ)
    → IsFirstHighest h xs m
    → IsFirstHighest h (xs ++ t ∷ []) (if ltb (h m).priority (h t).priority then t else m)
IsFirstHighest-snoc h xs m t f = elim (Bool-cases (ltb (h m).priority (h t).priority)) [
  | inl up ↦ rw up (record {
    before = xs;
    after = [];
    place = refl;
    lower = λ a i.
        ground (
          arith,
          up,
          f.lower a,
          f.no_higher a,
          rw f.place at i,
          has-append a f.before (m ∷ f.after),
        );
    no_higher = λ a i. cc;
  })
  | inr down ↦ rw down (record {
    before = f.before;
    after = f.after ++ t ∷ [];
    place = rw f.place (append_assoc f.before (m ∷ f.after) (t ∷ []));
    lower = f.lower;
    no_higher = λ a i. ground (arith, down, f.no_higher a, has-append a f.after (t ∷ []));
  })
]

pick_loop-IsFirstHighest :
    (fuel : ℕ) (h : Slab) (c p best : ℕ) (seen ts : List ℕ)
    → Chain h p ts c
    → c ∉ ts
    → length ts < fuel
    → IsFirstHighest h seen best
    → IsFirstHighest h (seen ++ ts) (pick_loop fuel c best (h p).sched_next h)
unfolding pick_loop
pick_loop-IsFirstHighest zero h c p best seen ts links out fuel f = absurd (omega arith)
pick_loop-IsFirstHighest (suc k) h c p best seen [] links out fuel f =
    rw (append-nil, links.0, ==_self c) f
pick_loop-IsFirstHighest (suc k) h c p best seen (t ∷ ts) (n, b, links) out fuel f =
    let away : (t == c) ≡ false = ground arith in
    rw (n, away, ← append_assoc seen (t ∷ []) ts)
      (pick_loop-IsFirstHighest k h c t (if ltb (h best).priority (h t).priority then t else best)
        (seen ++ t ∷ []) ts links (ground arith) (omega arith)
        (IsFirstHighest-snoc h seen best t f))

-- With enough fuel to look at every thread once, `sched_pick_highest` returns, of the threads other
-- than the running one, the first of the highest priority.
pub sched_pick_highest-IsFirstHighest :
    (fuel : ℕ) (h : Slab) (c x : ℕ) (xs : List ℕ)
    → Ring h c (x ∷ xs)
    → length xs < fuel
    → IsFirstHighest h (x ∷ xs) (sched_pick_highest fuel c h)
unfolding sched_pick_highest
sched_pick_highest-IsFirstHighest fuel h c x xs r enough = rw r.links.0 (
    pick_loop-IsFirstHighest fuel h c x x (x ∷ []) xs r.links.2 (ground (arith, r.distinct)) enough
      (record { before = []; after = []; place = refl; lower = λ a i. cc; no_higher = λ a i. cc }))

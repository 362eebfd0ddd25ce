-- ===== src/Early/Walk.antt =====
-- The walk of the deadlock test in `thread_join` of the first version of the library, under
-- options/src.
use ein8_proj.Base.{
  ℕ, zero, suc, ◌<◌, ◌≡◌, ◌≢◌, refl, arith, ==_self, ==_ne, Bool, true, false, some, inl, inr, ◌⊎◌,
}
use ein8_proj.Early.{Thread, Process}
use ein8_proj.Early.Queue.{TailQueue}
use ein8_proj.Early.Calls.{meets}

abbrev pub Stops : (c p : ℕ) → (met : Bool) → Type 0
Stops c p met = ((p ≡ 0) × (met ≡ false)) ⊎ ((p ≢ 0) × (p ≡ c) × (met ≡ true))

-- The walk of the deadlock test from `p`, in at most `n` steps: whether it meets the thread `c`.
abbrev pub Walk : (ℕ → Thread) → (c n p : ℕ) → (met : Bool) → Type 0
Walk h c zero p met = Stops c p met
Walk h c (suc n) p met = Stops c p met ⊎ ((p ≢ 0) × (p ≢ c) × Walk h c n (h p).joining met)

pub Walk-apart : (h : ℕ → Thread) (c n t : ℕ) → t ≢ 0 → Walk h c n t false → t ≢ c
Walk-apart h c zero t ne (inl (z, _)) e = ne z
Walk-apart h c zero t ne (inr (_, _, bad)) e = cc
Walk-apart h c (suc n) t ne (inl (inl (z, _))) e = ne z
Walk-apart h c (suc n) t ne (inl (inr (_, _, bad))) e = cc
Walk-apart h c (suc n) t ne (inr (_, away, _)) e = away e

module _ (Q : TailQueue) where
  open Q use {Queue}

  pub meets-Walk :
      (n fuel p : ℕ) (s : Process Queue) (met : Bool)
      → Walk s.heap s.current n p met
      → n < fuel
      → meets Q fuel p s ≡ some met
  unfolding meets
  meets-Walk n zero p s met w low = absurd (omega (arith, low))
  meets-Walk zero (suc fuel) p s met (inl (e, missed)) low = rw (e, missed) refl
  meets-Walk zero (suc fuel) p s met (inr (ne, e, here)) low =
      rw (==_ne p 0 ne, e, ==_self s.current, here) refl
  meets-Walk (suc n) (suc fuel) p s met (inl (inl (e, missed))) low = rw (e, missed) refl
  meets-Walk (suc n) (suc fuel) p s met (inl (inr (ne, e, here))) low =
      rw (==_ne p 0 ne, e, ==_self s.current, here) refl
  meets-Walk (suc n) (suc fuel) p s met (inr (ne, away, w)) low =
      rw (==_ne p 0 ne, ==_ne p s.current away)
        (meets-Walk n fuel (s.heap p).joining s met w (omega (arith, low)))

-- ===== src/UnionFind/Union.antt =====
-- `uf_union` of src/thread.c joins two classes, or says that there is only one.
use ein8_proj.Base.{
  ℕ, zero, suc, ◌<◌, ◌≡◌, ◌≢◌, refl, sym, subst, ◌∙◌, ◌⊎◌, inl, inr, arith, ℕ_discrete, ◌==◌,
  ==_self, ==_ne, if◌then◌else◌, Bool-cases, ltb, false, ap, true,
}
use ein8_proj.Base.Int.{ℤ, pos, negsuc}
use ein8_proj.UnionFind.{Cells, uf_find, uf_order, uf_link, uf_join, uf_union, set_parent}
use ein8_proj.UnionFind.Rep.{Rep, Rep-root, Rep-is_root, Rep-self, Keeps, Keeps-trans, uf_find-Rep}

uf_link-parent :
    (upper lower : ℕ) (c : Cells) (x : ℕ)
    → (uf_link upper lower c x).parent ≡ (if x == lower then upper else (c x).parent)
unfolding uf_link
uf_link-parent upper lower c x = ground arith

module _ (c : Cells) (upper lower : ℕ) (ne : upper ≢ lower) (up : (c upper).parent ≡ upper)
    (low : (c lower).parent ≡ lower) where
  abbrev linked : Cells
  linked = uf_link upper lower c

  -- The class of a root, after the link.
  abbrev joined : ℕ → ℕ
  joined r = if r == lower then upper else r

  Rep-link_root : (n r : ℕ) → (c r).parent ≡ r → Rep linked (suc n) r (joined r)
  Rep-link_root n r e = elim (ℕ_discrete r lower) [
    | yes here ↦
        rw (here, ==_self lower)
          (inr (
            rw (uf_link-parent upper lower c lower, ==_self lower)
              (Rep-self linked n upper (ground (arith, uf_link-parent upper lower c upper)))))
    | no away ↦ rw (==_ne r lower away) (inl (refl, ground (arith, uf_link-parent upper lower c r)))
  ]

  -- The root `lower` goes below the root `upper`: its class joins the other, one step further down.
  pub Rep-link : (n x r : ℕ) → Rep c n x r → Rep linked (suc n) x (joined r)
  Rep-link zero x r d = subst (λ y. Rep linked 1 y (joined r)) (sym d.0) (Rep-link_root 0 r d.1)
  Rep-link (suc n) x r (inl d) =
      subst (λ y. Rep linked (suc (suc n)) y (joined r)) (sym d.0) (Rep-link_root (suc n) r d.1)
  Rep-link (suc n) x r (inr d) = elim (ℕ_discrete x lower) [
    | yes here ↦
        let top : (c x).parent ≡ x = ground arith in
        let e : r ≡ x = Rep-root c n x r top (subst (λ y. Rep c n y r) top d) in
        subst (λ y. Rep linked (suc (suc n)) y (joined r)) e
          (Rep-link_root (suc n) r (Rep-is_root c n (c x).parent r d))
    | no away ↦
        inr (rw (uf_link-parent upper lower c x, ==_ne x lower away) (Rep-link n (c x).parent r d))
  ]

-- `uf_order` makes the root of the higher rank the upper one, in at most one swap.
uf_order-cases :
    (a b : ℕ) (c : Cells)
    → ((uf_order 2 a b c ≡ (a, b)) ⊎ (uf_order 2 a b c ≡ (b, a)))
      × (ltb (c (uf_order 2 a b c).0).rank (c (uf_order 2 a b c).1).rank ≡ false)
unfolding uf_order
uf_order-cases a b c = elim (Bool-cases (ltb (c a).rank (c b).rank)) [
  | inl up ↦ (inr (ground arith), ground arith)
  | inr down ↦ (inl (ground arith), ground arith)
]

-- Two different classes become one, whose root is one of the two roots; the others stay, and of
-- the descriptors only parents and ranks change.
pub record Joined (c : Cells) (ra rb : ℕ) (c' : Cells) : Type 0 where
  pub upper : ℕ
  pub lower : ℕ
  pub which : ((upper ≡ ra) × (lower ≡ rb)) ⊎ ((upper ≡ rb) × (lower ≡ ra))
  pub reps : (n x r : ℕ) → Rep c n x r → Rep c' (suc n) x (if r == lower then upper else r)
  pub fields : (x : ℕ) → c' x ≡ record (c x) { parent = (c' x).parent; rank = (c' x).rank }

-- What `uf_union` answers on two descriptors with the roots `ra` and `rb`.
abbrev pub UnionResult : Cells → ℕ → ℕ → ℤ × Cells → Type 0
UnionResult c ra rb (code, c') =
    ((ra ≡ rb) × (code ≡ negsuc 0) × Keeps c c') ⊎ ((ra ≢ rb) × (code ≡ pos 0) × Joined c ra rb c')

uf_link-fields :
    (upper lower : ℕ) (c : Cells) (x : ℕ)
    → uf_link upper lower c x ≡ record (c x) {
      parent = (uf_link upper lower c x).parent;
      rank = (uf_link upper lower c x).rank;
    }
unfolding uf_link
uf_link-fields upper lower c x = ground arith

uf_link-Joined :
    (c c2 : Cells) (ra rb upper lower : ℕ)
    → ((upper ≡ ra) × (lower ≡ rb)) ⊎ ((upper ≡ rb) × (lower ≡ ra))
    → ra ≢ rb
    → (c2 ra).parent ≡ ra
    → (c2 rb).parent ≡ rb
    → Keeps c c2
    → Joined c ra rb (uf_link upper lower c2)
uf_link-Joined c c2 ra rb upper lower which ne pa pb keeps = record {
  upper = upper;
  lower = lower;
  which = which;
  reps = λ n x r d.
      Rep-link c2 upper lower (ground arith) (ground arith) (ground arith) n x r
        (keeps.reps n x r d);
  fields = λ x. uf_link-fields upper lower c2 x ∙ ground (arith, keeps.fields x);
}

uf_join-UnionResult :
    (c c2 : Cells) (ra rb : ℕ)
    → Keeps c c2
    → (c2 ra).parent ≡ ra
    → (c2 rb).parent ≡ rb
    → UnionResult c ra rb (uf_join ra rb c2)
unfolding uf_join
uf_join-UnionResult c c2 ra rb keeps pa pb = elim (ℕ_discrete ra rb) [
  | yes one ↦ rw one (rw (==_self rb) (inl (refl, refl, keeps)))
  | no two ↦ rw (==_ne ra rb two) (
      inr (
        two,
        refl,
        elim (uf_order-cases ra rb c2).0 [
          | inl e ↦ rw e (uf_link-Joined c c2 ra rb ra rb (inl (refl, refl)) two pa pb keeps)
          | inr e ↦ rw e (uf_link-Joined c c2 ra rb rb ra (inr (refl, refl)) two pa pb keeps)
        ],
      ))
]

-- `uf_union` on two descriptors that have roots, with more fuel than either way up is long: in one
-- class already it returns -1 and every descriptor keeps its root; else it returns 0 and joins the two
-- classes, and every other class keeps its root. Nothing but parents and ranks changes.
pub uf_union-UnionResult :
    (fuel n m a b ra rb : ℕ) (c : Cells)
    → Rep c n a ra
    → Rep c m b rb
    → n < fuel
    → m < fuel
    → UnionResult c ra rb (uf_union fuel a b c)
unfolding uf_union
uf_union-UnionResult fuel n m a b ra rb c da db ha hb =
    let (fa, ka) = uf_find-Rep fuel n a ra c da ha in
    let c1 = (uf_find fuel a c).1 in
    let (fb, kb) = uf_find-Rep fuel m b rb c1 (ka.reps m b rb db) hb in
    let c2 = (uf_find fuel b c1).1 in
    let keeps = Keeps-trans c c1 c2 ka kb in
    let pa = Rep-is_root c2 n a ra (keeps.reps n a ra da) in
    let pb = Rep-is_root c2 m b rb (keeps.reps m b rb db) in
    rw (fa, fb) (uf_join-UnionResult c c2 ra rb keeps pa pb)

uf_find_root : (fuel a : ℕ) (c : Cells) → (c a).parent ≡ a → uf_find fuel a c ≡ (a, c)
unfolding uf_find
uf_find_root zero a c e = refl
uf_find_root (suc fuel) a c e = rw (e, e, ==_self a) refl

-- Of two roots the one of lower rank goes below the other.
pub uf_union_below :
    (fuel a b : ℕ) (c : Cells)
    → (c a).parent ≡ a
    → (c b).parent ≡ b
    → (c a).rank < (c b).rank
    → uf_union fuel a b c ≡ (pos 0, set_parent a b c)
unfolding uf_union uf_join uf_order uf_link
uf_union_below fuel a b c ea eb less =
    let ne : a ≢ b = λ e. absurd (omega (arith, ap (λ x. (c x).rank) e, less)) in
    let up : ltb (c a).rank (c b).rank ≡ true = ground (arith, less) in
    let down : ltb (c b).rank (c a).rank ≡ false = ground (arith, less) in
    let apart : (b == a) ≡ false = ==_ne b a (λ e. ne (sym e)) in
    let steps : ((set_parent a b c b).rank == (set_parent a b c a).rank) ≡ false =
      rw (apart, ==_self a) (ground (arith, less)) in
    rw (uf_find_root fuel a c ea, uf_find_root fuel b c eb, up, down, ==_ne a b ne, steps) refl

-- ===== src/UnionFind/Rep.antt =====
-- Which root a descriptor belongs to, and `uf_find` of src/thread.c.
use ein8_proj.Base.{
  ℕ, zero, suc, ◌<◌, ◌≡◌, ◌≢◌, refl, sym, subst, ◌⊎◌, inl, inr, arith, ℕ_discrete, ◌==◌, ==_self,
  ==_ne, ==_eq, Bool-cases,
}
use ein8_proj.UnionFind.{Cells, set_parent, uf_find}

-- Following at most `n` parents leads from `a` to the root `r`.
abbrev pub Rep : Cells → ℕ → ℕ → ℕ → Type 0
Rep c zero a r = (a ≡ r) × ((c r).parent ≡ r)
Rep c (suc n) a r = ((a ≡ r) × ((c r).parent ≡ r)) ⊎ Rep c n (c a).parent r

pub Rep-suc : (c : Cells) (n a r : ℕ) → Rep c n a r → Rep c (suc n) a r
Rep-suc c zero a r d = inl d
Rep-suc c (suc n) a r (inl d) = inl d
Rep-suc c (suc n) a r (inr d) = inr (Rep-suc c n (c a).parent r d)

pub Rep-root : (c : Cells) (n a r : ℕ) → (c a).parent ≡ a → Rep c n a r → r ≡ a
Rep-root c zero a r e d = sym d.0
Rep-root c (suc n) a r e (inl d) = sym d.0
Rep-root c (suc n) a r e (inr d) = Rep-root c n a r e (subst (λ x. Rep c n x r) e d)

pub Rep-is_root : (c : Cells) (n a r : ℕ) → Rep c n a r → (c r).parent ≡ r
Rep-is_root c zero a r d = d.1
Rep-is_root c (suc n) a r (inl d) = d.1
Rep-is_root c (suc n) a r (inr d) = Rep-is_root c n (c a).parent r d

-- A root itself.
pub Rep-self : (c : Cells) (n r : ℕ) → (c r).parent ≡ r → Rep c n r r
Rep-self c zero r e = (refl, e)
Rep-self c (suc n) r e = inl (refl, e)

pub Rep-unique : (c : Cells) (n m a r s : ℕ) → Rep c n a r → Rep c m a s → r ≡ s
Rep-unique c zero m a r s d e = sym (Rep-root c m r s d.1 (subst (λ x. Rep c m x s) d.0 e))
Rep-unique c (suc n) m a r s (inl d) e = sym (Rep-root c m r s d.1 (subst (λ x. Rep c m x s) d.0 e))
Rep-unique c (suc n) zero a r s (inr d) e =
    Rep-root c (suc n) s r e.1 (subst (λ x. Rep c (suc n) x r) e.0 (inr d))
Rep-unique c (suc n) (suc m) a r s (inr d) (inl e) =
    Rep-root c (suc n) s r e.1 (subst (λ x. Rep c (suc n) x r) e.0 (inr d))
Rep-unique c (suc n) (suc m) a r s (inr d) (inr e) = Rep-unique c n m (c a).parent r s d e

-- Two parents up, where the first is another descriptor.
Rep-up :
    (c : Cells) (n a r : ℕ)
    → (c a).parent ≢ a
    → Rep c (suc n) a r
    → Rep c n (c (c a).parent).parent r
Rep-up c n a r ne (inl d) = absurd (ground arith)
Rep-up c zero a r ne (inr d) = (rw (d.0) d.1, d.1)
Rep-up c (suc n) a r ne (inr (inl d)) = inl (rw (d.0) d.1, d.1)
Rep-up c (suc n) a r ne (inr (inr d)) = Rep-suc c n (c (c a).parent).parent r d

-- One descriptor is moved up to the parent of its parent.
abbrev pub halved : ℕ → Cells → Cells
halved t c = set_parent t (c (c t).parent).parent c

Rep-halved :
    (c : Cells) (t : ℕ) → (c t).parent ≢ t → (n x r : ℕ) → Rep c n x r → Rep (halved t c) n x r
Rep-halved c t ne zero x r d = (d.0, ground arith)
Rep-halved c t ne (suc n) x r (inl d) = inl (d.0, ground arith)
Rep-halved c t ne (suc n) x r (inr d) = elim (ℕ_discrete x t) [
  | no away ↦ inr (rw (==_ne x t away) (Rep-halved c t ne n (c x).parent r d))
  | yes here ↦ inr (
      subst (λ y. Rep (halved t c) n (halved t c y).parent r) (sym here)
        (rw (==_self t) (
          Rep-halved c t ne n (c (c t).parent).parent r
            (Rep-up c n t r ne (inr (subst (λ y. Rep c n (c y).parent r) here d))))))
]

-- Every descriptor keeps its root, and every field but `parent`.
pub record Keeps (c c' : Cells) : Type 0 where
  pub reps : (n x r : ℕ) → Rep c n x r → Rep c' n x r
  pub fields : (x : ℕ) → c' x ≡ record (c x) { parent = (c' x).parent }

Keeps-refl : (c : Cells) → Keeps c c
Keeps-refl c = record { reps = λ n x r d. d; fields = λ x. refl }

pub Keeps-trans : (c d e : Cells) → Keeps c d → Keeps d e → Keeps c e
Keeps-trans c d e k l = record {
  reps = λ n x r p. l.reps n x r (k.reps n x r p);
  fields = λ x. ground (arith, k.fields x, l.fields x);
}

Keeps-halved : (c : Cells) (t : ℕ) → (c t).parent ≢ t → Keeps c (halved t c)
Keeps-halved c t ne = record { reps = Rep-halved c t ne; fields = λ x. ground arith }

step_up :
    (c : Cells) (n t r : ℕ)
    → (c t).parent ≢ t
    → Rep c n t r
    → (m : ℕ) × (n ≡ suc m) × Rep (halved t c) m (c (c t).parent).parent r
step_up c zero t r ne d = absurd (ground arith)
step_up c (suc m) t r ne d =
    (m, refl, Rep-halved c t ne m (c (c t).parent).parent r (Rep-up c m t r ne d))

-- With more fuel than the way up is long, `uf_find` returns the root of `t`, and the way up that it
-- shortens leads every descriptor to the same root as before.
pub uf_find-Rep :
    (fuel n t r : ℕ) (c : Cells)
    → Rep c n t r
    → n < fuel
    → ((uf_find fuel t c).0 ≡ r) × Keeps c (uf_find fuel t c).1
unfolding uf_find
uf_find-Rep zero n t r c d enough = absurd (omega arith)
uf_find-Rep (suc fuel) n t r c d enough = elim (Bool-cases ((c t).parent == t)) [
  | inl top ↦ rw top (sym (Rep-root c n t r (==_eq (c t).parent t top) d), Keeps-refl c)
  | inr below ↦
      let ne : (c t).parent ≢ t = ground arith in
      let (m, e, up) = step_up c n t r ne d in
      let (found, keeps) =
        uf_find-Rep fuel m (c (c t).parent).parent r (halved t c) up (omega arith) in
      rw below (found, Keeps-trans c (halved t c) _ (Keeps-halved c t ne) keeps)
]

-- ===== src/Balance/Search.antt =====
-- What a worker of src/scheduler_mn.c does when its own queues are empty.
use native.Mathlib.Nat.{mod-eq_of_lt, add-mod_right}
use ein8_proj.Base.{
  ℕ, ◌+◌, ◌-◌, ◌%◌, ◌<◌, ◌≤◌, ◌≡◌, ◌≢◌, ◌∙◌, ap, subst, arith, ◌==◌, ==_self, ==_ne, ltb, true,
  false, Bool-cases, ℕ_discrete, List, [], ◌∷◌, ◌++◌, length, inl, inr, ◌⊎◌,
}
use ein8_proj.Runq.{try_steal}
use ein8_proj.Runq.Steal.{try_steal-StealResult}
use ein8_proj.Balance.{Runqs, Found, got, stopped, waits, again, sleep_round, steal_round}
use ein8_proj.Balance.Push.{AreRunqs, write_list}

-- Every other worker is found at some distance.
other_worker :
    (self v n : ℕ)
    → self < n
    → v < n
    → v ≢ self
    → (j : ℕ) × (1 ≤ j) × (j ≤ n - 1) × ((self + j) % n ≡ v)
other_worker self v n here there away = elim (Bool-cases (ltb self v)) [
  | inl after ↦
      let at_v : self + (v - self) ≡ v = ground (arith, after) in
      (
        v - self,
        ground (arith, after),
        ground (arith, after),
        ap (λ k. k % n) at_v ∙ mod-eq_of_lt there,
      )
  | inr before ↦
      let at_v : self + (n - self + v) ≡ v + n = ground (arith, before) in
      (
        n - self + v,
        ground (arith, before),
        ground (arith, before, away),
        ap (λ k. k % n) at_v ∙ add-mod_right v n ∙ mod-eq_of_lt there,
      )
]

-- What the end of a round means. With a thread: it is the newest of the own deque, else the oldest of
-- the own injector queue, else the oldest of the deque of another worker, and only it is taken.
abbrev pub RoundResult : (self n flag : ℕ) → (xs ts : ℕ → List ℕ) → Found × Runqs → Type 0
RoundResult self n flag xs ts (got t, s') =
    ((rest : List ℕ) × (xs self ≡ rest ++ t ∷ []) × AreRunqs s' (write_list xs self rest) ts)
    ⊎ ((xs self ≡ [])
        × ((rest : List ℕ) × (ts self ≡ t ∷ rest) × AreRunqs s' xs (write_list ts self rest)))
    ⊎ ((xs self ≡ [])
        × (ts self ≡ [])
        × ((v : ℕ) × (rest : List ℕ) × (xs v ≡ t ∷ rest) × AreRunqs s' (write_list xs v rest) ts))
RoundResult self n flag xs ts (stopped, s') =
    (xs self ≡ []) × (ts self ≡ []) × (flag ≢ 0) × AreRunqs s' xs ts
RoundResult self n flag xs ts (waits, s') =
    ((v : ℕ) → v < n → xs v ≡ []) × (ts self ≡ []) × (flag ≡ 0) × AreRunqs s' xs ts
RoundResult self n flag xs ts (again, s') = ◌≡◌ {A = ℕ} 0 1

nothing_left :
    (self v n : ℕ) (xs : ℕ → List ℕ)
    → self < n
    → xs self ≡ []
    → ((j : ℕ) → 1 ≤ j → j ≤ n - 1 → xs ((self + j) % n) ≡ [])
    → v < n
    → xs v ≡ []
nothing_left self v n xs here own others there = elim (ℕ_discrete v self) [
  | yes e ↦ rw e own
  | no away ↦
      let (j, low, high, e) = other_worker self v n here there away in
      subst (λ w. xs w ≡ []) e (others j low high)
]

sleep_round-RoundResult :
    (self n : ℕ) (s : Runqs) (xs ts : ℕ → List ℕ)
    → AreRunqs s xs ts
    → ((v : ℕ) → v < n → xs v ≡ [])
    → xs self ≡ []
    → ts self ≡ []
    → s.runq_shutdown_flag ≡ 0
    → RoundResult self n s.runq_shutdown_flag xs ts (sleep_round self s)
unfolding sleep_round
sleep_round-RoundResult self n s xs ts all nothing own outer up =
    let ends : (s.deques self).bottom ≡ (s.deques self).top + length (xs self) =
      (all.deques.each self).ends in
    let empty : ((s.deques self).bottom == (s.deques self).top) ≡ true =
      ground (arith, rw own at ends) in
    let counted = (all.injectors self).counted in
    let none_sent : ((s.injectors self).size == 0) ≡ true = ground (arith, rw outer at counted) in
    let running : (s.runq_shutdown_flag == 0) ≡ true = ground (arith, up) in
    rw (empty, none_sent, running)
      (
        nothing,
        outer,
        up,
        record { deques = all.deques; injectors = all.injectors; apart = all.apart },
      )

pub steal_round-RoundResult :
    (self : ℕ) (s : Runqs) (xs ts : ℕ → List ℕ)
    → AreRunqs s xs ts
    → self < s.n_runqs
    → xs self ≡ []
    → ts self ≡ []
    → s.runq_shutdown_flag ≡ 0
    → RoundResult self s.n_runqs s.runq_shutdown_flag xs ts (steal_round self s)
unfolding steal_round
steal_round-RoundResult self s xs ts all here own outer up =
    let r = try_steal self s.n_runqs s.deques in
    let after = record s { deques = r.1 } in
    elim (try_steal-StealResult self s.n_runqs s.deques xs (omega (arith, here)) all.deques) [
      | inl (e, others, kept) ↦
          let none_found : (r.0 == 0) ≡ true = ground (arith, e) in
          rw none_found (
            sleep_round-RoundResult self s.n_runqs after xs ts
              (record {
                deques = record {
                  each = λ v. rw (kept v) (all.deques.each v);
                  real = all.deques.real;
                };
                injectors = all.injectors;
                apart = all.apart;
              })
              (λ v there. nothing_left self v s.n_runqs xs here own others there) own outer up)
      | inr (j, low, high, rest, there, is, kept) ↦
          let v = (self + j) % s.n_runqs in
          let real = all.deques.real v in
          let found : (r.0 == 0) ≡ false = ground (arith, rw there at real) in
          rw found (
            inr (
              inr (
                own,
                outer,
                (
                  v,
                  rest,
                  there,
                  record {
                    deques = record {
                      each = λ w. elim (ℕ_discrete w v) [
                        | yes e ↦ rw (e, ==_self v) is
                        | no away ↦ rw (==_ne w v away, kept w away) (all.deques.each w)
                      ];
                      real = λ w. elim (ℕ_discrete w v) [
                        | yes e ↦ rw (e, ==_self v) (ground (arith, rw there at real))
                        | no away ↦ rw (==_ne w v away) (all.deques.real w)
                      ];
                    };
                    injectors = all.injectors;
                    apart = all.apart;
                  },
                ),
              )))
    ]

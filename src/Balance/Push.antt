-- ===== src/Balance/Push.antt =====
-- Where a thread goes that a worker of src/scheduler_mn.c pushes.
use ein8_proj.Base.{
  ℕ, ◌+◌, ◌%◌, ◌<◌, ◌≡◌, ◌≢◌, refl, sym, ◌∙◌, ap, arith, ◌==◌, ==_self, ==_ne, ==_eq, if◌then◌else◌,
  Bool-cases, ℕ_discrete, List, [], ◌∷◌, ◌++◌, length, ◌∈◌, ◌∉◌, has, Option, none, some, inl, inr,
  ◌⊎◌, has-append,
}
use ein8_proj.Base.Word.{u32}
use ein8_proj.Sched.{Slab}
use ein8_proj.WaitQueue.Fifo.{IsQueue-frame}
use ein8_proj.Deque.{Deque, cl_cap}
use ein8_proj.Deque.Lifo.{IsDeque, cl_push_bottom-IsDeque}
use ein8_proj.Injector.{Injector, inj_push}
use ein8_proj.Injector.Order.{IsInjector, inj_push-IsInjector, inj_push-frame}
use ein8_proj.Runq.{Deques, write_deque}
use ein8_proj.Runq.Steal.{AreDeques}
use ein8_proj.Balance.{
  Runqs, write_injector, push_done, runq_push, push_external, schedule_push_balance_cb,
}

-- Contents of one queue per worker, with that of worker `v` replaced.
abbrev pub write_list : (ℕ → List ℕ) → ℕ → List ℕ → ℕ → List ℕ
write_list f v xs a = if a == v then xs else f a

-- Worker `v` has the threads `xs v` in its deque and `ts v` in its injector queue, oldest first; no
-- thread stands in two injector queues, whose links are shared.
pub record AreRunqs (s : Runqs) (xs ts : ℕ → List ℕ) : Type 0 where
  pub deques : AreDeques s.deques xs
  pub injectors : (v : ℕ) → IsInjector s.hot (s.injectors v) (ts v)
  pub apart : (v w a : ℕ) → a ∈ ts v → a ∈ ts w → v ≡ w

pub write_deque-AreDeques :
    (v : ℕ) (q : Deque) (qs : Deques) (xs : ℕ → List ℕ) (ys : List ℕ)
    → AreDeques qs xs
    → IsDeque q ys
    → 0 ∉ ys
    → AreDeques (write_deque qs v q) (write_list xs v ys)
write_deque-AreDeques v q qs xs ys all is real = record {
  each = λ a. elim (Bool-cases (a == v)) [ inl e ↦ rw e is | inr e ↦ rw e (all.each a) ];
  real = λ a. elim (Bool-cases (a == v)) [ inl e ↦ rw e real | inr e ↦ rw e (all.real a) ];
}

-- What a push onto the own deque comes to.
abbrev pub PushedOwn :
    (self t : ℕ) → Runqs → (xs ts : ℕ → List ℕ) → Option (Option ℕ × Runqs) → Type 0
PushedOwn self t s xs ts none = length (xs self) ≡ cl_cap
PushedOwn self t s xs ts (some (w, s')) = AreRunqs s' (write_list xs self (xs self ++ t ∷ [])) ts

runq_push-PushedOwn :
    (self t : ℕ) (s : Runqs) (xs ts : ℕ → List ℕ)
    → AreRunqs s xs ts
    → t ≢ 0
    → (s.deques self).bottom + 1 < 9223372036854775808
    → PushedOwn self t s xs ts (runq_push self t s)
unfolding runq_push push_done
runq_push-PushedOwn self t s xs ts all ne small =
    elim (cl_push_bottom-IsDeque t (s.deques self) (xs self) (all.deques.each self) small) [
      | inl (full, e) ↦ rw e full
      | inr (q, e, is) ↦ rw e (record {
        deques =
            write_deque-AreDeques self q s.deques xs (xs self ++ t ∷ []) all.deques is
              (ground (arith, all.deques.real self, has-append 0 (xs self) (t ∷ [])));
        injectors = all.injectors;
        apart = all.apart;
      })
    ]

-- The injector queues after one of them and the links of some threads outside the others changed.
pub write_injector-each :
    (v : ℕ) (h h' : Slab) (j : Injector) (js : ℕ → Injector) (ts : ℕ → List ℕ) (us : List ℕ)
    → ((w : ℕ) → IsInjector h (js w) (ts w))
    → IsInjector h' j us
    → ((w a : ℕ) → w ≢ v → a ∈ ts w → h' a ≡ h a)
    → (w : ℕ) → IsInjector h' (write_injector js v j w) (write_list ts v us w)
write_injector-each v h h' j js ts us each here same w = elim (ℕ_discrete w v) [
  | yes e ↦ rw (e, ==_self v) here
  | no ne ↦ rw (==_ne w v ne) (record {
    queue =
        IsQueue-frame h h' (js w).ends (ts w) (each w).queue
          (λ a i. ap (λ x. x.sched_next) (same w a ne i));
    counted = (each w).counted;
  })
]

push_external-AreRunqs :
    (target t : ℕ) (s : Runqs) (xs ts : ℕ → List ℕ)
    → AreRunqs s xs ts
    → t ≢ 0
    → ((v : ℕ) → t ∉ ts v)
    → AreRunqs (push_external target t s).1 xs (write_list ts target (ts target ++ t ∷ []))
unfolding push_external
push_external-AreRunqs target t s xs ts all ne out = record {
  deques = all.deques;
  injectors =
      write_injector-each target s.hot (inj_push t (s.injectors target) s.hot).1
        (inj_push t (s.injectors target) s.hot).0 s.injectors ts (ts target ++ t ∷ []) all.injectors
        (inj_push-IsInjector t (s.injectors target) s.hot (ts target) (all.injectors target)
          (out target) ne)
        (λ w a away i.
          inj_push-frame t (s.injectors target) s.hot (ts target) a (all.injectors target)
            (elim (Bool-cases (has a (ts target))) [
              | inl there ↦ absurd (away (all.apart w target a i there))
              | inr free ↦ free
            ])
            (ground (arith, out w, i)));
  apart = λ v w a i k. elim (Bool-cases (v == target)) [
    | inl ev ↦ elim (Bool-cases (w == target)) [
      | inl ew ↦ ==_eq v target ev ∙ sym (==_eq w target ew)
      | inr nw ↦
          let i' = rw (ev, has-append a (ts target) (t ∷ [])) at i in
          let k' = rw nw at k in
          ==_eq v target ev ∙ all.apart target w a (ground (arith, i', k', out w)) k'
    ]
    | inr nv ↦ elim (Bool-cases (w == target)) [
      | inl ew ↦
          let k' = rw (ew, has-append a (ts target) (t ∷ [])) at k in
          let i' = rw nv at i in
          all.apart v target a i' (ground (arith, i', k', out v)) ∙ sym (==_eq w target ew)
      | inr nw ↦ all.apart v w a (rw nv at i) (rw nw at k)
    ]
  ];
}

-- What a yield of thread `t` on worker `self` comes to: it stands behind the others in the deque of
-- `self` or in the injector queue of another worker.
abbrev pub Placed : (self target t : ℕ) → (xs ts : ℕ → List ℕ) → Option (Option ℕ × Runqs) → Type 0
Placed self target t xs ts none = (target ≡ self) × (length (xs self) ≡ cl_cap)
Placed self target t xs ts (some (w, s')) =
    ((target ≡ self) × AreRunqs s' (write_list xs self (xs self ++ t ∷ [])) ts)
    ⊎ ((target ≢ self) × AreRunqs s' xs (write_list ts target (ts target ++ t ∷ [])))

PushedOwn-Placed :
    (self target t : ℕ) (s : Runqs) (xs ts : ℕ → List ℕ) (r : Option (Option ℕ × Runqs))
    → target ≡ self
    → PushedOwn self t s xs ts r
    → Placed self target t xs ts r
PushedOwn-Placed self target t s xs ts none e full = (e, full)
PushedOwn-Placed self target t s xs ts (some (w, s')) e all = inl (e, all)

-- A thread that stands in no queue and is pushed in round robin stands in one queue afterwards: last
-- in the own deque, when the turn is at the worker that pushes, else last in the injector queue of
-- the worker whose turn it is. The other queues stay as they are, and the push aborts only on 4096
-- threads in the own deque.
pub schedule_push_balance_cb-Placed :
    (self t : ℕ) (s : Runqs) (xs ts : ℕ → List ℕ)
    → AreRunqs s xs ts
    → t ≢ 0
    → ((v : ℕ) → t ∉ ts v)
    → (s.deques self).bottom + 1 < 9223372036854775808
    → Placed self (s.push_rr % s.n_runqs) t xs ts (schedule_push_balance_cb self t s)
unfolding schedule_push_balance_cb
schedule_push_balance_cb-Placed self t s xs ts all ne out small =
    let next = record s { push_rr = u32 (s.push_rr + 1) } in
    let all' : AreRunqs next xs ts = record {
      deques = all.deques;
      injectors = all.injectors;
      apart = all.apart;
    } in
    elim (ℕ_discrete (s.push_rr % s.n_runqs) self) [
      | yes e ↦
          rw (e, ==_self self)
            (PushedOwn-Placed self self t next xs ts (runq_push self t next) refl
              (runq_push-PushedOwn self t next xs ts all' ne small))
      | no away ↦
          rw (==_ne (s.push_rr % s.n_runqs) self away)
            (inr (away, push_external-AreRunqs (s.push_rr % s.n_runqs) t next xs ts all' ne out))
    ]

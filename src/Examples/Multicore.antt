-- ===== src/Examples/Multicore.antt =====
-- Descriptor caches, deques, steals and injector queues, on concrete states.
use ein8_proj.Base.{
  ℕ, ◌+◌, ◌≡◌, refl, inl, inr, List, [], ◌∷◌, false, arith, ◌==◌, ◌∈◌, ◌∉◌, if◌then◌else◌,
  Bool-cases, ◌%◌, ==_eq, sym, ◌∙◌,
}
use ein8_proj.Balance.{Runqs, schedule_push_balance_cb}
use ein8_proj.Balance.Push.{AreRunqs, Placed, schedule_push_balance_cb-Placed}
use ein8_proj.Cache.{Pools, thread_alloc_mn}
use ein8_proj.Cache.Filling.{Fresh}
use ein8_proj.Cache.Pooled.{Pooled}
use ein8_proj.Cache.Refill.{AllocResult, thread_alloc_mn-AllocResult}
use ein8_proj.Deque.{Deque}
use ein8_proj.Deque.Lifo.{IsDeque}
use ein8_proj.Examples.{IsQueue-with, empty_queue, hot0, waiting_queue}
use ein8_proj.Injector.{Injector}
use ein8_proj.Injector.Order.{IsInjector}
use ein8_proj.Runq.{Deques}
use ein8_proj.Runq.Steal.{AreDeques}

abbrev two_items : Deque
two_items = record { top = 5; bottom = 7; items = λ a. a + 10 }

abbrev pushed : List ℕ
pushed = 15 ∷ 16 ∷ []

abbrev no_items : Deque
no_items = record { top = 3; bottom = 3; items = λ a. 0 }

two_items-IsDeque : IsDeque two_items (15 ∷ 16 ∷ [])
two_items-IsDeque = record {
  holds = (refl, (refl, tt));
  ends = refl;
  room = omega arith;
  small = omega arith;
}

no_items-IsDeque : IsDeque no_items []
no_items-IsDeque = record { holds = tt; ends = refl; room = omega arith; small = omega arith }

abbrev workers : Deques
workers v = if v == 1 then two_items else no_items

abbrev contents : ℕ → List ℕ
contents v = if v == 1 then 15 ∷ 16 ∷ [] else []

workers-AreDeques : AreDeques workers contents
workers-AreDeques = record {
  each = λ v. elim (Bool-cases (v == 1)) [
    | inl e ↦ rw e two_items-IsDeque
    | inr e ↦ rw e no_items-IsDeque
  ];
  real = λ v. elim (Bool-cases (v == 1)) [ inl e ↦ rw e refl | inr e ↦ rw e refl ];
}

abbrev pools0 : Pools
pools0 = record {
  hot = hot0;
  thread_free_head = 0;
  t_cache_head = 6;
  t_cache_count = 1;
  thread_slab_next = 6;
  cold_lock = λ t. false;
}

pools0-Pooled : Pooled pools0 (6 ∷ []) [] (1 ∷ 2 ∷ [])
pools0-Pooled = record {
  cached = (refl, omega arith, refl);
  linked = refl;
  counted = refl;
  bounded = omega arith;
  distinct_cache = (refl, tt);
  distinct_free = tt;
  distinct_used = (refl, (refl, tt));
  apart_cache = λ a i. (refl, ground arith);
  apart_free = λ a i. cc;
  real = refl;
}

abbrev six : List ℕ
six = 6 ∷ []

abbrev nobody : List ℕ
nobody = []

abbrev pools_low : Pools
pools_low = record pools0 { thread_free_head = 6; t_cache_head = 0; t_cache_count = 0 }

pools_low-Pooled : Pooled pools_low nobody six (1 ∷ 2 ∷ [])
pools_low-Pooled = record {
  cached = refl;
  linked = (refl, omega arith, refl);
  counted = refl;
  bounded = omega arith;
  distinct_cache = tt;
  distinct_free = (refl, tt);
  distinct_used = (refl, (refl, tt));
  apart_cache = λ a i. cc;
  apart_free = λ a i. ground arith;
  real = refl;
}

pools_low-Fresh : Fresh pools_low six (1 ∷ 2 ∷ [])
pools_low-Fresh = (λ a i. ground arith, λ a i. ground arith)

abbrev injector0 : Injector
injector0 = record { ends = waiting_queue; size = 2 }

injector0-IsInjector : IsInjector hot0 injector0 (4 ∷ 5 ∷ [])
injector0-IsInjector = record { queue = IsQueue-with 140000; counted = refl }

abbrev no_injector : Injector
no_injector = record { ends = empty_queue; size = 0 }

no_injector-IsInjector : IsInjector hot0 no_injector []
no_injector-IsInjector = record {
  queue = record { linked = refl; tail = refl; distinct = tt };
  counted = refl;
}

cc_nil : (a : ℕ) → a ∈ nobody → ◌≡◌ {A = ℕ} 0 1
cc_nil a i = cc

abbrev injected : ℕ → List ℕ
injected v = if v == 1 then 4 ∷ 5 ∷ [] else []

abbrev runqs0 : Runqs
runqs0 = record {
  hot = hot0;
  deques = workers;
  injectors = λ v. if v == 1 then injector0 else no_injector;
  n_runqs = 3;
  runq_shutdown_flag = 0;
  idle_bitmap = 4;
  push_rr = 7;
}

runqs0-AreRunqs : AreRunqs runqs0 contents injected
runqs0-AreRunqs = record {
  deques = workers-AreDeques;
  injectors = λ v. elim (Bool-cases (v == 1)) [
    | inl e ↦ rw e injector0-IsInjector
    | inr e ↦ rw e no_injector-IsInjector
  ];
  apart = λ v w a i k. elim (Bool-cases (v == 1)) [
    | inl e ↦ elim (Bool-cases (w == 1)) [
      | inl e' ↦ ==_eq v 1 e ∙ sym (==_eq w 1 e')
      | inr e' ↦ absurd (omega (arith, cc_nil a (rw e' at k)))
    ]
    | inr e ↦ absurd (omega (arith, cc_nil a (rw e at i)))
  ];
}

outside_injectors : (v : ℕ) → 6 ∉ injected v
outside_injectors v = elim (Bool-cases (v == 1)) [ inl e ↦ rw e refl | inr e ↦ rw e refl ]

schedule_push_balance_cb-Placed_example :
    Placed 0
      (runqs0.push_rr % runqs0.n_runqs)
      6
      contents
      injected
      (schedule_push_balance_cb 0 6 runqs0)
schedule_push_balance_cb-Placed_example =
    schedule_push_balance_cb-Placed 0 6 runqs0 contents injected (runqs0-AreRunqs) (omega arith)
      outside_injectors (omega arith)

thread_alloc_mn-AllocResult_example :
    AllocResult pools_low nobody six (1 ∷ 2 ∷ []) (thread_alloc_mn pools_low)
thread_alloc_mn-AllocResult_example =
    thread_alloc_mn-AllocResult pools_low nobody six (1 ∷ 2 ∷ []) (pools_low-Pooled)
      (pools_low-Fresh)

-- ===== src/Early/Places.antt =====
-- Where the threads of the first version of the library are, under options/src: each descriptor
-- stands in one place, so that no thread is lost or queued twice.
pub mod Moves
pub mod Waits
use ein8_proj.Base.{
  ◌&&◌, not, ℕ, ◌≡◌, ◌≢◌, arith, ◌==◌, if◌then◌else◌, Bool, true, false, List, has, IsDistinct,
}
use ein8_proj.Early.{Env, env_init, env_join, env_lock, Thread}
use ein8_proj.Early.Calls.{is_end}

pub data Place : Type 0 where
  absent at_cpu in_ready ended : Place
  in_mutex : (m : ℕ) → Place
  in_join : (t : ℕ) → Place

abbrev pub known : Place → Bool
known absent = false
known _ = true

abbrev pub cpu_here : Place → Bool
cpu_here at_cpu = true
cpu_here _ = false

abbrev pub ready_here : Place → Bool
ready_here in_ready = true
ready_here _ = false

abbrev pub ended_here : Place → Bool
ended_here ended = true
ended_here _ = false

abbrev pub mutex_here : (m : ℕ) → Place → Bool
mutex_here m (in_mutex k) = m == k
mutex_here m _ = false

abbrev pub join_here : (t : ℕ) → Place → Bool
join_here t (in_join k) = t == k
join_here t _ = false

abbrev pub joins_env : (t : ℕ) → Env → Bool
joins_env t (env_join k old) = t == k
joins_env t _ = false

abbrev pub lock_env : Env → Bool
lock_env (env_lock old) = true
lock_env _ = false

abbrev pub gone_env : Env → Bool
gone_env env_init = true
gone_env _ = false

abbrev pub put : (ℕ → Place) → (a : ℕ) → Place → ℕ → Place
put f a p b = if b == a then p else f b

-- The threads `rs` are ready, `bs m` wait for mutex `m`; what a place means for the descriptor.
pub record Parts (h : ℕ → Thread) (place : ℕ → Place) (rs : List ℕ) (bs : ℕ → List ℕ) : Type 0 where
  pub ready : (a : ℕ) → has a rs ≡ ready_here (place a)
  pub blocked : (m a : ℕ) → has a (bs m) ≡ mutex_here m (place a)
  pub distinct_ready : IsDistinct rs
  pub distinct_blocked : (m : ℕ) → IsDistinct (bs m)
  pub joins :
      (a t : ℕ)
      → join_here t (place a) ≡ true
      → ((h t).waiting ≡ a)
        × (is_end (h t).state ≡ false)
        × (known (place t) ≡ true)
        × (joins_env t (h a).env ≡ true)
  pub waited :
      (t : ℕ)
      → (h t).waiting ≢ 0
      → is_end (h t).state ≡ false
      → known (place t) ≡ true
      → join_here t (place (h t).waiting) ≡ true
  pub ends : (a : ℕ) → known (place a) ≡ true → ended_here (place a) ≡ is_end (h a).state
  pub woken :
      (a t : ℕ)
      → ready_here (place a) ≡ true
      → joins_env t (h a).env ≡ true
      → (ended_here (place t) ≡ true) × ((h t).waiting ≡ a)
  pub resumes : (a : ℕ) → ready_here (place a) ≡ true → gone_env (h a).env ≡ false
  pub locks : (a m : ℕ) → mutex_here m (place a) ≡ true → lock_env (h a).env ≡ true
  pub null : known (place 0) ≡ false

-- The contents of the queue of mutex `m`, replaced.
abbrev pub replace : (ℕ → List ℕ) → (m : ℕ) → List ℕ → ℕ → List ℕ
replace bs m xs k = if k == m then xs else bs k

-- The new thread of a creation that succeeds.
abbrev pub is_new : (t stack : ℕ) → ℕ → Bool
is_new t stack a = a == t && not (t == 0) && not (stack == 0)

-- ===== src/Portable/Layout.antt =====
-- Where the contexts of src/ctx_ucontext.c and their stacks lie.
use ein8_proj.Base.{
  ℕ, ◌+◌, ◌-◌, ◌*◌, ◌/◌, ◌%◌, ◌^◌, ◌≤◌, ◌<◌, ◌≡◌, ◌∙◌, ap, bit_or, List, [], ◌∷◌, arith,
}
use ein8_proj.Base.Word.{u64}
use ein8_proj.Base.Fields.{bit_or_halves}
use ein8_proj.Portable.{Ucontext, sub64, align16, high32, low32, uctx_trampoline}

halves : (p : ℕ) → p < 2 ^ 64 → bit_or (u64 (high32 p * 2 ^ 32)) (low32 p) ≡ p
halves p low =
    ap (λ w. bit_or w (low32 p)) (omega (arith, low))
    ∙ bit_or_halves 32 (p / 2 ^ 32) (p % 2 ^ 32) (omega arith)
    ∙ omega arith

-- The trampoline puts together the two pointers that `port_make_ctx` takes apart.
pub uctx_trampoline-halves :
    (func arg : ℕ)
    → func < 2 ^ 64
    → arg < 2 ^ 64
    → uctx_trampoline (high32 func) (low32 func) (high32 arg) (low32 arg) ≡ (func, arg)
unfolding uctx_trampoline
uctx_trampoline-halves func arg f a =
    ap (λ x. (x, bit_or (u64 (high32 arg * 2 ^ 32)) (low32 arg))) (halves func f)
    ∙ ap (λ y. (func, y)) (halves arg a)

pub sub64_small : (a b : ℕ) → b ≤ a → a < 2 ^ 64 → sub64 a b ≡ a - b
sub64_small a b le low = omega (arith, le, low)

align16_bounds :
    (p : ℕ) → p + 15 < 2 ^ 64 → (p ≤ align16 p) × (align16 p ≤ p + 15) × (align16 p % 16 ≡ 0)
align16_bounds p low = (omega (arith, low), omega (arith, low), omega (arith, low))

-- The size that is left of `total` bytes behind the aligned address `ss`, less `tail`.
left_size :
    (total base ss tail : ℕ)
    → base ≤ ss
    → ss + tail ≤ base + total
    → base + total < 2 ^ 64
    → ss + sub64 (sub64 total (sub64 ss base)) tail ≡ base + total - tail
left_size total base ss tail low high fits =
    let here : sub64 ss base ≡ ss - base = sub64_small ss base low (omega (arith, high, fits)) in
    let rest : sub64 total (sub64 ss base) ≡ total - (ss - base) =
      ap (sub64 total) here
      ∙ sub64_small total (ss - base) (omega (arith, high)) (omega (arith, fits)) in
    let all : sub64 (sub64 total (sub64 ss base)) tail ≡ total - (ss - base) - tail =
      ap (λ n. sub64 n tail) rest
      ∙ sub64_small (total - (ss - base)) tail (omega (arith, high, low)) (omega (arith, fits)) in
    ap (λ n. ss + n) all ∙ omega (arith, low, high)

-- What `makecontext` hands to the trampoline.
abbrev pub run_args : List ℕ → ℕ × ℕ
run_args (a ∷ b ∷ c ∷ d ∷ []) = uctx_trampoline a b c d
run_args _ = (0, 0)

-- A context at `ctx`, with its stack behind it, 16-aligned, up to `top`.
pub record Placed (U : Ucontext) (ctx top : ℕ) (c : U.Context) : Type 0 where
  pub above : ctx + U.sizeof ≤ U.ss_sp c
  pub aligned : U.ss_sp c % 16 ≡ 0
  pub ends : U.ss_sp c + U.ss_size c ≡ top

module _ (U : Ucontext) where
  open U use {
    Context, sizeof, getcontext, set_stack, makecontext, ss_sp, ss_size, entry_of, args_of,
    ss_sp-set_stack, ss_size-set_stack, ss_sp-makecontext, ss_size-makecontext,
    entry_of-makecontext, args_of-makecontext,
  }

  set_up_sp :
      (sp size entry : ℕ) (args : List ℕ) (c : Context)
      → ss_sp (makecontext (set_stack sp size 0 0 c) entry args) ≡ sp
  set_up_sp sp size entry args c = ss_sp-makecontext _ entry args ∙ ss_sp-set_stack sp size 0 0 c

  set_up_size :
      (sp size entry : ℕ) (args : List ℕ) (c : Context)
      → ss_size (makecontext (set_stack sp size 0 0 c) entry args) ≡ size
  set_up_size sp size entry args c =
      ss_size-makecontext _ entry args ∙ ss_size-set_stack sp size 0 0 c

  -- A context at `ctx` in the `total` bytes from `base`, the last `tail` of them kept back.
  pub made-Placed :
      (base ctx total tail entry : ℕ) (args : List ℕ) (c : Context)
      → base ≤ ctx
      → ctx + sizeof + 15 + tail ≤ base + total
      → base + total < 2 ^ 64
      → Placed U ctx (base + total - tail) (
          makecontext
            (set_stack
              (align16 (u64 (ctx + sizeof)))
              (sub64 (sub64 total (sub64 (align16 (u64 (ctx + sizeof))) base)) tail)
              0
              0
              c)
            entry
            args)
  made-Placed base ctx total tail entry args c low room fits =
      let p = u64 (ctx + sizeof) in
      let same : p ≡ ctx + sizeof = omega (arith, room, fits) in
      let (least, most, even) = align16_bounds p (omega (arith, room, fits, same)) in
      let sp =
        set_up_sp (align16 p) (sub64 (sub64 total (sub64 (align16 p) base)) tail) entry args c in
      let size =
        set_up_size (align16 p) (sub64 (sub64 total (sub64 (align16 p) base)) tail) entry args c in
      record {
        above = rw sp (omega (arith, least, same));
        aligned = rw sp even;
        ends =
            rw (sp, size)
              (left_size total base (align16 p) tail (omega (arith, least, same, low))
                (omega (arith, most, same, room)) fits);
      }

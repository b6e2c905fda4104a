-- ===== src/Exception/Preempt.antt =====
-- Which exceptions may arrive late or be chained in src/cpu.c.
use picoemu.Base.{
  ℕ, ◌+◌, ◌<◌, ◌≡◌, refl, ◌⊎◌, inl, inr, bit_and, Bool, true, false, not, ◌&&◌, ltb, ◌==◌,
  if◌then◌else◌, arith,
}
use picoemu.Nvic.State.{Ppb, nvic_cur, systick_cur}
use picoemu.Nvic.Irq.{nvic_get_exception_priority, nvic_get_pending_irq}
use picoemu.Nvic.Choice.{IsIrqState}
use picoemu.Nvic.Pending.{nvic_get_pending_irq-lt}
use picoemu.Exception.Entry.{preempting}

-- Nothing, or a vector whose priority is below the limit.
abbrev pub Beats : {W : Type 0} → ℕ → Ppb W → ℕ → Type 0
Beats limit p v = (v ≡ 0xFFFFFFFF) ⊎ (nvic_get_exception_priority v (nvic_cur p) < limit)

module _ {W : Type 0} (limit : ℕ) (p : Ppb W) where
  if_Beats :
      (b : Bool) (x y : ℕ)
      → (b ≡ true → Beats limit p x)
      → Beats limit p y
      → Beats limit p (if b then x else y)
  if_Beats true x y h k = h refl
  if_Beats false x y h k = k

  external :
      (irq : ℕ)
      → irq < 64
      → nvic_get_exception_priority (irq + 16) (nvic_cur p)
        ≡ bit_and ((nvic_cur p).priority irq) 0xC0
  unfolding nvic_get_exception_priority
  external irq h = ground arith

  irq-Beats :
      IsIrqState (nvic_cur p)
      → let irq = nvic_get_pending_irq (nvic_cur p) in
        (not (irq == 0xFFFFFFFF) && ltb (bit_and ((nvic_cur p).priority irq) 0xC0) limit) ≡ true
        → Beats limit p (irq + 16)
  irq-Beats good test =
      let irq = nvic_get_pending_irq (nvic_cur p) in
      let found : (irq == 0xFFFFFFFF) ≡ false = ground arith in
      let inside = nvic_get_pending_irq-lt (nvic_cur p) good found in
      inr (ground (arith, external irq inside))

  -- In a state of 32-bit words whose fast-path flag is clear only when all effective priorities are 0,
  -- what may arrive late or be chained is nothing or an exception whose priority is below the limit.
  pub preempting-Beats :
      (with_pendsv : Bool)
      → IsIrqState (nvic_cur p)
      → Beats limit p (preempting with_pendsv limit p)
  unfolding preempting
  preempting-Beats with_pendsv good =
      let ns = nvic_cur p in
      let irq = nvic_get_pending_irq ns in
      let t1 = not (irq == 0xFFFFFFFF) && ltb (bit_and (ns.priority irq) 0xC0) limit in
      let by_irq = if t1 then irq + 16 else 0xFFFFFFFF in
      let k1 : Beats limit p by_irq =
        if_Beats t1 (irq + 16) 0xFFFFFFFF (irq-Beats good) (inl refl) in
      let t2 = (by_irq == 0xFFFFFFFF) && not ((systick_cur p).pending == 0) in
      let t2' = ltb (nvic_get_exception_priority 15 ns) limit in
      let by_systick = if t2 then (if t2' then 15 else by_irq) else by_irq in
      let k2 : Beats limit p by_systick =
        if_Beats t2 (if t2' then 15 else by_irq) by_irq
          (λ e. if_Beats t2' 15 by_irq (λ f. inr (ground arith)) k1) k1 in
      let t3 = with_pendsv && ((by_systick == 0xFFFFFFFF) && not (ns.pendsv_pending == 0)) in
      let t3' = ltb (nvic_get_exception_priority 14 ns) limit in
      if_Beats t3 (if t3' then 14 else by_systick) by_systick
        (λ e. if_Beats t3' 14 by_systick (λ f. inr (ground arith)) k2) k2

-- ===== src/Nvic/State.antt =====
-- The state of src/nvic.c, as include/nvic.h declares it, and the helpers on two-word bit sets. Each
-- number is the bits of its C type; an array is a function of its index.
use picoemu.Base.{ℕ, ◌-◌, bit_and, bit_or, ◌==◌, ltb, if◌then◌else◌, u32, not32, ◌<<◌, ◌>>◌}
use picoemu.Thumb.State.{update}

pub record NvicState : Type 0 where
  pub enable : ℕ → ℕ
  pub pending : ℕ → ℕ
  pub priority : ℕ → ℕ
  pub iabr : ℕ → ℕ
  pub active_exceptions : ℕ
  pub active_exceptions_hi : ℕ
  pub shpr1 : ℕ
  pub shpr2 : ℕ
  pub shpr3 : ℕ
  pub pendsv_pending : ℕ
  pub priorities_nondefault : ℕ
  pub shcsr : ℕ
  pub cfsr : ℕ
  pub hfsr : ℕ
  pub mmfar : ℕ
  pub bfar : ℕ

pub record SystickState : Type 0 where
  pub csr : ℕ
  pub rvr : ℕ
  pub cvr : ℕ
  pub pending : ℕ
  pub zero_fired : ℕ

pub record MpuState : Type 0 where
  pub ctrl : ℕ
  pub rnr : ℕ
  pub rbar : ℕ → ℕ
  pub rlar : ℕ → ℕ
  pub mair : ℕ → ℕ

pub record SauState : Type 0 where
  pub ctrl : ℕ
  pub rnr : ℕ
  pub rbar : ℕ → ℕ
  pub rlar : ℕ → ℕ

-- The globals of src/nvic.c, those of other files that it reads or writes (`cpu.vtor`,
-- `membus_rp2350_mode`, `watchdog_reboot_pending`), and all else.
pub record Ppb (W : Type 0) : Type 0 where
  pub nvic_states : ℕ → NvicState
  pub systick_states : ℕ → SystickState
  pub mpu_state : MpuState
  pub sau_state : SauState
  pub last_irq_signal : ℕ
  pub irq_signal_count : ℕ
  pub nvic_cpuid_value : ℕ
  pub active_core : ℕ
  pub vtor : ℕ
  pub membus_rp2350_mode : ℕ
  pub watchdog_reboot_pending : ℕ
  pub world : W

-- Functions from the index of a core, with one entry replaced.
abbrev pub put_core : {A : Type 0} → (ℕ → A) → ℕ → A → ℕ → A
put_core f i v j = if i == j then v else f j

abbrev pub nvic_cur : {W : Type 0} → Ppb W → NvicState
nvic_cur p = p.nvic_states p.active_core

abbrev pub systick_cur : {W : Type 0} → Ppb W → SystickState
systick_cur p = p.systick_states p.active_core

-- What a function does to the active core's state.
abbrev pub on_nvic : {W : Type 0} → (NvicState → NvicState) → Ppb W → Ppb W
on_nvic f p = record p { nvic_states = put_core p.nvic_states p.active_core (f (nvic_cur p)) }

abbrev pub on_systick : {W : Type 0} → (SystickState → SystickState) → Ppb W → Ppb W
on_systick f p = record p {
  systick_states = put_core p.systick_states p.active_core (f (systick_cur p));
}

-- `memset` to 0.
abbrev pub nvic_zero : NvicState
nvic_zero = record {
  enable = λ i. 0;
  pending = λ i. 0;
  priority = λ i. 0;
  iabr = λ i. 0;
  active_exceptions = 0;
  active_exceptions_hi = 0;
  shpr1 = 0;
  shpr2 = 0;
  shpr3 = 0;
  pendsv_pending = 0;
  priorities_nondefault = 0;
  shcsr = 0;
  cfsr = 0;
  hfsr = 0;
  mmfar = 0;
  bfar = 0;
}

abbrev pub systick_zero : SystickState
systick_zero = record { csr = 0; rvr = 0; cvr = 0; pending = 0; zero_fired = 0 }

abbrev pub systick_reset : {W : Type 0} → Ppb W → Ppb W
systick_reset p = record p { systick_states = λ c. systick_zero }

abbrev pub nvic_reset : {W : Type 0} → Ppb W → Ppb W
nvic_reset p = record p {
  nvic_states = λ c. nvic_zero;
  systick_states = λ c. systick_zero;
  mpu_state = record { ctrl = 0; rnr = 0; rbar = λ r. 0; rlar = λ r. 0; mair = λ i. 0 };
  sau_state = record { ctrl = 0; rnr = 0; rbar = λ r. 0; rlar = λ r. 0 };
  last_irq_signal = 0xFFFFFFFF;
  irq_signal_count = 0;
}

-- `1u << (irq & 31)`
abbrev pub irq_bit : ℕ → ℕ
irq_bit irq = 1 << bit_and irq 31

unfoldable pub nvic_bit_set : (ℕ → ℕ) → ℕ → (ℕ → ℕ)
nvic_bit_set w irq = update w (irq >> 5) (bit_or (w (irq >> 5)) (irq_bit irq))

unfoldable pub nvic_bit_clear : (ℕ → ℕ) → ℕ → (ℕ → ℕ)
nvic_bit_clear w irq = update w (irq >> 5) (bit_and (w (irq >> 5)) (not32 (irq_bit irq)))

unfoldable pub nvic_bit_test : (ℕ → ℕ) → ℕ → ℕ
nvic_bit_test w irq = bit_and (w (irq >> 5) >> bit_and irq 31) 1

-- Vectors below 64: the shift of `1u` is undefined from there on.
unfoldable pub nvic_exc_set : ℕ → NvicState → NvicState
nvic_exc_set vec ns =
    if ltb vec 32
    then record ns { active_exceptions = bit_or ns.active_exceptions (1 << vec) }
    else record ns { active_exceptions_hi = bit_or ns.active_exceptions_hi (u32 (1 << (vec - 32))) }

unfoldable pub nvic_exc_clear : ℕ → NvicState → NvicState
nvic_exc_clear vec ns =
    if ltb vec 32
    then record ns { active_exceptions = bit_and ns.active_exceptions (not32 (1 << vec)) }
    else record ns {
      active_exceptions_hi = bit_and ns.active_exceptions_hi (not32 (u32 (1 << (vec - 32))));
    }

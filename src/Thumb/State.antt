-- ===== src/Thumb/State.antt =====
-- The state that the 16-bit Thumb handlers of src/instructions.c work on: `cpu_state_t` of
-- include/emulator.h with the globals `pc_updated` and `m33_basepri`, the sleep flags of `cores`,
-- and what the handlers call in other files.
use picoemu.Base.{ℕ, ◌^◌, ◌<◌, ◌==◌, if◌then◌else◌, Option}

-- The fields of `cpu_state_t` that the handlers read or write. `r` is the array r[16]: every index
-- is a masked field of an instruction, below 16. Each number is the bits of a `uint32_t`.
pub record Cpu : Type 0 where
  pub r : ℕ → ℕ
  pub xpsr : ℕ
  pub primask : ℕ
  pub faultmask : ℕ
  pub control : ℕ
  pub it_base : ℕ
  pub it_mask : ℕ
  pub it_pos : ℕ
  pub it_len : ℕ
  pub it_suppress : ℕ
  pub m33_basepri : ℕ
  pub pc_updated : ℕ

abbrev pub update : (ℕ → ℕ) → ℕ → ℕ → ℕ → ℕ
update f i v j = if i == j then v else f j

-- `cpu.r[i] = v`
abbrev pub set_reg : ℕ → ℕ → Cpu → Cpu
set_reg i v c = record c { r = update c.r i v }

-- A write of the program counter by a handler, with the flag that says so.
abbrev pub set_pc : ℕ → Cpu → Cpu
set_pc v c = record c { r = update c.r 15 v; pc_updated = 1 }

-- The core that runs, the sleep flags `cores[i].is_wfi`, and all else: memory and devices.
pub record Machine (W : Type 0) : Type 0 where
  pub cpu : Cpu
  pub active_core : ℕ
  pub is_wfi : ℕ → ℕ
  pub world : W

-- What the handlers call elsewhere. A read may change a device register, so it returns the world.
pub record Env (W : Type 0) : Type 0 where
  pub mem_read8 : ℕ → W → ℕ × W
  pub mem_read16 : ℕ → W → ℕ × W
  pub mem_read32 : ℕ → W → ℕ × W
  pub mem_write8 : ℕ → ℕ → W → W
  pub mem_write16 : ℕ → ℕ → W → W
  pub mem_write32 : ℕ → ℕ → W → W
  pub cpu_exception_entry : ℕ → Machine W → Machine W
  pub cpu_exception_return : ℕ → Machine W → Machine W
  -- `semihosting_handle` of src/devtools.c: `none` when it returns 0 and does nothing.
  pub semihosting_handle : Machine W → Option (Machine W)

-- A handler that stays inside the register file.
abbrev pub on_cpu : {W : Type 0} → (Cpu → Cpu) → Machine W → Machine W
on_cpu f m = record m { cpu = f m.cpu }

-- Every register and the status register hold 32 bits.
pub record IsWord (c : Cpu) : Type 0 where
  pub regs : (i : ℕ) → c.r i < 2 ^ 32
  pub status : c.xpsr < 2 ^ 32

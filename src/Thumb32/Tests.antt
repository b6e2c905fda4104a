-- ===== src/Thumb32/Tests.antt =====
-- The theorems on the 32-bit Thumb instructions at concrete instructions and states.
use picoemu.Base.{
  refl, ℕ, ◌%◌, ◌^◌, ◌<◌, ◌≡◌, ◌≢◌, ◌==◌, if◌then◌else◌, true, false, Option, none, arith, not32,
}
use picoemu.Thumb.State.{Cpu, set_reg, Machine, Env, IsWord, update}
use picoemu.Thumb.Sums.{Adds}
use picoemu.Thumb32.Alu.{t32_dp_exec}
use picoemu.Thumb32.Fields.{bfi, ubfx}
use picoemu.Thumb32.BitFields.{ubfx-bfi}
use picoemu.Thumb32.Constants.{movt-movw, constant_upper, constant_lower}
use picoemu.Thumb32.Sums.{SetsFlags, AdcAdds, t32_dp_exec-Adds}
use picoemu.Thumb32.Step.{StepEnv, thumb32_step}

-- A state with the carry flag and 0x7FFFFFFF in register 1.
abbrev cpu0 : Cpu
cpu0 = record {
  r = λ i. if i == 1 then 0x7FFFFFFF else 6;
  xpsr = 0x21000000;
  primask = 0;
  faultmask = 0;
  control = 0;
  it_base = 0;
  it_mask = 0;
  it_pos = 0;
  it_len = 0;
  it_suppress = 0;
  m33_basepri = 0;
  pc_updated = 0;
}

cpu0-IsWord : IsWord cpu0
cpu0-IsWord = record { regs = λ i. ground arith; status = omega arith }

abbrev machine0 : Machine (ℕ → ℕ)
machine0 = record { cpu = cpu0; active_core = 0; is_wfi = λ i. 0; world = λ a. a }

abbrev words : Env (ℕ → ℕ)
words = record {
  mem_read8 = λ a w. (w a % 2 ^ 8, w);
  mem_read16 = λ a w. (w a % 2 ^ 16, w);
  mem_read32 = λ a w. (w a % 2 ^ 32, w);
  mem_write8 = λ a v w. update w a v;
  mem_write16 = λ a v w. update w a v;
  mem_write32 = λ a v w. update w a v;
  cpu_exception_entry = λ v m. m;
  cpu_exception_return = λ v m. m;
  semihosting_handle = λ m. none;
}

abbrev no_decoder : ℕ → ℕ → ℕ → Machine (ℕ → ℕ) → Option (Machine (ℕ → ℕ))
no_decoder pc u l m = none

abbrev plain : StepEnv (ℕ → ℕ)
plain = record {
  env = words;
  wide = 1;
  t32_mve = no_decoder;
  t32_dcp = no_decoder;
  t32_dcp2 = no_decoder;
  t32_vfp = no_decoder;
  t32_vsel = no_decoder;
  tt_answer = λ a b m. 0;
  arm_excl_set = λ core a w. w;
  arm_excl_store = λ core a w. (true, w);
}

-- MOVW and MOVT of 0xDEADBEEF to r3, at two addresses.
movt-movw_example :
    let first =
      thumb32_step plain 0x100 (constant_upper 0xF240 0xBEEF) (constant_lower 3 0xBEEF) machine0 in
    let out =
      thumb32_step plain 0x104 (constant_upper 0xF2C0 0xDEAD) (constant_lower 3 0xDEAD) first.1 in
    (first.0 ≡ true)
    × (out.0 ≡ true)
    × (out.1.cpu.r 3 ≡ 0xDEADBEEF)
    × (out.1.cpu.r 15 ≡ 0x108)
    × ((j : ℕ) → j < 15 → j ≢ 3 → out.1.cpu.r j ≡ cpu0.r j)
    × (out.1.cpu.xpsr ≡ 0x21000000)
    × (out.1.world ≡ machine0.world)
movt-movw_example = movt-movw plain 0x100 0x104 3 0xDEADBEEF machine0 (omega arith) (omega arith)

-- r2 and the constant 5.
t32_dp_exec-Adds_example :
    Adds cpu0 (t32_dp_exec 0x8 true 2 4 5 false cpu0) 4 6 5 0
    × Adds cpu0 (t32_dp_exec 0xD true 2 4 5 false cpu0) 4 6 (not32 5) 1
    × Adds cpu0 (t32_dp_exec 0xE true 2 4 5 false cpu0) 4 5 (not32 6) 1
    × Adds cpu0 (t32_dp_exec 0xB true 2 4 5 false cpu0) 4 6 (not32 5) 1
    × AdcAdds cpu0 (t32_dp_exec 0xA true 2 4 5 false cpu0) 4 6 5 1
    × SetsFlags cpu0 (t32_dp_exec 0x8 true 2 15 5 false cpu0) 6 5 0
    × SetsFlags cpu0 (t32_dp_exec 0xD true 2 15 5 false cpu0) 6 (not32 5) 1
t32_dp_exec-Adds_example = t32_dp_exec-Adds cpu0 2 4 5 false cpu0-IsWord (omega arith) (omega arith)

-- BFI r4, r1, #4, #8 and UBFX r5, r4, #4, #8.
ubfx-bfi_example :
    let after = bfi 0 0xF361 0x140B cpu0 in
    (after ≡ set_reg 4 0xFF6 cpu0) × (ubfx 0xF3C4 0x1507 after ≡ set_reg 5 0xFF after)
ubfx-bfi_example =
    ubfx-bfi 0 0xF361 0x140B 0xF3C4 0x1507 cpu0 cpu0-IsWord (omega arith) (omega arith) refl refl
      refl

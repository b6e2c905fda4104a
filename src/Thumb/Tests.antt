-- ===== src/Thumb/Tests.antt =====
-- The theorems on the Thumb instructions at concrete instructions and states.
use picoemu.Base.{ℕ, ◌%◌, ◌^◌, ◌≡◌, refl, ◌==◌, if◌then◌else◌, none, asr32, arith}
use picoemu.Base.Int.{signed32}
use picoemu.Thumb.State.{Cpu, Machine, Env, IsWord, update}
use picoemu.Thumb.Flags.{sign_extend_8}
use picoemu.Thumb.Arith.{
  instr_adds_imm3, instr_adds_imm8, instr_adds_reg_reg, instr_adcs, instr_sub_reg_reg,
  instr_subs_imm3, instr_subs_imm8, instr_rsbs, instr_sbcs, instr_cmp_imm8, instr_cmp_reg_reg,
  instr_cmp_alu, instr_cmn_reg,
}
use picoemu.Thumb.Shift.{
  instr_shift_logical_left, instr_shift_logical_right, instr_shift_arithmetic_right, instr_lsls_reg,
  instr_lsrs_reg, instr_asrs_reg,
}
use picoemu.Thumb.Logic.{reverse_bytes, reverse_pairs}
use picoemu.Thumb.Block.{instr_push, instr_pop}
use picoemu.Thumb.Branch.{instr_bcond, instr_bl, instr_bl_32, instr_blx, instr_bx}
use picoemu.Thumb.Sums.{Adds, Compares, additions-Adds, subtractions-Adds, comparisons-Compares}
use picoemu.Thumb.Shifts.{Shifts, floor_div, shift_by_constant, shift_by_32}
use picoemu.Thumb.RegisterShifts.{
  left_by, right_by, sign_by, left_carry, right_carry, sign_carry, shift_by_register,
}
use picoemu.Thumb.Conditions.{bcond-cmp}
use picoemu.Thumb.Calls.{bl-eq-bl_32, bx-bl_32}
use picoemu.Thumb.Reversal.{byte, reversal}
use picoemu.Thumb.Ram.{IsRam}
use picoemu.Thumb.Stack.{pop-push}
use picoemu.Thumb.Returns.{pop-push_return}

-- A state with the carry flag, a stack of 256 bytes and the program counter in flash.
abbrev regs : ℕ → ℕ
regs i =
    if i == 0
    then 0xFFFFFFFF
    else if i == 1
    then 1
    else if i == 4
    then 0x80000001
    else if i == 13
    then 0x20000100
    else if i == 15
    then 0x10000100
    else if i == 14
    then 0x10000201
    else 6

abbrev cpu0 : Cpu
cpu0 = record {
  r = regs;
  xpsr = 0x21000000;
  primask = 0;
  faultmask = 0;
  control = 0;
  it_base = 0;
  it_mask = 0;
  it_pos = 0;
  it_len = 0;
  it_suppress = 0;
  m33_basepri = 0;
  pc_updated = 0;
}

cpu0-IsWord : IsWord cpu0
cpu0-IsWord = record { regs = λ i. ground arith; status = omega arith }

additions-Adds_example :
    Adds cpu0 (instr_adds_reg_reg 0x1888 cpu0) 0 1 6 0
    × Adds cpu0 (instr_adds_imm3 0x1888 cpu0) 0 1 2 0
    × Adds cpu0 (instr_adds_imm8 0x1888 cpu0) 0 0xFFFFFFFF 0x88 0
    × Adds cpu0 (instr_adcs 0x1888 cpu0) 0 0xFFFFFFFF 1 1
additions-Adds_example = additions-Adds 0x1888 cpu0 cpu0-IsWord

subtractions-Adds_example :
    Adds cpu0 (instr_sub_reg_reg 0x1888 cpu0) 0 1 0xFFFFFFF9 1
    × Adds cpu0 (instr_subs_imm3 0x1888 cpu0) 0 1 0xFFFFFFFD 1
    × Adds cpu0 (instr_subs_imm8 0x1888 cpu0) 0 0xFFFFFFFF 0xFFFFFF77 1
    × Adds cpu0 (instr_rsbs 0x1888 cpu0) 0 0 0xFFFFFFFE 1
    × Adds cpu0 (instr_sbcs 0x1888 cpu0) 0 0xFFFFFFFF 0xFFFFFFFE 1
subtractions-Adds_example = subtractions-Adds 0x1888 cpu0 cpu0-IsWord

comparisons-Compares_example :
    Compares cpu0 (instr_cmp_imm8 0x4288 cpu0) 6 0xFFFFFF77 1
    × Compares cpu0 (instr_cmp_reg_reg 0x4288 cpu0) 6 0xFFFFFFFE 1
    × Compares cpu0 (instr_cmp_alu 0x4288 cpu0) 0xFFFFFFFF 0xFFFFFFFE 1
    × Compares cpu0 (instr_cmn_reg 0x4288 cpu0) 0xFFFFFFFF 1 0
comparisons-Compares_example = comparisons-Compares 0x4288 cpu0 cpu0-IsWord

-- CMP r0, r1 with -1 and 1, then BLT.
bcond-cmp_example : (instr_bcond 0xDB10 (instr_cmp_alu 0x4288 cpu0)).r 15 ≡ 0x10000124
unfolding sign_extend_8
bcond-cmp_example = bcond-cmp 0x4288 0xDB10 cpu0 cpu0-IsWord refl

-- LSLS, LSRS and ASRS of r4 into r2 by 3.
shift_by_constant_example :
    Shifts cpu0 (instr_shift_logical_left 0x00E2 cpu0) 2 8 0
    × Shifts cpu0 (instr_shift_logical_right 0x00E2 cpu0) 2 0x10000000 0
    × Shifts cpu0 (instr_shift_arithmetic_right 0x00E2 cpu0) 2 0xF0000000 0
    × (signed32 (asr32 0x80000001 3) ≡ floor_div (signed32 0x80000001) 8)
shift_by_constant_example = shift_by_constant 0x00E2 cpu0 cpu0-IsWord (λ e. omega (arith, e))

-- LSRS r4, r4, #32 loses the carry.
shift_by_32_example :
    Shifts cpu0 (instr_shift_logical_right 0x0824 cpu0) 4 0 0
    × Shifts cpu0 (instr_shift_arithmetic_right 0x0824 cpu0) 4 0xFFFFFFFF 1
shift_by_32_example = shift_by_32 0x0824 cpu0 cpu0-IsWord refl

-- r4 by r1, which is 1.
shift_by_register_example :
    Shifts cpu0 (instr_lsls_reg 0x408C cpu0) 4 (left_by 0x80000001 1) (left_carry 0x80000001 1)
    × Shifts cpu0 (instr_lsrs_reg 0x408C cpu0) 4 (right_by 0x80000001 1) (right_carry 0x80000001 1)
    × Shifts cpu0 (instr_asrs_reg 0x408C cpu0) 4 (sign_by 0x80000001 1) (sign_carry 0x80000001 1)
shift_by_register_example = shift_by_register 0x408C cpu0 cpu0-IsWord (λ e. omega (arith, e))

reversal_example :
    (byte 0 0x44332211 ≡ byte 3 0x11223344)
    × (byte 1 0x44332211 ≡ byte 2 0x11223344)
    × (byte 2 0x44332211 ≡ byte 1 0x11223344)
    × (byte 3 0x44332211 ≡ byte 0 0x11223344)
    × (byte 0 0x22114433 ≡ byte 1 0x11223344)
    × (byte 1 0x22114433 ≡ byte 0 0x11223344)
    × (byte 2 0x22114433 ≡ byte 3 0x11223344)
    × (byte 3 0x22114433 ≡ byte 2 0x11223344)
    × (reverse_bytes 0x44332211 ≡ 0x11223344)
    × (reverse_pairs 0x22114433 ≡ 0x11223344)
unfolding reverse_bytes reverse_pairs
reversal_example = reversal 0x11223344 (omega arith)

-- A memory of words, each at its own address: enough for transfers of aligned words.
abbrev words : Env (ℕ → ℕ)
words = record {
  mem_read8 = λ a w. (w a % 2 ^ 8, w);
  mem_read16 = λ a w. (w a % 2 ^ 16, w);
  mem_read32 = λ a w. (w a, w);
  mem_write8 = λ a v w. update w a v;
  mem_write16 = λ a v w. update w a v;
  mem_write32 = λ a v w. update w a v;
  cpu_exception_entry = λ n m. m;
  cpu_exception_return = λ n m. m;
  semihosting_handle = λ m. none;
}

words-IsRam : IsRam words 0x20000000 0x20000100
words-IsRam = record {
  bounded = omega arith;
  read_pure = λ a w low top. refl;
  read_self = λ a v w low top word. ground arith;
  read_other = λ a b v w low top low' top' apart. ground arith;
}

-- Flash holds the second halfword of a BL at the address after the first.
abbrev machine0 : Machine (ℕ → ℕ)
machine0 = record {
  cpu = cpu0;
  active_core = 0;
  is_wfi = λ i. 0;
  world = λ a. if a == 0x10000102 then 0xF810 else 0;
}

bl-eq-bl_32_example :
    instr_bl words 0xF000 machine0 ≡ record machine0 { cpu = instr_bl_32 0xF000 0xF810 cpu0 }
bl-eq-bl_32_example = bl-eq-bl_32 words 0xF000 0xF810 machine0 machine0.world refl

-- BL or BLX r2, then BX LR.
bx-bl_32_example :
    ((instr_bx words 0x4770 (record machine0 { cpu = instr_bl_32 0xF000 0xF810 cpu0 })).cpu.r 15
      ≡ 0x10000104)
    × ((instr_bx words 0x4770 (record machine0 { cpu = instr_blx 0x4790 cpu0 })).cpu.r 15
        ≡ 0x10000102)
bx-bl_32_example =
    bx-bl_32 words 0x4770 refl 0xF000 0xF810 0x4790 0x08000080 machine0 refl (omega arith)

-- PUSH {r0, r1, r4} and POP {r0, r1, r4}, with other values in the registers between them.
abbrev pushed : Machine (ℕ → ℕ)
pushed = instr_push words 0xB413 machine0

abbrev clobbered : Cpu
clobbered = record cpu0 { r = λ i. if i == 13 then 0x200000F4 else 9 }

pop-push_example :
    (instr_pop words 0xBC13 (record (instr_push words 0xB413 machine0) { cpu = clobbered })).cpu.r 4
    ≡ 0x80000001
unfolding instr_push
pop-push_example =
    pop-push words 0x20000000 0x20000100 words-IsRam 0xB413 0xBC13 4 machine0 clobbered cpu0-IsWord
      (omega arith) (omega arith) refl refl refl refl

-- PUSH {r0, r1, r4, lr} and POP {r0, r1, r4, pc}.
abbrev returning : Cpu
returning = record cpu0 { r = λ i. if i == 13 then 0x200000F0 else 9 }

pop-push_return_example :
    (instr_pop words 0xBD13 (record (instr_push words 0xB513 machine0) { cpu = returning })).cpu.r
      15
    ≡ 0x10000200
unfolding instr_push
pop-push_return_example =
    pop-push_return words 0x20000000 0x20000100 words-IsRam 0xB513 0xBD13 15 machine0 returning
      cpu0-IsWord (omega arith) (omega arith) refl refl refl refl refl

-- ===== src/Thumb32/Step.antt =====
-- `thumb32_step` of src/thumb32.c, with the accesses of the exclusive monitor. The vector, coprocessor
-- and floating-point decoders of the same file, the answer of TT and the monitor are parameters.
use picoemu.Base.{
  ℕ, ◌+◌, ◌-◌, bit_and, Bool, true, false, not, ◌&&◌, ◌||◌, ◌==◌, leb, if◌then◌else◌, Option, none,
  some, ◌>>◌, u32,
}
use picoemu.Thumb.State.{Cpu, set_pc, Machine, Env, on_cpu}
use picoemu.Thumb.Flags.{bits, test}
use picoemu.Thumb32.Alu.{t32_dp_shifted_reg, t32_dp_mod_imm, t32_dp_plain_imm}
use picoemu.Thumb32.Branches.{t32_bl, t32_branch, t32_tbb_tbh}
use picoemu.Thumb32.Dsp.{set_low}
use picoemu.Thumb32.Misc.{matches, or_else, otherwise, t32_misc}
use picoemu.Thumb32.Transfer.{put_read, t32_ldst_multiple, t32_ldrd_strd, t32_ldst_single}

-- What the step calls besides `Env`. A decoder takes `pc`, `upper` and `lower` and gives `none` where the
-- code's returns 0; `t32_vfp` is `dcp`'s successor. `wide` is `1u << 32`, which C leaves open.
pub record StepEnv (W : Type 0) : Type 0 where
  pub env : Env W
  pub wide : ℕ
  pub t32_mve : ℕ → ℕ → ℕ → Machine W → Option (Machine W)
  pub t32_dcp : ℕ → ℕ → ℕ → Machine W → Option (Machine W)
  pub t32_dcp2 : ℕ → ℕ → ℕ → Machine W → Option (Machine W)
  pub t32_vfp : ℕ → ℕ → ℕ → Machine W → Option (Machine W)
  pub t32_vsel : ℕ → ℕ → ℕ → Machine W → Option (Machine W)
  pub tt_answer : ℕ → Bool → Machine W → ℕ
  pub arm_excl_set : ℕ → ℕ → W → W
  pub arm_excl_store : ℕ → ℕ → W → Bool × W

module _ {W : Type 0} (s : StepEnv W) where
  -- A read and a write of 1, 2 or 4 bytes by the field `sz`; 3 reads 0 and writes nothing.
  abbrev pub sized_read : ℕ → ℕ → W → ℕ × W
  sized_read sz addr w =
      if sz == 0
      then s.env.mem_read8 addr w
      else if sz == 1
      then s.env.mem_read16 addr w
      else if sz == 2
      then s.env.mem_read32 addr w
      else (0, w)

  abbrev sized_write : ℕ → ℕ → ℕ → W → W
  sized_write sz addr v w =
      if sz == 0
      then s.env.mem_write8 addr (bit_and v 0xFF) w
      else if sz == 1
      then s.env.mem_write16 addr (bit_and v 0xFFFF) w
      else if sz == 2
      then s.env.mem_write32 addr v w
      else w

  -- `if (Rt != 15) cpu.r[Rt] = v;`
  abbrev load_low : ℕ → ℕ × W → Machine W → Machine W
  load_low rt read m = record m { cpu = set_low rt read.0 m.cpu; world = read.1 }

  abbrev reserve : ℕ → Machine W → Machine W
  reserve addr m = record m { world = s.arm_excl_set m.active_core addr m.world }

  -- A store that the monitor may refuse, with the answer 0 or 1 in Rd.
  unfoldable pub exclusive_store : ℕ → ℕ → ℕ → ℕ → Machine W → Machine W
  exclusive_store sz rt rd addr m =
      let (ok, w) = s.arm_excl_store m.active_core addr m.world in
      let stored = if ok then sized_write sz addr (m.cpu.r rt) w else w in
      record m { cpu = set_low rd (if ok then 0 else 1) m.cpu; world = stored }

  -- LDAEX and STREX by size.
  unfoldable pub exclusive : ℕ → ℕ → Machine W → Machine W
  unfolding exclusive_store
  exclusive upper lower m =
      let sz = bits lower 4 0x3 in
      let rt = bits lower 12 0xF in
      let addr = m.cpu.r (bit_and upper 0xF) in
      if test upper 0x0010
      then reserve addr (load_low rt (sized_read sz addr m.world) m)
      else exclusive_store sz rt (bit_and lower 0xF) addr m

  -- LDAB, LDAH and LDA, STLB, STLH and STL.
  unfoldable pub acquire_release : ℕ → ℕ → Machine W → Machine W
  acquire_release upper lower m =
      let sz = bits lower 4 0xF - 0x8 in
      let rt = bits lower 12 0xF in
      let addr = m.cpu.r (bit_and upper 0xF) in
      if test upper 0x0010
      then load_low rt (sized_read sz addr m.world) m
      else record m { world = sized_write sz addr (m.cpu.r rt) m.world }

  -- LDREX. For Rt = 15 no read is made, but the guard excludes it.
  unfoldable pub ldrex : ℕ → ℕ → Machine W → Machine W
  ldrex upper lower m =
      let addr = m.cpu.r (bit_and upper 0xF) in
      let rt = bits lower 12 0xF in
      reserve addr
        (if not (rt == 15) then put_read s.env rt (λ v. v) (s.env.mem_read32 addr m.world) m else m)

  abbrev pub with_cpu : Option Cpu → Machine W → Option (Machine W)
  with_cpu none m = none
  with_cpu (some c) m = some (record m { cpu = c })

  abbrev pub lift_misc : ℕ → ℕ → Machine W → Option (Machine W)
  lift_misc upper lower m = with_cpu (t32_misc s.wide upper lower m.cpu) m

  -- EC and EE are left as they are when the floating-point decoder declines, ED goes on.
  abbrev pub vfp_group : ℕ → ℕ → ℕ → Machine W → Option (Machine W)
  vfp_group pc upper lower m =
      let vfp = s.t32_vfp pc upper lower m in
      if matches upper 0xFC00 0xEC00 || matches upper 0xFE00 0xEE00
      then or_else vfp (some m)
      else if matches upper 0xFF00 0xED00
      then vfp
      else none

  -- From TT to the data processing instructions.
  unfoldable pub step_e8 : ℕ → ℕ → ℕ → Machine W → Machine W
  unfolding exclusive acquire_release ldrex exclusive_store
  step_e8 pc upper lower m =
      let rd = bits lower 8 0xF in
      let is_load = test upper 0x0010 in
      let agrees = if test lower 0x0080 then is_load else not is_load in
      let c0_d0 = matches upper 0xFFF0 0xE8C0 || matches upper 0xFFF0 0xE8D0 in
      let sub = bits lower 4 0xF in
      let tt = s.tt_answer (m.cpu.r (bit_and upper 0xF)) (not (sub == 0)) m in
      if matches upper 0xFFF0 0xE840 && matches lower 0xFF0F 0xF200
      then on_cpu (set_low rd tt) m
      else if c0_d0 && matches lower 0x0F00 0x0F00 && agrees
      then exclusive upper lower m
      else if c0_d0
          && matches lower 0x0F00 0x0F00
          && matches lower 0x000F 0x000F
          && leb 0x8 sub
          && leb sub 0xA
      then acquire_release upper lower m
      else if matches upper 0xFFF0 0xE8D0 && matches lower 0xF000 0xF000
      then t32_tbb_tbh s.env pc upper lower m
      else if matches upper 0xFFF0 0xE850
          && not (matches lower 0xF000 0xF000)
          && matches lower 0x0FFF 0x0F00
      then ldrex upper lower m
      else if matches upper 0xFFF0 0xE840
          && not (matches lower 0xF000 0xF000)
          && matches lower 0x00FF 0x0000
          && not (rd == 0xF)
      then exclusive_store 2 (bits lower 12 0xF) rd (m.cpu.r (bit_and upper 0xF)) m
      else if bits upper 9 3 == 0
      then (if test upper 0x0040
          then t32_ldrd_strd s.env upper lower m
          else t32_ldst_multiple s.env pc upper lower m)
      else on_cpu (t32_dp_shifted_reg upper lower) m

  -- The group 11101.
  unfoldable pub step_group_e : ℕ → ℕ → ℕ → Machine W → Machine W
  unfolding step_e8
  step_group_e pc upper lower m =
      let handled = or_else (s.t32_mve pc upper lower m) (
        or_else (lift_misc upper lower m)
          (or_else (s.t32_dcp pc upper lower m) (vfp_group pc upper lower m))) in
      otherwise handled (step_e8 pc upper lower m)

  -- The group 11110. The test for floating point never holds in this group.
  unfoldable pub step_group_f0 : ℕ → ℕ → ℕ → Machine W → Machine W
  step_group_f0 pc upper lower m =
      let fpu = matches upper 0xEF00 0xEE00 || matches upper 0xEF00 0xED00 in
      let rest =
        if fpu
        then m
        else if matches lower 0xD000 0xD000
        then on_cpu (t32_bl pc upper lower) m
        else if test lower 0x8000
        then on_cpu (t32_branch pc upper lower) m
        else if test upper 0x0200
        then t32_dp_plain_imm s.env pc upper lower m
        else on_cpu (t32_dp_mod_imm upper lower) m in
      otherwise (lift_misc upper lower m) rest

  -- The group 11111.
  unfoldable pub step_group_f8 : ℕ → ℕ → ℕ → Machine W → Machine W
  step_group_f8 pc upper lower m =
      let handled = or_else (s.t32_mve pc upper lower m) (
        or_else (s.t32_dcp2 pc upper lower m)
          (or_else (s.t32_vsel pc upper lower m) (lift_misc upper lower m))) in
      otherwise handled (t32_ldst_single s.env pc upper lower m)

  -- `none` where the function returns 0; the program counter has moved on then, too.
  unfoldable pub thumb32_step : ℕ → ℕ → ℕ → Machine W → Bool × Machine W
  unfolding step_group_e step_group_f0 step_group_f8
  thumb32_step pc upper lower machine =
      let m = on_cpu (set_pc (u32 (pc + 4))) machine in
      let top5 = upper >> 11 in
      if top5 == 0x1D
      then (true, step_group_e pc upper lower m)
      else if top5 == 0x1E
      then (true, step_group_f0 pc upper lower m)
      else if top5 == 0x1F
      then (true, step_group_f8 pc upper lower m)
      else (false, m)

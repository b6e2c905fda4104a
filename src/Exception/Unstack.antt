-- ===== src/Exception/Unstack.antt =====
-- The registers that exception return of src/cpu.c takes from a frame.
use picoemu.Base.{ℕ, ◌+◌, ◌≤◌, ◌≡◌, bit_and, ◌||◌, leb, ◌==◌, if◌then◌else◌, u32, not32, arith}
use picoemu.Thumb.State.{Cpu}
use picoemu.Nvic.State.{Ppb}
use picoemu.Exception.State.{Core, ExceptionEnv}
use picoemu.Exception.Exit.{pop_frame}
use picoemu.Exception.Frame.{IsStackRam}

-- What stands in a register after the pop: the frame's, or the handler's.
abbrev pub popped : Cpu → Cpu → ℕ → ℕ
popped c now i =
    if i == 15
    then bit_and (c.r 15) (not32 1)
    else if i == 13
    then now.r 13 + 32
    else if leb i 3 || ((i == 12) || (i == 14))
    then c.r i
    else now.r i

module _ {W : Type 0} (env : ExceptionEnv W) where
  -- Eight words from `sp` up hold the frame of a register file.
  pub record Framed (c : Cpu) (sp : ℕ) (p : Ppb W) : Type 0 where
    pub r0 : (env.mem_read32 sp p).0 ≡ c.r 0
    pub r1 : (env.mem_read32 (u32 (sp + 4)) p).0 ≡ c.r 1
    pub r2 : (env.mem_read32 (u32 (sp + 8)) p).0 ≡ c.r 2
    pub r3 : (env.mem_read32 (u32 (sp + 12)) p).0 ≡ c.r 3
    pub r12 : (env.mem_read32 (u32 (sp + 16)) p).0 ≡ c.r 12
    pub lr : (env.mem_read32 (u32 (sp + 20)) p).0 ≡ c.r 14
    pub pc : (env.mem_read32 (u32 (sp + 24)) p).0 ≡ c.r 15
    pub status : (env.mem_read32 (u32 (sp + 28)) p).0 ≡ c.xpsr

  module _ (lo hi : ℕ) (ram : IsStackRam env lo hi) (c : Cpu) (q : Core W) where
    module _ (low : lo ≤ q.cpu.r 13) (top : q.cpu.r 13 + 32 ≤ hi) where
      pure_at : (k : ℕ) → k ≤ 28 → (env.mem_read32 (u32 (q.cpu.r 13 + k)) q.ppb).1 ≡ q.ppb
      pure_at k h =
          ram.read_pure (u32 (q.cpu.r 13 + k)) q.ppb (omega (arith, ram.bounded))
            (omega (arith, ram.bounded))

      pure_first : (env.mem_read32 (q.cpu.r 13) q.ppb).1 ≡ q.ppb
      pure_first = ram.read_pure (q.cpu.r 13) q.ppb low (omega arith)

      pub pop_frame-r :
          (i : ℕ) → Framed c (q.cpu.r 13) q.ppb → (pop_frame env q).cpu.r i ≡ popped c q.cpu i
      unfolding pop_frame
      pop_frame-r i f =
          rw
            (
              pure_first,
              pure_at 4 (omega arith),
              pure_at 8 (omega arith),
              pure_at 12 (omega arith),
              pure_at 16 (omega arith),
              pure_at 20 (omega arith),
              f.r0,
              f.r1,
              f.r2,
              f.r3,
              f.r12,
              f.lr,
              f.pc,
            )
            (ground (arith, ram.bounded))

      pub pop_frame-xpsr : Framed c (q.cpu.r 13) q.ppb → (pop_frame env q).cpu.xpsr ≡ c.xpsr
      unfolding pop_frame
      pop_frame-xpsr f =
          rw
            (
              pure_first,
              pure_at 4 (omega arith),
              pure_at 8 (omega arith),
              pure_at 12 (omega arith),
              pure_at 16 (omega arith),
              pure_at 20 (omega arith),
              pure_at 24 (omega arith),
            )
            f.status

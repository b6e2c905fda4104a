-- ===== src/Thumb/Logic.antt =====
-- Bitwise instructions, extensions and byte reversals of src/instructions.c.
use picoemu.Base.{ℕ, bit_and, bit_or, bit_xor, ◌<<◌, ◌>>◌, u16, u32, not32}
use picoemu.Thumb.State.{Cpu, set_reg}
use picoemu.Thumb.Flags.{bits, update_nz_flags, sign_extend_8, sign_extend_16}
use picoemu.Thumb.Arith.{keep_flags}

unfoldable pub instr_tst_reg_reg : ℕ → Cpu → Cpu
instr_tst_reg_reg instr c =
    let result = bit_and (c.r (bit_and instr 0x07)) (c.r (bits instr 3 0x07)) in
    update_nz_flags result (keep_flags c)

-- `cpu.r[dst] = f(cpu.r[dst], cpu.r[src])` with N and Z, the shape of the next five.
abbrev pub alu : (ℕ → ℕ → ℕ) → ℕ → Cpu → Cpu
alu f instr c =
    let dst = bit_and instr 0x07 in
    let result = f (c.r dst) (c.r (bits instr 3 0x07)) in
    update_nz_flags result (set_reg dst result c)

unfoldable pub instr_bitwise_and : ℕ → Cpu → Cpu
instr_bitwise_and instr c = alu bit_and instr c

unfoldable pub instr_bitwise_eor : ℕ → Cpu → Cpu
instr_bitwise_eor instr c = alu bit_xor instr c

unfoldable pub instr_bitwise_orr : ℕ → Cpu → Cpu
instr_bitwise_orr instr c = alu bit_or instr c

unfoldable pub instr_bitwise_bic : ℕ → Cpu → Cpu
instr_bitwise_bic instr c = alu (λ d s. bit_and d (not32 s)) instr c

unfoldable pub instr_bitwise_mvn : ℕ → Cpu → Cpu
instr_bitwise_mvn instr c = alu (λ d s. not32 s) instr c

unfoldable pub instr_teq_reg : ℕ → Cpu → Cpu
instr_teq_reg instr c =
    update_nz_flags (bit_xor (c.r (bit_and instr 0x07)) (c.r (bits instr 3 0x07))) c

unfoldable pub instr_sxtb : ℕ → Cpu → Cpu
instr_sxtb instr c =
    set_reg (bit_and instr 0x07) (sign_extend_8 (bit_and (c.r (bits instr 3 0x07)) 0xFF)) c

unfoldable pub instr_sxth : ℕ → Cpu → Cpu
instr_sxth instr c =
    set_reg (bit_and instr 0x07) (sign_extend_16 (bit_and (c.r (bits instr 3 0x07)) 0xFFFF)) c

unfoldable pub instr_uxtb : ℕ → Cpu → Cpu
instr_uxtb instr c = set_reg (bit_and instr 0x07) (bit_and (c.r (bits instr 3 0x07)) 0xFF) c

unfoldable pub instr_uxth : ℕ → Cpu → Cpu
instr_uxth instr c = set_reg (bit_and instr 0x07) (bit_and (c.r (bits instr 3 0x07)) 0xFFFF) c

-- The word that `instr_rev` stores.
unfoldable pub reverse_bytes : ℕ → ℕ
reverse_bytes value =
    bit_or
      (bit_or (bit_or (u32 (bit_and value 0xFF << 24)) (u32 (bit_and value 0xFF00 << 8)))
        (bit_and value 0xFF0000 >> 8))
      (bit_and (value >> 24) 0xFF)

unfoldable pub instr_rev : ℕ → Cpu → Cpu
instr_rev instr c = set_reg (bit_and instr 0x07) (reverse_bytes (c.r (bits instr 3 0x07))) c

-- The word that `instr_rev16` stores.
unfoldable pub reverse_pairs : ℕ → ℕ
reverse_pairs value = bit_or (u32 (bit_and value 0x00FF00FF << 8)) (bit_and value 0xFF00FF00 >> 8)

unfoldable pub instr_rev16 : ℕ → Cpu → Cpu
instr_rev16 instr c = set_reg (bit_and instr 0x07) (reverse_pairs (c.r (bits instr 3 0x07))) c

unfoldable pub instr_revsh : ℕ → Cpu → Cpu
instr_revsh instr c =
    let value = bit_and (c.r (bits instr 3 0x07)) 0xFFFF in
    let reversed = u16 (bit_or (bit_and value 0xFF << 8) (bit_and value 0xFF00 >> 8)) in
    set_reg (bit_and instr 0x07) (sign_extend_16 reversed) c

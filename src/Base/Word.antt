-- ===== src/Base/Word.antt =====
-- Casts to the fixed widths of C, its shifts and `~`, and the integer that an `int32_t` stands for.
use Prim.Native.Nat.{ℕ, ◌+◌, ◌-◌, ◌*◌, ◌/◌, ◌%◌, ◌^◌}
use picoemu.Base.Tests.{ltb, if◌then◌else◌}

abbrev pub u8 : ℕ → ℕ
u8 n = n % 2 ^ 8

abbrev pub u16 : ℕ → ℕ
u16 n = n % 2 ^ 16

abbrev pub u32 : ℕ → ℕ
u32 n = n % 2 ^ 32

abbrev pub u64 : ℕ → ℕ
u64 n = n % 2 ^ 64

infixl 72 ◌<<◌ ◌>>◌
abbrev pub ◌<<◌ : ℕ → ℕ → ℕ
x << k = x * 2 ^ k

abbrev pub ◌>>◌ : ℕ → ℕ → ℕ
x >> k = x / 2 ^ k

-- `a - b` and `~a` of `uint32_t` values.
abbrev pub sub32 : ℕ → ℕ → ℕ
sub32 a b = (a + 2 ^ 32 - b) % 2 ^ 32

abbrev pub not32 : ℕ → ℕ
not32 a = 0xFFFFFFFF - a

-- `(int32_t)a >> k`: the complement of a negative pattern is shifted and complemented back.
abbrev pub asr32 : ℕ → ℕ → ℕ
asr32 a k = if ltb a (2 ^ 31) then a >> k else not32 (not32 a >> k)

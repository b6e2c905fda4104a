-- ===== src/Sio/Spinlock.antt =====
-- The hardware spinlocks of src/cpu.c and their state word of src/membus.c.
use picoemu.Base.{ℕ, zero, suc, bit_and, bit_or, Bool, not, leb, ◌==◌, if◌then◌else◌, ◌<<◌}
use picoemu.Thumb.State.{update}

-- `spinlocks[i] & SPINLOCK_LOCKED`
abbrev pub is_locked : (ℕ → ℕ) → ℕ → Bool
is_locked spinlocks i = not (bit_and (spinlocks i) 1 == 0)

-- What is read, and the locks after it.
unfoldable pub spinlock_acquire : ℕ → (ℕ → ℕ) → ℕ × (ℕ → ℕ)
spinlock_acquire lock_num spinlocks =
    if leb 32 lock_num
    then (0, spinlocks)
    else if is_locked spinlocks lock_num
    then (0, spinlocks)
    else (1 << lock_num, update spinlocks lock_num 0x80000001)

unfoldable pub spinlock_release : ℕ → (ℕ → ℕ) → (ℕ → ℕ)
spinlock_release lock_num spinlocks =
    if leb 32 lock_num then spinlocks else update spinlocks lock_num 0

-- The `for` over the first `n` locks.
unfoldable pub lock_bits : ℕ → (ℕ → ℕ) → ℕ
lock_bits zero spinlocks = 0
lock_bits (suc i) spinlocks =
    let bits = lock_bits i spinlocks in if is_locked spinlocks i then bit_or bits (1 << i) else bits

abbrev pub sio_spinlock_state_bitmap : (ℕ → ℕ) → ℕ
sio_spinlock_state_bitmap spinlocks = lock_bits 32 spinlocks

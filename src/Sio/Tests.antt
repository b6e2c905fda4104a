-- ===== src/Sio/Tests.antt =====
-- The theorems on the single-cycle IO block at concrete states.
use picoemu.Base.{
  ℕ, ◌+◌, ◌*◌, ◌/◌, ◌%◌, ◌^◌, ◌<◌, ◌≡◌, refl, ◌⊎◌, true, none, some, List, [], ◌∷◌, arith,
}
use picoemu.Sio.Divider.{
  Divider, signed_quotient, signed_remainder, sio_read_divider, sio_write_divider,
}
use picoemu.Sio.Division.{unsigned_division}
use picoemu.Sio.Spinlock.{is_locked, spinlock_acquire, spinlock_release, sio_spinlock_state_bitmap}
use picoemu.Sio.Locks.{acquire-release, bitmap-is_locked}
use picoemu.Sio.Fifo.{MulticoreFifo, Fifos}
use picoemu.Sio.Queue.{
  Holds, Operation, push, pop, fifo_run, queue_run, queue_step, fifo_run-queue_run,
}

abbrev idle : Divider
idle = record {
  udividend = 0;
  udivisor = 0;
  sdividend = 0;
  sdivisor = 0;
  quotient = 0;
  remainder = 0;
  csr = 1;
}

abbrev seven : ℕ
seven = 7

unsigned_division_example :
    let first = sio_write_divider 0x64 7 (sio_write_divider 0x60 100 idle) in
    let second = sio_write_divider 0x60 100 (sio_write_divider 0x64 7 idle) in
    let q = (sio_read_divider 0x70 first).0 in
    let r = (sio_read_divider 0x74 (sio_read_divider 0x70 first).1).0 in
    (first ≡ second)
    × (((q * 7 + r ≡ 100) × (r < 7)) ⊎ ((seven ≡ 0) × (q ≡ 0xFFFFFFFF) × (r ≡ 100)))
    × (first.csr ≡ 3)
    × ((sio_read_divider 0x70 first).1.csr ≡ 1)
unsigned_division_example = unsigned_division 100 7 idle

-- -100 / 7 is -14, and -2 is left.
minus_hundred : signed_quotient 0xFFFFFF9C 7 ≡ 0xFFFFFFF2
unfolding signed_quotient
minus_hundred = refl

minus_two : signed_remainder 0xFFFFFF9C 7 ≡ 0xFFFFFFFE
unfolding signed_remainder
minus_two = refl

abbrev free_locks : ℕ → ℕ
free_locks i = 0

abbrev lock : ℕ
lock = 5

acquire-release_example :
    let (got, after) = spinlock_acquire 5 free_locks in
    (got ≡ 32)
    × (is_locked after 5 ≡ true)
    × (spinlock_acquire 5 after ≡ (0, after))
    × ((spinlock_acquire 5 (spinlock_release 5 after)).0 ≡ 32)
    × (((after 6 ≡ 0) × (spinlock_release 5 after 6 ≡ 0)) ⊎ (lock ≡ 6))
acquire-release_example = acquire-release 5 6 free_locks (omega arith)

abbrev all_taken : ℕ → ℕ
all_taken i = 0x80000001

bitmap-is_locked_example : sio_spinlock_state_bitmap all_taken / 2 ^ 31 % 2 ≡ 1
bitmap-is_locked_example = bitmap-is_locked 31 all_taken (omega arith)

abbrev empty : MulticoreFifo
empty = record { messages = λ i. 0; write_ptr = 0; read_ptr = 0; count = 0 }

empty-Holds : Holds empty []
empty-Holds = record {
  size = refl;
  room = omega arith;
  start = omega arith;
  end = refl;
  slots = λ i h. absurd (omega arith);
}

abbrev handshake : List Operation
handshake = push 1 7 ∷ push 0 9 ∷ pop 1 ∷ pop 1 ∷ pop 0 ∷ []

abbrev quiet : Fifos ℕ
quiet = record { fifo = λ j. empty; nvic = 0 }

fifo_run-queue_run_example :
    fifo_run (λ irq pending. pending + 2 ^ irq) handshake quiet
    ≡ some 1 ∷ some 1 ∷ some 7 ∷ none ∷ some 9 ∷ []
unfolding queue_run queue_step
fifo_run-queue_run_example =
    fifo_run-queue_run (λ irq pending. pending + 2 ^ irq) handshake quiet (λ j. [])
      (λ j. empty-Holds)

-- ===== src/Membus/Bytes.antt =====
-- Numbers of `n` bytes in an array of bytes, lowest byte first: `memcpy` between an integer and an array
-- on the little-endian hosts that src/membus.c is written for.
use native.Mathlib.Nat.{pow-suc, pow-succ', div-div-eq-div-mul}
use picoemu.Base.{
  ℕ, zero, suc, ◌+◌, ◌*◌, ◌/◌, ◌%◌, ◌^◌, ◌≤◌, ◌<◌, ◌≡◌, refl, ap, ◌∙◌, ◌⊎◌, inl, inr, arith,
}
use picoemu.Thumb.State.{update}

unfoldable pub load : ℕ → (ℕ → ℕ) → ℕ → ℕ
load zero ram i = 0
load (suc n) ram i = ram i + 256 * load n ram (i + 1)

unfoldable pub store : ℕ → ℕ → ℕ → (ℕ → ℕ) → (ℕ → ℕ)
store zero i v ram = ram
store (suc n) i v ram = store n (i + 1) (v / 256) (update ram i (v % 256))

-- A store changes no byte outside.
pub store-outside : (n i v j : ℕ) (ram : ℕ → ℕ) → (j < i) ⊎ (i + n ≤ j) → store n i v ram j ≡ ram j
unfolding store
store-outside zero i v j ram out = refl
store-outside (suc n) i v j ram (inl low) =
    store-outside n (i + 1) (v / 256) j (update ram i (v % 256)) (inl (omega arith)) ∙ ground arith
store-outside (suc n) i v j ram (inr high) =
    store-outside n (i + 1) (v / 256) j (update ram i (v % 256)) (inr (omega arith)) ∙ ground arith

-- Byte `k` of the number that was stored.
pub store-byte : (n i v k : ℕ) (ram : ℕ → ℕ) → k < n → store n i v ram (i + k) ≡ v / 256 ^ k % 256
unfolding store
store-byte zero i v k ram h = absurd (omega arith)
store-byte (suc n) i v zero ram h =
    store-outside n (i + 1) (v / 256) (i + 0) (update ram i (v % 256)) (inl (omega arith))
    ∙ ground arith
store-byte (suc n) i v (suc k) ram h =
    ap (store n (i + 1) (v / 256) (update ram i (v % 256))) {x = i + suc k} {y = i + 1 + k}
      (omega arith)
    ∙ store-byte n (i + 1) (v / 256) k (update ram i (v % 256)) (omega arith)
    ∙ rw (pow-succ' 256 k, div-div-eq-div-mul v 256 (256 ^ k)) refl

pub load-same :
    (n i : ℕ) (ram ram' : ℕ → ℕ)
    → ((j : ℕ) → i ≤ j → j < i + n → ram j ≡ ram' j)
    → load n ram i ≡ load n ram' i
unfolding load
load-same zero i ram ram' h = refl
load-same (suc n) i ram ram' h = omega (
  arith,
  h i (omega arith) (omega arith),
  load-same n (i + 1) ram ram' (λ j low high. h j (omega arith) (omega arith)),
)

pub load-store : (n i v : ℕ) (ram : ℕ → ℕ) → v < 256 ^ n → load n (store n i v ram) i ≡ v
unfolding load store
load-store zero i v ram h = omega arith
load-store (suc n) i v ram h =
    let next =
      load-store n (i + 1) (v / 256) (update ram i (v % 256)) (omega (arith, pow-suc 256 n)) in
    let first = store-outside n (i + 1) (v / 256) i (update ram i (v % 256)) (inl (omega arith)) in
    ground (arith, next, first)

pub load-other :
    (m n i j v : ℕ) (ram : ℕ → ℕ)
    → (i + n ≤ j) ⊎ (j + m ≤ i)
    → load m (store n i v ram) j ≡ load m ram j
load-other m n i j v ram apart = load-same m j (store n i v ram) ram (λ k low high.
    store-outside n i v k ram
      (elim apart [ inl a ↦ inr (omega arith) | inr a ↦ inl (omega arith) ]))

pub load_two : (ram : ℕ → ℕ) (i : ℕ) → load 2 ram i ≡ ram i + 256 * ram (i + 1)
unfolding load
load_two ram i = omega arith

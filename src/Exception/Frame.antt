-- ===== src/Exception/Frame.antt =====
-- The frame that exception entry of src/cpu.c stores, read back word by word.
use picoemu.Base.{
  ℕ, zero, suc, ◌+◌, ◌-◌, ◌*◌, ◌^◌, ◌≤◌, ◌<◌, ◌≡◌, refl, ap, ◌∙◌, List, [], ◌∷◌, length, get_or,
  sub32, arith,
}
use picoemu.Thumb.State.{Cpu, IsWord}
use picoemu.Nvic.State.{Ppb}
use picoemu.Exception.State.{ExceptionEnv}
use picoemu.Exception.Entry.{push_frame}

-- A window of the address space that holds words, and that the profiling leaves alone.
pub record IsStackRam {W : Type 0} (env : ExceptionEnv W) (lo hi : ℕ) : Type 0 where
  pub bounded : hi < 2 ^ 32
  pub read_pure : (a : ℕ) (p : Ppb W) → lo ≤ a → a + 4 ≤ hi → (env.mem_read32 a p).1 ≡ p
  pub read_self :
      (a v : ℕ) (p : Ppb W)
      → lo ≤ a
      → a + 4 ≤ hi
      → v < 2 ^ 32
      → (env.mem_read32 a (env.mem_write32 a v p)).0 ≡ v
  pub read_other :
      (a b v : ℕ) (p : Ppb W)
      → lo ≤ a
      → a + 4 ≤ b
      → b + 4 ≤ hi
      → (env.mem_read32 b (env.mem_write32 a v p)).0 ≡ (env.mem_read32 b p).0
  pub profiling :
      (a n : ℕ) (p : Ppb W)
      → lo ≤ a
      → a + 4 ≤ hi
      → (env.mem_read32 a (record p { world = env.irq_latency_enter n p.world })).0
        ≡ (env.mem_read32 a p).0

-- The frame as a list, from the highest word down.
abbrev pub frame_words : Cpu → List ℕ
frame_words c = c.xpsr ∷ c.r 15 ∷ c.r 14 ∷ c.r 12 ∷ c.r 3 ∷ c.r 2 ∷ c.r 1 ∷ c.r 0 ∷ []

sub-four : (sp : ℕ) → 4 ≤ sp → sp < 2 ^ 32 → sub32 sp 4 ≡ sp - 4
sub-four sp low high = omega arith

module _ {W : Type 0} (env : ExceptionEnv W) where
  -- The words of a list, each stored below the one before.
  push_words : List ℕ → ℕ → Ppb W → Ppb W
  push_words [] sp p = p
  push_words (v ∷ vs) sp p = push_words vs (sub32 sp 4) (env.mem_write32 (sub32 sp 4) v p)

  module _ (lo hi : ℕ) (ram : IsStackRam env lo hi) where
    above-push_words :
        (vs : List ℕ) (sp b : ℕ) (p : Ppb W)
        → lo + 4 * length vs ≤ sp
        → sp ≤ b
        → b + 4 ≤ hi
        → (env.mem_read32 b (push_words vs sp p)).0 ≡ (env.mem_read32 b p).0
    unfolding push_words
    above-push_words [] sp b p room above top = refl
    above-push_words (v ∷ vs) sp b p room above top =
        let next = sub-four sp (omega arith) (omega (arith, ram.bounded)) in
        above-push_words vs (sub32 sp 4) b (env.mem_write32 (sub32 sp 4) v p) (omega (arith, next))
          (omega (arith, next)) top
        ∙ ram.read_other (sub32 sp 4) b v p (omega (arith, next)) (omega (arith, next)) top

    -- Word `k` of the list is found `k + 1` words below the old stack pointer.
    read-push_words :
        (vs : List ℕ) (k sp : ℕ) (p : Ppb W)
        → ((i : ℕ) → get_or vs i 0 < 2 ^ 32)
        → k < length vs
        → lo + 4 * length vs ≤ sp
        → sp ≤ hi
        → (env.mem_read32 (sp - 4 * (k + 1)) (push_words vs sp p)).0 ≡ get_or vs k 0
    unfolding push_words
    read-push_words [] k sp p words inside room top = absurd (omega arith)
    read-push_words (v ∷ vs) zero sp p words inside room top =
        let next = sub-four sp (omega arith) (omega (arith, ram.bounded)) in
        let low = sub32 sp 4 in
        ap (λ (t : ℕ). (env.mem_read32 t (push_words vs low (env.mem_write32 low v p))).0)
          {x = sp - 4 * (0 + 1)} {y = low} (omega (arith, next))
        ∙ above-push_words vs low low (env.mem_write32 low v p) (omega (arith, next)) (omega arith)
            (omega (arith, next))
        ∙ ram.read_self low v p (omega (arith, next)) (omega (arith, next)) (words 0)
    read-push_words (v ∷ vs) (suc k) sp p words inside room top =
        let next = sub-four sp (omega arith) (omega (arith, ram.bounded)) in
        let low = sub32 sp 4 in
        ap (λ (t : ℕ). (env.mem_read32 t (push_words vs low (env.mem_write32 low v p))).0)
          {x = sp - 4 * (suc k + 1)} {y = low - 4 * (k + 1)} (omega (arith, next))
        ∙ read-push_words vs k low (env.mem_write32 low v p) (λ i. words (suc i)) (omega arith)
            (omega (arith, next)) (omega (arith, next))

    words-lt : (c : Cpu) → IsWord c → (i : ℕ) → get_or (frame_words c) i 0 < 2 ^ 32
    words-lt c word zero = word.status
    words-lt c word (suc zero) = word.regs 15
    words-lt c word (suc (suc zero)) = word.regs 14
    words-lt c word (suc (suc (suc zero))) = word.regs 12
    words-lt c word (suc (suc (suc (suc zero)))) = word.regs 3
    words-lt c word (suc (suc (suc (suc (suc zero))))) = word.regs 2
    words-lt c word (suc (suc (suc (suc (suc (suc zero)))))) = word.regs 1
    words-lt c word (suc (suc (suc (suc (suc (suc (suc zero))))))) = word.regs 0
    words-lt c word (suc (suc (suc (suc (suc (suc (suc (suc i)))))))) = omega arith

    module _ (c : Cpu) (p : Ppb W) (word : IsWord c) (room : lo + 32 ≤ c.r 13)
        (top : c.r 13 ≤ hi) where
      -- The stack pointer after the frame, and the frame's words from there up.
      pub push_frame-sp : (push_frame env c p).0 ≡ c.r 13 - 32
      unfolding push_frame
      push_frame-sp = omega (arith, ram.bounded)

      pub frame_word :
          (k : ℕ)
          → k < 8
          → (env.mem_read32 (c.r 13 - 4 * (k + 1)) (push_frame env c p).1).0
            ≡ get_or (frame_words c) k 0
      unfolding push_frame push_words
      frame_word k inside =
          read-push_words (frame_words c) k (c.r 13) p (words-lt c word) inside room top

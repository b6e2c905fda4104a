-- ===== src/Uart/Rings.antt =====
-- The bytes that a receive FIFO of src/uart.c holds, and what leaves them as they are.
use picoemu.Base.{
  ==_iff, ℕ, suc, ◌+◌, ◌%◌, ◌≤◌, ◌<◌, ◌≡◌, refl, sym, ap, ◌∙◌, ◌≢◌, Bool, true, false, ◌==◌,
  Bool-cases, inl, inr, if◌then◌else◌, List, [], ◌∷◌, ◌++◌, length, get_or, length-append,
  get_or-append, get_or-last, arith,
}
use picoemu.Thumb.State.{update}
use picoemu.Sio.Queue.{set_queue}
use picoemu.Uart.Ports.{Uart, Uarts, set_uart, drop_byte}

-- The fields of the receive FIFO.
pub record Ring : Type 0 where
  pub slot : ℕ → ℕ
  pub head : ℕ
  pub tail : ℕ
  pub count : ℕ

abbrev pub ring : Uart → Ring
ring u = record { slot = u.rx_fifo; head = u.rx_head; tail = u.rx_tail; count = u.rx_count }

-- The FIFO holds the bytes `q`, the oldest first, from the tail on around the array.
pub record HoldsBytes (f : Ring) (q : List ℕ) : Type 0 where
  pub size : f.count ≡ length q
  pub room : length q ≤ 16
  pub start : f.tail < 16
  pub end : f.head ≡ (f.tail + length q) % 16
  pub slots : (i : ℕ) → i < length q → f.slot ((f.tail + i) % 16) ≡ get_or q i 0

module _ (u : Uart) where
  pub put-HoldsBytes :
      (q : List ℕ) (v ctr : ℕ)
      → HoldsBytes (ring u) q
      → length q < 16
      → HoldsBytes
          (record {
            slot = update u.rx_fifo u.rx_head v;
            head = (u.rx_head + 1) % 16;
            tail = u.rx_tail;
            count = u.rx_count + 1;
          })
          (q ++ (v ∷ []))
  put-HoldsBytes q v ctr h small =
      let more : length (q ++ (v ∷ [])) ≡ length q + 1 = length-append q (v ∷ []) in
      record {
        size = omega (arith, h.size);
        room = omega arith;
        start = h.start;
        end = omega (arith, h.end, h.start);
        slots = λ i lt.
            let start = h.start in
            elim (Bool-cases (i == length q)) [
              | inl e ↦
                  let here : i ≡ length q = ground arith in
                  rw (here, h.end) (ground (arith, get_or-last q v))
              | inr e ↦
                  let before : i < length q = ground arith in
                  let free : u.rx_head ≢ (u.rx_tail + i) % 16 =
                    λ same. omega (arith, same, h.end) in
                  let kept : update u.rx_fifo u.rx_head v ((u.rx_tail + i) % 16)
                      ≡ u.rx_fifo ((u.rx_tail + i) % 16) =
                    ground arith in
                  kept ∙ h.slots i before ∙ sym (get_or-append q v i before)
            ];
      }

  pub drop-HoldsBytes :
      (x : ℕ) (q : List ℕ)
      → HoldsBytes (ring u) (x ∷ q)
      → (u.rx_fifo u.rx_tail ≡ x) × HoldsBytes (ring (drop_byte u)) q
  drop-HoldsBytes x q h =
      let zeroth : (u.rx_tail + 0) % 16 ≡ u.rx_tail = omega (arith, h.start) in
      (
        sym (ap u.rx_fifo zeroth) ∙ h.slots 0 (omega arith),
        record {
          size = omega (arith, h.size);
          room = omega (arith, h.room);
          start = omega arith;
          end = omega (arith, h.end, h.start);
          slots = λ i lt.
              let turn : ((u.rx_tail + 1) % 16 + i) % 16 ≡ (u.rx_tail + suc i) % 16 = omega arith in
              rw turn (h.slots (suc i) (omega arith));
        },
      )

pub moved : (a b : Ring) (q : List ℕ) → b ≡ a → HoldsBytes a q → HoldsBytes b q
moved a b q e h = rw e h

module _ {W : Type 0} where
  -- Every port holds the bytes of its queue.
  abbrev pub PortsHold : Uarts W → (ℕ → List ℕ) → Type 0
  PortsHold s queues = (j : ℕ) → HoldsBytes (ring (s.uart_state j)) (queues j)

  -- The receive FIFOs are as they were.
  unfoldable pub Keeps : Uarts W → Uarts W → Type 0
  Keeps s t = (j : ℕ) → ring (t.uart_state j) ≡ ring (s.uart_state j)

  pub kept_PortsHold :
      (s t : Uarts W) (queues : ℕ → List ℕ) → Keeps s t → PortsHold s queues → PortsHold t queues
  unfolding Keeps
  kept_PortsHold s t queues k h j = moved _ _ (queues j) (k j) (h j)

  pub self-Keeps : (s : Uarts W) → Keeps s s
  unfolding Keeps
  self-Keeps s j = refl

  pub set_uart-Keeps :
      (n : ℕ) (u : Uart) (s : Uarts W) → ring u ≡ ring (s.uart_state n) → Keeps s (set_uart n u s)
  unfolding Keeps
  set_uart-Keeps n u s h j = elim (Bool-cases (n == j)) [
    | inl e ↦
        let here : n ≡ j = (==_iff n j).0 e in rw e (h ∙ ap (λ (k : ℕ). ring (s.uart_state k)) here)
    | inr e ↦ rw e
  ]

  pub choice-Keeps :
      (b : Bool) (s x y : Uarts W) → Keeps s x → Keeps s y → Keeps s (if b then x else y)
  choice-Keeps true s x y p q = p
  choice-Keeps false s x y p q = q

  pub world-Keeps : (s t : Uarts W) (w : W) → Keeps s t → Keeps s (record t { world = w })
  unfolding Keeps
  world-Keeps s t w h = h

  pub then-Keeps : (s t r : Uarts W) → Keeps s t → Keeps t r → Keeps s r
  unfolding Keeps
  then-Keeps s t r p q j = q j ∙ p j

  pub set-PortsHold :
      (n : ℕ) (u : Uart) (q : List ℕ) (s : Uarts W) (queues : ℕ → List ℕ)
      → PortsHold s queues
      → HoldsBytes (ring u) q
      → PortsHold (set_uart n u s) (set_queue n q queues)
  set-PortsHold n u q s queues h here j = elim (Bool-cases (n == j)) [
    | inl e ↦ rw e here
    | inr e ↦ rw e (h j)
  ]

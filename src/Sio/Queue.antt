-- ===== src/Sio/Queue.antt =====
-- The FIFOs between the cores of src/cpu.c against a specification by lists.
use mathlib.Core.Path.{ap₂}
use picoemu.Base.{
  ℕ, suc, ◌+◌, ◌%◌, ◌≤◌, ◌<◌, ◌≡◌, refl, sym, ap, ◌∙◌, ◌≢◌, true, false, ◌&&◌, leb, ltb, ◌==◌,
  Bool-cases, inl, inr, if◌then◌else◌, Option, some, none, List, [], ◌∷◌, ◌++◌, length, get_or,
  length-append, get_or-append, get_or-last, arith,
}
use picoemu.Thumb.State.{update}
use picoemu.Sio.Fifo.{MulticoreFifo, Fifos, put, drop_first, put_fifo, fifo_try_push, fifo_try_pop}

-- The FIFO holds the words `q`, the oldest first, from `read_ptr` on around the array.
pub record Holds (f : MulticoreFifo) (q : List ℕ) : Type 0 where
  pub size : f.count ≡ length q
  pub room : length q ≤ 32
  pub start : f.read_ptr < 32
  pub end : f.write_ptr ≡ (f.read_ptr + length q) % 32
  pub slots : (i : ℕ) → i < length q → f.messages ((f.read_ptr + i) % 32) ≡ get_or q i 0

put-Holds :
    (f : MulticoreFifo) (q : List ℕ) (v : ℕ)
    → Holds f q
    → length q < 32
    → Holds (put v f) (q ++ (v ∷ []))
put-Holds f q v h small =
    let more : length (q ++ (v ∷ [])) ≡ length q + 1 = length-append q (v ∷ []) in
    record {
      size = omega (arith, h.size);
      room = omega arith;
      start = h.start;
      end = omega (arith, h.end, h.start);
      slots = λ i lt.
          let known = h.slots i in
          let start = h.start in
          elim (Bool-cases (i == length q)) [
            | inl e ↦
                let here : i ≡ length q = ground arith in
                rw (here, h.end) (ground (arith, get_or-last q v))
            | inr e ↦
                let before : i < length q = ground arith in
                let free : f.write_ptr ≢ (f.read_ptr + i) % 32 =
                  λ same. omega (arith, same, h.end) in
                let kept : update f.messages f.write_ptr v ((f.read_ptr + i) % 32)
                    ≡ f.messages ((f.read_ptr + i) % 32) =
                  ground arith in
                kept ∙ h.slots i before ∙ sym (get_or-append q v i before)
          ];
    }

drop_first-Holds :
    (f : MulticoreFifo) (x : ℕ) (q : List ℕ)
    → Holds f (x ∷ q)
    → (f.messages f.read_ptr ≡ x) × Holds (drop_first f) q
drop_first-Holds f x q h =
    let first : f.read_ptr % 32 ≡ f.read_ptr = omega (arith, h.start) in
    let zeroth : f.read_ptr + 0 ≡ f.read_ptr = omega arith in
    (
      sym (ap f.messages (ap (λ (n : ℕ). n % 32) zeroth ∙ first)) ∙ h.slots 0 (omega arith),
      record {
        size = omega (arith, h.size);
        room = omega (arith, h.room);
        start = omega arith;
        end = omega (arith, h.end, h.start);
        slots = λ i lt.
            let turn : ((f.read_ptr + 1) % 32 + i) % 32 ≡ (f.read_ptr + suc i) % 32 = omega arith in
            rw turn (h.slots (suc i) (omega arith));
      },
    )

-- The specification: a queue for each core, which a push joins at the end when there is room.
abbrev pub set_queue : ℕ → List ℕ → (ℕ → List ℕ) → ℕ → List ℕ
set_queue core_id q queues j = if core_id == j then q else queues j

pub data Operation : Type 0 where
  push : ℕ → ℕ → Operation
  pop : ℕ → Operation

abbrev pub first_of : List ℕ → Option ℕ
first_of [] = none
first_of (x ∷ q) = some x

abbrev pub rest_of : List ℕ → List ℕ
rest_of [] = []
rest_of (x ∷ q) = q

-- The result of an operation, and the queues after it; there are two cores.
unfoldable pub queue_step : Operation → (ℕ → List ℕ) → Option ℕ × (ℕ → List ℕ)
queue_step (push core_id val) queues =
    let q = queues core_id in
    if ltb core_id 2 && ltb (length q) 32
    then (some 1, set_queue core_id (q ++ (val ∷ [])) queues)
    else (some 0, queues)
queue_step (pop core_id) queues =
    if ltb core_id 2
    then (first_of (queues core_id), set_queue core_id (rest_of (queues core_id)) queues)
    else (none, queues)

module _ {W : Type 0} (nvic_signal_rp2350_irq : ℕ → W → W) where
  -- The same operation by the functions of src/cpu.c.
  unfoldable pub fifo_step : Operation → Fifos W → Option ℕ × Fifos W
  fifo_step (push core_id val) s =
      let out = fifo_try_push nvic_signal_rp2350_irq core_id val s in
      (some (if out.0 then 1 else 0), out.1)
  fifo_step (pop core_id) s = fifo_try_pop core_id s

  changed :
      (core_id : ℕ) (s : Fifos W) (queues : ℕ → List ℕ)
      → ((j : ℕ) → Holds (s.fifo j) (queues j))
      → (f : MulticoreFifo) (q : List ℕ) → Holds f q
      → (j : ℕ) → Holds ((put_fifo core_id f s).fifo j) (set_queue core_id q queues j)
  changed core_id s queues h f q holds j = elim (Bool-cases (core_id == j)) [
    | inl e ↦ rw e holds
    | inr e ↦ rw e (h j)
  ]

  step-Holds :
      (op : Operation) (s : Fifos W) (queues : ℕ → List ℕ)
      → ((j : ℕ) → Holds (s.fifo j) (queues j))
      → ((fifo_step op s).0 ≡ (queue_step op queues).0)
        × ((j : ℕ) → Holds ((fifo_step op s).1.fifo j) ((queue_step op queues).1 j))
  unfolding fifo_step queue_step fifo_try_push fifo_try_pop
  step-Holds (push core_id val) s queues h =
      let here = h core_id in
      let q = queues core_id in
      let size : (s.fifo core_id).count ≡ length q = here.size in
      elim (Bool-cases (ltb core_id 2)) [
        | inr e ↦
            let out : leb 2 core_id ≡ true = ground arith in
            let test : (ltb core_id 2 && ltb (length q) 32) ≡ false = rw e in
            rw (out, test) (refl, h)
        | inl e ↦ elim (Bool-cases (ltb (length q) 32)) [
          | inl free ↦
              let valid : leb 2 core_id ≡ false = ground arith in
              let room : leb 32 (s.fifo core_id).count ≡ false = ground arith in
              let test : (ltb core_id 2 && ltb (length q) 32) ≡ true = rw (e, free) in
              rw (valid, room, test)
                (
                  refl,
                  changed core_id s queues h _ _
                      (put-Holds (s.fifo core_id) q val here (ground arith)),
                )
          | inr full ↦
              let valid : leb 2 core_id ≡ false = ground arith in
              let no_room : leb 32 (s.fifo core_id).count ≡ true = ground arith in
              let test : (ltb core_id 2 && ltb (length q) 32) ≡ false = rw (e, full) in
              rw (valid, no_room, test) (refl, h)
        ]
      ]
  step-Holds (pop core_id) s queues h = elim (Bool-cases (ltb core_id 2)) [
    | inr e ↦ let out : leb 2 core_id ≡ true = ground arith in rw (out, e) (refl, h)
    | inl e ↦
        let valid : leb 2 core_id ≡ false = ground arith in
        rw (valid, e) (popped (queues core_id) refl)
  ]
    where
      popped :
          (q : List ℕ)
          → queues core_id ≡ q
          → let f = s.fifo core_id in
            let out : Option ℕ × Fifos W =
              if f.count == 0
              then (none, s)
              else (some (f.messages f.read_ptr), put_fifo core_id (drop_first f) s) in
            (out.0 ≡ first_of (queues core_id))
            × ((j : ℕ)
                → Holds (out.1.fifo j) (set_queue core_id (rest_of (queues core_id)) queues j))
      popped [] e =
          let holds : Holds (s.fifo core_id) [] = rw e at (h core_id) in
          let none_left : ((s.fifo core_id).count == 0) ≡ true = rw holds.size in
          let kept : (j : ℕ) → Holds (s.fifo j) (set_queue core_id [] queues j) = λ j.
            elim (Bool-cases (core_id == j)) [
              | inl same ↦ let here : core_id ≡ j = ground arith in rw same (rw here at holds)
              | inr other ↦ rw other (h j)
            ] in
          rw (none_left, e) (refl, kept)
      popped (x ∷ q) e =
          let holds : Holds (s.fifo core_id) (x ∷ q) = rw e at (h core_id) in
          let (first, rest) = drop_first-Holds (s.fifo core_id) x q holds in
          let some_left : ((s.fifo core_id).count == 0) ≡ false = rw holds.size (ground arith) in
          rw (some_left, e, first) (refl, changed core_id s queues h _ _ rest)

  -- A sequence of operations, by the functions of the code and by the specification: the results.
  unfoldable pub fifo_run : List Operation → Fifos W → List (Option ℕ)
  fifo_run [] s = []
  fifo_run (op ∷ ops) s = let out = fifo_step op s in out.0 ∷ fifo_run ops out.1

unfoldable pub queue_run : List Operation → (ℕ → List ℕ) → List (Option ℕ)
queue_run [] queues = []
queue_run (op ∷ ops) queues = let out = queue_step op queues in out.0 ∷ queue_run ops out.1

-- Whatever pushes and pops are made, by either core and in any order, from FIFOs that hold the words
-- of the given queues: the results are those of two queues that take at most 32 words each.
pub fifo_run-queue_run :
    {W : Type 0} (nvic_signal_rp2350_irq : ℕ → W → W) (ops : List Operation) (s : Fifos W)
    (queues : ℕ → List ℕ)
    → ((j : ℕ) → Holds (s.fifo j) (queues j))
    → fifo_run nvic_signal_rp2350_irq ops s ≡ queue_run ops queues
unfolding fifo_run queue_run
fifo_run-queue_run signal [] s queues h = refl
fifo_run-queue_run signal (op ∷ ops) s queues h =
    let (result, holds) = step-Holds signal op s queues h in
    ap₂ (λ (r : Option ℕ) (rs : List (Option ℕ)). r ∷ rs) result
      (fifo_run-queue_run signal ops (fifo_step signal op s).1 (queue_step op queues).1 holds)

-- ===== src/Timer/Wakeup.antt =====
-- The time to the next alarm of src/timer.c, by which the main loop moves on while the cores sleep.
use picoemu.Base.{
  ℕ, zero, suc, ◌+◌, ◌^◌, ◌≤◌, ◌<◌, ◌≡◌, refl, sym, ◌∙◌, ◌⊎◌, inl, inr, ◌&&◌, bit_and, Bool, true,
  false, ltb, ◌==◌, Bool-cases, if◌then◌else◌, sub32, u32, arith,
}
use mathlib.Core.Bool.{false≢true}
use picoemu.Base.Bits.{bit_and_mask}
use picoemu.Timer.Alarms.{Timer, is_armed, reached, wakeup_loop, timer_next_wakeup_us}

module _ (alarm : ℕ → ℕ) (armed now : ℕ) where
  -- How far ahead an alarm is.
  abbrev ahead_by : ℕ → ℕ
  ahead_by j = sub32 (alarm j) now

  -- No armed alarm from `i` on, of `left` ones, is reached.
  abbrev IsIdle : ℕ → ℕ → Type 0
  IsIdle left i =
      (j : ℕ) → i ≤ j → j < i + left → is_armed armed j ≡ true → reached now (alarm j) ≡ false

  -- An armed alarm from `i` on, of `left` ones, that is `out` ahead.
  record NextAlarm (left i out : ℕ) : Type 0 where
    pub index : ℕ
    pub low : i ≤ index
    pub top : index < i + left
    pub is_set : is_armed armed index ≡ true
    pub distance : out ≡ ahead_by index

  -- The loop's result is not above the distance of any armed alarm, nor above what was found
  -- before, and is one of these unless nothing is armed.
  record Nearest (left i best : ℕ) (found : Bool) (out : ℕ) : Type 0 where
    pub least : (j : ℕ) → i ≤ j → j < i + left → is_armed armed j ≡ true → out ≤ ahead_by j
    pub not_above : found ≡ true → out ≤ best
    pub attained :
        ((found ≡ true) × (out ≡ best))
        ⊎ (NextAlarm left i out
            ⊎ ((found ≡ false) × ((j : ℕ) → i ≤ j → j < i + left → is_armed armed j ≡ false)))

  wakeup_loop-Nearest :
      (left i best : ℕ) (found : Bool)
      → IsIdle left i
      → ((j : ℕ) → alarm j < 2 ^ 32)
      → now < 2 ^ 32
      → (found ≡ true) ⊎ (best ≡ 0xFFFFFFFF)
      → Nearest left i best found (wakeup_loop left i alarm armed now best found)
  unfolding wakeup_loop
  wakeup_loop-Nearest zero i best found idle words hn start = record {
    least = λ j low top a. absurd (omega arith);
    not_above = λ f. rw f (omega arith);
    attained = elim (Bool-cases found) [
      | inl f ↦ rw f (inl (refl, refl))
      | inr f ↦ inr (inr (f, λ j low top. absurd (omega arith)))
    ];
  }
  wakeup_loop-Nearest (suc left) i best found idle words hn start =
      let dt = ahead_by i in
      let later : IsIdle left (suc i) = λ j low top a. idle j (omega arith) (omega arith) a in
      elim (Bool-cases (is_armed armed i)) [
        | inl e ↦
            let ahead : reached now (alarm i) ≡ false = idle i (omega arith) (omega arith) e in
            let word = words i in
            let near : dt ≤ 2 ^ 31 = ground arith in
            let nearer = if ltb dt best then dt else best in
            let rest = wakeup_loop-Nearest left (suc i) nearer true later words hn (inl refl) in
            let bound = rest.not_above refl in
            let out = wakeup_loop left (suc i) alarm armed now nearer true in
            rw (e, ahead)
              (record {
                least = λ j low top a. elim (Bool-cases (j == i)) [
                  | inl same ↦ let here : j ≡ i = ground arith in rw here (ground (arith, bound))
                  | inr other ↦ rest.least j (ground arith) (omega arith) a
                ];
                not_above = λ f. ground (arith, bound);
                attained = elim rest.attained [
                  | inl p ↦ elim (Bool-cases (ltb dt best)) [
                    | inl closer ↦
                        let same : out ≡ dt = ground (arith, p.1) in
                        inr (
                          inl (record {
                            index = i;
                            low = omega arith;
                            top = omega arith;
                            is_set = e;
                            distance = same;
                          }))
                    | inr farther ↦ elim start [
                      | inl f ↦ inl (f, ground (arith, p.1))
                      | inr none_found ↦ absurd (ground arith)
                    ]
                  ]
                  | inr (inl a) ↦ inr (
                      inl (record {
                        index = a.index;
                        low = omega (arith, a.low);
                        top = omega (arith, a.top);
                        is_set = a.is_set;
                        distance = a.distance;
                      }))
                  | inr (inr p) ↦ absurd (false≢true (sym p.0))
                ];
              })
        | inr e ↦
            let rest = wakeup_loop-Nearest left (suc i) best found later words hn start in
            rw e (record {
              least = λ j low top a. elim (Bool-cases (j == i)) [
                | inl same ↦
                    let here : j ≡ i = ground arith in absurd (false≢true (sym e ∙ rw here at a))
                | inr other ↦ rest.least j (ground arith) (omega arith) a
              ];
              not_above = rest.not_above;
              attained = elim rest.attained [
                | inl p ↦ inl p
                | inr (inl a) ↦ inr (
                    inl (record {
                      index = a.index;
                      low = omega (arith, a.low);
                      top = omega (arith, a.top);
                      is_set = a.is_set;
                      distance = a.distance;
                    }))
                | inr (inr p) ↦ inr (
                    inr (
                      p.0,
                      λ j low top. elim (Bool-cases (j == i)) [
                        | inl same ↦ let here : j ≡ i = ground arith in rw here e
                        | inr other ↦ p.1 j (ground arith) (omega arith)
                      ],
                    ))
              ];
            })
      ]

-- An alarm that is not reached is reached after exactly as long as it is ahead.
reached_after :
    (now target d : ℕ)
    → now < 2 ^ 32
    → target < 2 ^ 32
    → reached now target ≡ false
    → d ≤ sub32 target now
    → reached (u32 (now + d)) target ≡ (d == sub32 target now)
reached_after now target d hn ht e h = ground arith

-- Whether an armed alarm from `i` on, of `left` ones, is reached at the given time.
unfoldable pub due_loop : ℕ → ℕ → (ℕ → ℕ) → ℕ → ℕ → Bool
due_loop zero i alarm armed time = false
due_loop (suc left) i alarm armed time =
    if is_armed armed i && reached time (alarm i)
    then true
    else due_loop left (suc i) alarm armed time

module _ (alarm : ℕ → ℕ) (armed time : ℕ) where
  due_loop-IsIdle :
      (left i : ℕ) → due_loop left i alarm armed time ≡ false → IsIdle alarm armed time left i
  unfolding due_loop
  due_loop-IsIdle zero i e j low top a = absurd (omega arith)
  due_loop-IsIdle (suc left) i e j low top a =
      elim (Bool-cases (is_armed armed i && reached time (alarm i))) [
        | inl due ↦ absurd (false≢true (sym (rw due at e)))
        | inr quiet ↦ elim (Bool-cases (j == i)) [
          | inl same ↦
              let here : j ≡ i = ground arith in
              let here_armed : is_armed armed i ≡ true = rw here at a in
              rw here (rw here_armed at quiet)
          | inr other ↦
              due_loop-IsIdle left (suc i) (rw quiet at e) j (ground arith) (omega arith) a
        ]
      ]

  IsIdle-due_loop :
      (left i : ℕ) → IsIdle alarm armed time left i → due_loop left i alarm armed time ≡ false
  unfolding due_loop
  IsIdle-due_loop zero i idle = refl
  IsIdle-due_loop (suc left) i idle =
      let later =
        IsIdle-due_loop left (suc i) (λ j low top a. idle j (omega arith) (omega arith) a) in
      elim (Bool-cases (is_armed armed i)) [
        | inl a ↦ rw (a, idle i (omega arith) (omega arith) a, later)
        | inr a ↦ rw (a, later)
      ]

  reached-due_loop :
      (left i j : ℕ)
      → i ≤ j
      → j < i + left
      → is_armed armed j ≡ true
      → reached time (alarm j) ≡ true
      → due_loop left i alarm armed time ≡ true
  unfolding due_loop
  reached-due_loop zero i j low top a r = absurd (omega arith)
  reached-due_loop (suc left) i j low top a r = elim (Bool-cases (j == i)) [
    | inl same ↦
        let here : j ≡ i = ground arith in
        let here_armed : is_armed armed i ≡ true = rw here at a in
        let here_reached : reached time (alarm i) ≡ true = rw here at r in
        rw (here_armed, here_reached)
    | inr other ↦ elim (Bool-cases (is_armed armed i && reached time (alarm i))) [
      | inl due ↦ rw due
      | inr quiet ↦ rw (quiet, reached-due_loop left (suc i) j (ground arith) (omega arith) a r)
    ]
  ]

-- Some armed alarm is reached at the given time.
abbrev pub any_due : {W : Type 0} → Timer W → ℕ → Bool
any_due t time = due_loop 4 0 t.alarm t.armed time

low_of : (x : ℕ) → x < 2 ^ 32 → bit_and x 0xFFFFFFFF ≡ x
low_of x h = bit_and_mask 32 x ∙ omega arith

-- Below 2^32 microseconds, with 32-bit targets, an armed alarm and none that is reached: in the time
-- up to what `timer_next_wakeup_us` returns an alarm is reached at the end, and never before.
pub any_due-timer_next_wakeup_us :
    {W : Type 0} (t : Timer W) (j d : ℕ)
    → t.time_us < 2 ^ 32
    → ((i : ℕ) → t.alarm i < 2 ^ 32)
    → j < 4
    → is_armed t.armed j ≡ true
    → any_due t t.time_us ≡ false
    → d ≤ timer_next_wakeup_us t
    → any_due t (u32 (t.time_us + d)) ≡ (d == timer_next_wakeup_us t)
unfolding timer_next_wakeup_us
any_due-timer_next_wakeup_us t j d small words inside set idle =
    rw (low_of t.time_us small) (λ upto.
      let now = t.time_us in
      let n = wakeup_loop 4 0 t.alarm t.armed now 0xFFFFFFFF false in
      let quiet = due_loop-IsIdle t.alarm t.armed now 4 0 idle in
      let near =
        wakeup_loop-Nearest t.alarm t.armed now 4 0 0xFFFFFFFF false quiet words small (inr refl) in
      elim (Bool-cases (d == n)) [
        | inl e ↦ rw e (elim near.attained [
          | inl p ↦ absurd (false≢true p.0)
          | inr (inl a) ↦
              let ahead = a.distance in
              let later =
                reached_after now (t.alarm a.index) d small (words a.index)
                  (quiet a.index a.low a.top a.is_set) (omega arith) in
              reached-due_loop t.alarm t.armed (u32 (now + d)) 4 0 a.index a.low a.top a.is_set
                (later ∙ ground arith)
          | inr (inr p) ↦ absurd (false≢true (sym (p.1 j (omega arith) (omega arith)) ∙ set))
        ])
        | inr e ↦ rw e (
            IsIdle-due_loop t.alarm t.armed (u32 (now + d)) 4 0 (λ i low top a.
              let bound = near.least i low top a in
              let later =
                reached_after now (t.alarm i) d small (words i) (quiet i low top a) (omega arith) in
              later ∙ ground arith))
      ])

-- ===== src/Nvic/Systick.antt =====
-- The timer SysTick of src/nvic.c.
use picoemu.Base.{ℕ, zero, suc, ◌-◌, ◌*◌, ◌/◌, bit_and, bit_or, leb, ltb, ◌==◌, if◌then◌else◌, ◌<<◌}
use picoemu.Nvic.State.{SystickState, Ppb, put_core, systick_cur}

abbrev pub Ticked : Type 0 → Type 0
Ticked W = SystickState × W

module _ {W : Type 0} (corepool_wake_cores : W → W) where
  -- With TICKINT the exception is pended and the cores are woken.
  unfoldable pub pend : Ticked W → Ticked W
  pend s =
      if bit_and s.0.csr 2 == 0 then s else (record s.0 { pending = 1 }, corepool_wake_cores s.1)

  -- COUNTFLAG is set, the counter reloaded, and the exception pended.
  unfoldable pub fire : ℕ → Ticked W → Ticked W
  fire reload s = pend (record s.0 { cvr = reload; csr = bit_or s.0.csr (1 << 16) }, s.1)

  -- What the counter at zero does when the reload value is 0: it fires once.
  unfoldable pub fire_once : Ticked W → Ticked W
  fire_once s = if s.0.zero_fired == 0 then fire 0 (record s.0 { zero_fired = 1 }, s.1) else s

  -- The `while` of `systick_tick`, on fuel; `reload` is `st->rvr & 0x00FFFFFF`.
  unfoldable pub systick_loop : ℕ → ℕ → ℕ → Ticked W → Ticked W
  systick_loop zero reload remaining s = s
  systick_loop (suc fuel) reload remaining s =
      let cvr = s.0.cvr in
      let left = remaining - cvr in
      let full_periods = (left - 1) / reload in
      let at_zero = systick_loop fuel reload (remaining - 1) (fire reload s) in
      let skipped =
        systick_loop fuel reload (left - full_periods * reload) (pend (fire reload s)) in
      let next = systick_loop fuel reload left (fire reload s) in
      if remaining == 0
      then s
      else if cvr == 0
      then (if reload == 0 then fire_once s else at_zero)
      else if ltb remaining cvr
      then (record s.0 { cvr = cvr - remaining }, s.1)
      else if reload == 0
      then fire reload s
      else if ltb reload left
      then skipped
      else next

  -- One turn ends the loop or leaves at most two more periods.
  unfoldable pub tick_state : ℕ → Ticked W → Ticked W
  tick_state cycles s =
      if bit_and s.0.csr 1 == 0 then s else systick_loop 5 (bit_and s.0.rvr 0x00FFFFFF) cycles s

  unfoldable pub systick_tick : ℕ → Ppb W → Ppb W
  systick_tick cycles p =
      let (st, w) = tick_state cycles (systick_cur p, p.world) in
      record p { systick_states = put_core p.systick_states p.active_core st; world = w }

  -- The active core is changed for the call and put back.
  unfoldable pub systick_tick_for_core : ℕ → ℕ → Ppb W → Ppb W
  systick_tick_for_core core_id cycles p =
      let ticked = systick_tick cycles (record p { active_core = core_id }) in
      if leb 2 core_id then p else record ticked { active_core = p.active_core }

-- ===== src/Rtc/Clock.antt =====
-- src/rtc.c with include/rtc.h: the state `rtc_state`, its registers and its tick. The `int` fields
-- of the running time are never negative in the code, which only masks and counts them up.
use picoemu.Base.{
  ℕ, zero, suc, ◌+◌, ◌-◌, ◌/◌, ◌%◌, bit_and, bit_or, Bool, not, ◌&&◌, ◌||◌, List, [], ◌∷◌, get_or,
  ltb, leb, ◌==◌, if◌then◌else◌, u64, ◌<<◌, ◌>>◌, not32,
}

pub record Rtc : Type 0 where
  pub clkdiv_m1 : ℕ
  pub setup_0 : ℕ
  pub setup_1 : ℕ
  pub ctrl : ℕ
  pub irq_setup_0 : ℕ
  pub irq_setup_1 : ℕ
  pub inte : ℕ
  pub intf : ℕ
  pub year : ℕ
  pub month : ℕ
  pub day : ℕ
  pub dotw : ℕ
  pub hour : ℕ
  pub min : ℕ
  pub sec : ℕ
  pub tick_acc : ℕ

abbrev pub rtc_init : Rtc
rtc_init = record {
  clkdiv_m1 = 0;
  setup_0 = 0;
  setup_1 = 0;
  ctrl = 0;
  irq_setup_0 = 0;
  irq_setup_1 = 0;
  inte = 0;
  intf = 0;
  year = 0;
  month = 0;
  day = 0;
  dotw = 0;
  hour = 0;
  min = 0;
  sec = 0;
  tick_acc = 0;
}

-- The condition of the `if` that gives February its 29th day.
abbrev pub is_leap : ℕ → Bool
is_leap year = ((year % 4 == 0) && not (year % 100 == 0)) || (year % 400 == 0)

abbrev pub dim : List ℕ
dim = 0 ∷ 31 ∷ 28 ∷ 31 ∷ 30 ∷ 31 ∷ 30 ∷ 31 ∷ 31 ∷ 30 ∷ 31 ∷ 30 ∷ 31 ∷ []

unfoldable pub days_in_month : ℕ → ℕ → ℕ
days_in_month month year =
    if ltb month 1 || ltb 12 month
    then 30
    else if (month == 2) && is_leap year
    then 29
    else get_or dim month 0

-- The nested `if`s of `rtc_advance_second`, one function for each field that overflows.
unfoldable pub advance_year : Rtc → Rtc
advance_year r = record r { month = 1; year = if ltb 4095 (r.year + 1) then 0 else r.year + 1 }

unfoldable pub advance_month : Rtc → Rtc
advance_month r =
    let next = record r { day = 1; month = r.month + 1 } in
    if ltb 12 (r.month + 1) then advance_year next else next

unfoldable pub advance_day : Rtc → Rtc
advance_day r =
    let next = record r { hour = 0; dotw = (r.dotw + 1) % 7; day = r.day + 1 } in
    if ltb (days_in_month r.month r.year) (r.day + 1) then advance_month next else next

unfoldable pub advance_hour : Rtc → Rtc
advance_hour r =
    let next = record r { min = 0; hour = r.hour + 1 } in
    if leb 24 (r.hour + 1) then advance_day next else next

unfoldable pub advance_minute : Rtc → Rtc
advance_minute r =
    let next = record r { sec = 0; min = r.min + 1 } in
    if leb 60 (r.min + 1) then advance_hour next else next

unfoldable pub rtc_advance_second : Rtc → Rtc
rtc_advance_second r = if leb 60 (r.sec + 1) then advance_minute r else record r { sec = r.sec + 1 }

unfoldable pub rtc_load_setup : Rtc → Rtc
rtc_load_setup r = record r {
  year = bit_and (r.setup_0 >> 12) 0xFFF;
  month = bit_and (r.setup_0 >> 8) 0xF;
  day = bit_and r.setup_0 0x1F;
  dotw = bit_and (r.setup_1 >> 24) 0x7;
  hour = bit_and (r.setup_1 >> 16) 0x1F;
  min = bit_and (r.setup_1 >> 8) 0x3F;
  sec = bit_and r.setup_1 0x3F;
  tick_acc = 0;
}

unfoldable pub rtc_pack_rtc1 : Rtc → ℕ
rtc_pack_rtc1 r =
    bit_or (bit_or (bit_and r.year 0xFFF << 12) (bit_and r.month 0xF << 8)) (bit_and r.day 0x1F)

unfoldable pub rtc_pack_rtc0 : Rtc → ℕ
rtc_pack_rtc0 r =
    bit_or
      (bit_or (bit_or (bit_and r.dotw 0x7 << 24) (bit_and r.hour 0x1F << 16))
        (bit_and r.min 0x3F << 8))
      (bit_and r.sec 0x3F)

abbrev pub rtc_match : ℕ → Bool
rtc_match addr =
    let base = bit_and addr (not32 0x3000) in leb 0x4005C000 base && ltb base (0x4005C000 + 0x30)

unfoldable pub rtc_read32 : ℕ → Rtc → ℕ
rtc_read32 offset r =
    if offset == 0x00
    then r.clkdiv_m1
    else if offset == 0x04
    then r.setup_0
    else if offset == 0x08
    then r.setup_1
    else if offset == 0x0C
    then (if not (bit_and r.ctrl 1 == 0) then bit_or r.ctrl 2 else bit_and r.ctrl (not32 2))
    else if offset == 0x10
    then r.irq_setup_0
    else if offset == 0x14
    then r.irq_setup_1
    else if offset == 0x18
    then rtc_pack_rtc1 r
    else if offset == 0x1C
    then rtc_pack_rtc0 r
    else if offset == 0x20
    then 0
    else if offset == 0x24
    then r.inte
    else if offset == 0x28
    then r.intf
    else if offset == 0x2C
    then bit_and r.intf r.inte
    else 0

unfoldable pub rtc_write_ctrl : ℕ → Rtc → Rtc
rtc_write_ctrl val r =
    let loaded = if not (bit_and val 0x10 == 0) then rtc_load_setup r else r in
    record loaded { ctrl = bit_and val (not32 0x10) }

unfoldable pub rtc_write32 : ℕ → ℕ → Rtc → Rtc
rtc_write32 offset val r =
    if offset == 0x00
    then record r { clkdiv_m1 = val }
    else if offset == 0x04
    then record r { setup_0 = val }
    else if offset == 0x08
    then record r { setup_1 = val }
    else if offset == 0x0C
    then rtc_write_ctrl val r
    else if offset == 0x10
    then record r { irq_setup_0 = val }
    else if offset == 0x14
    then record r { irq_setup_1 = val }
    else if offset == 0x24
    then record r { inte = bit_and val 1 }
    else if offset == 0x28
    then record r { intf = bit_and val 1 }
    else r

-- The `while` of `rtc_tick`, on fuel.
unfoldable pub tick_loop : ℕ → Rtc → Rtc
tick_loop zero r = r
tick_loop (suc fuel) r =
    let rest = tick_loop fuel (rtc_advance_second (record r { tick_acc = r.tick_acc - 1000000 })) in
    if leb 1000000 r.tick_acc then rest else r

-- Each turn takes a million off, so the quotient and one turn more for the last test are enough.
unfoldable pub rtc_tick : ℕ → Rtc → Rtc
rtc_tick elapsed_us r =
    let ticked = record r { tick_acc = u64 (r.tick_acc + elapsed_us) } in
    if bit_and r.ctrl 1 == 0 then r else tick_loop (ticked.tick_acc / 1000000 + 1) ticked

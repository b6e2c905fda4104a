-- ===== src/Thumb32/Decode.antt =====
-- Which instructions `t32_misc` of src/thumb32.c leaves alone, by their first halfword.
use picoemu.Base.{ℕ, ◌≡◌, Bool, true, not, ◌||◌, ◌==◌, none, arith}
use picoemu.Thumb.State.{Cpu}
use picoemu.Thumb32.Misc.{matches, t32_misc_dsp, t32_misc_products, t32_misc_fields, t32_misc}

module _ (upper : ℕ) where
  abbrev up : ℕ → Bool
  up pattern = matches upper 0xFFF0 pattern

  abbrev pub free_dsp : Bool
  free_dsp = not (
      matches upper 0xFF80 0xFA80
      || up 0xFB20
      || up 0xFB40
      || up 0xFBC0
      || up 0xFBD0
      || up 0xFAA0
      || up 0xEAC0
      || up 0xF320
      || up 0xF3A0)

  abbrev pub free_products : Bool
  free_products = not (
      up 0xF380
      || (upper == 0xF3EF)
      || (upper == 0xF3BF)
      || up 0xFB90
      || up 0xFBB0
      || up 0xFB00
      || up 0xFB80
      || up 0xFBA0
      || up 0xFBE0
      || up 0xFBC0
      || up 0xFB50
      || up 0xFB60)

  abbrev pub free_fields : Bool
  free_fields = not (
      up 0xFAB0
      || up 0xFA90
      || up 0xF3C0
      || up 0xF340
      || matches upper 0xFFC0 0xF300
      || matches upper 0xFFC0 0xF380
      || up 0xF360
      || up 0xFA40
      || up 0xFA00
      || up 0xFA50
      || up 0xFA10
      || (upper == 0xFA4F)
      || (upper == 0xFA0F)
      || (upper == 0xFA5F)
      || (upper == 0xFA1F)
      || matches upper 0xFF80 0xFA00
      || (upper == 0xF3AF))

  dsp_none : (lower : ℕ) (c : Cpu) → free_dsp ≡ true → t32_misc_dsp upper lower c ≡ none
  unfolding t32_misc_dsp
  dsp_none lower c h = ground arith

  products_none :
      (lower : ℕ) (c : Cpu) → free_products ≡ true → t32_misc_products upper lower c ≡ none
  unfolding t32_misc_products
  products_none lower c h = ground arith

  fields_none :
      (wide lower : ℕ) (c : Cpu) → free_fields ≡ true → t32_misc_fields wide upper lower c ≡ none
  unfolding t32_misc_fields
  fields_none wide lower c h = ground arith

  -- No pattern of `t32_misc` begins with this halfword.
  pub record IsFree : Type 0 where
    pub dsp : free_dsp ≡ true
    pub products : free_products ≡ true
    pub fields : free_fields ≡ true

  pub IsFree-t32_misc : (wide lower : ℕ) (c : Cpu) → IsFree → t32_misc wide upper lower c ≡ none
  unfolding t32_misc
  IsFree-t32_misc wide lower c free = rw (
    dsp_none lower c free.dsp,
    products_none lower c free.products,
    fields_none wide lower c free.fields,
  )

-- ===== src/Thumb32/Insertion.antt =====
-- A field put into a word by masks, as BFI of src/thumb32.c does it, as arithmetic.
use native.Mathlib.Nat.{
  div-lt_iff_lt-mul, mod-lt, div-add-mod, mul-div_cancel, mul-lt-mul_of_pos_right, one-le-pow,
  pow-suc, add-mul-mod_self_right, mod-eq_of_lt,
}
use picoemu.Base.Bits.{
  bit_and_mask, bit_and_high, bit_and_test, bit_or_high, bit_or_fields, quotient_of,
}
use picoemu.Base.{
  ℕ, zero, suc, ◌+◌, ◌-◌, ◌*◌, ◌/◌, ◌%◌, ◌^◌, ◌≤◌, ◌<◌, ◌≡◌, sym, ap, ◌∙◌, bit_and, bit_or, u32,
  not32, arith,
}

hole_mask : (a b p : ℕ) → suc a * suc b * suc p ≡ 2 ^ 32 → not32 (b * suc p) ≡ a * suc b * suc p + p
hole_mask a b p e = omega (arith, e)

mask_word : (a b p : ℕ) → suc a * suc b * suc p ≡ 2 ^ 32 → b * suc p < 2 ^ 32
mask_word a b p e = omega (arith, e)

above : (a b p x : ℕ) → suc a * suc b * suc p ≡ 2 ^ 32 → x < 2 ^ 32 → x / suc p / suc b < suc a
above a b p x e h =
    let all : x < suc a * suc b * suc p = omega (arith, e) in
    (div-lt_iff_lt-mul {k = suc b} {x = x / suc p} {y = suc a} (omega arith)).1
      ((div-lt_iff_lt-mul {k = suc p} {x = x} {y = suc a * suc b} (omega arith)).1 all)

products :
    (x n p q r all : ℕ) → x ≡ suc n * q + r → suc n * suc p ≡ all → x * suc p ≡ q * all + r * suc p
products x n p q r all e f = rw (e, ← f) (omega arith)

shifted_out : (n p x : ℕ) → suc n * suc p ≡ 2 ^ 32 → u32 (x * suc p) / suc p ≡ x % suc n
shifted_out n p x e =
    let q = x / suc n in
    let r = x % suc n in
    let rest : r < suc n = mod-lt x (omega arith) in
    let whole : suc n * q + r ≡ x = div-add-mod x (suc n) in
    let product : x * suc p ≡ q * 2 ^ 32 + r * suc p = products x n p q r (2 ^ 32) (sym whole) e in
    let small : r * suc p < 2 ^ 32 =
      rw (← e) (mul-lt-mul_of_pos_right {m = r} {n = suc n} {k = suc p} rest (omega arith)) in
    let cut : u32 (x * suc p) ≡ r * suc p = omega (arith, product, small) in
    rw cut (mul-div_cancel r (omega arith))

-- The powers of two that are the sizes of the three parts of a word.
record Sizes (k w l : ℕ) : Type 0 where
  top : 1 ≤ k
  field : 1 ≤ w
  low : 1 ≤ l
  all : k * w * l ≡ 2 ^ 32

minus_one : (n : ℕ) → suc n - 1 ≡ n
minus_one n = omega arith

hole : (k w l : ℕ) → Sizes k w l → not32 ((w - 1) * l) ≡ (k - 1) * w * l + (l - 1)
hole zero w l z = absurd (omega (arith, z.top))
hole (suc a) zero l z = absurd (omega (arith, z.field))
hole (suc a) (suc b) zero z = absurd (omega (arith, z.low))
hole (suc a) (suc b) (suc p) z = rw (minus_one a, minus_one b, minus_one p) (hole_mask a b p z.all)

field_mask : (k w l : ℕ) → Sizes k w l → u32 (u32 (w + 0xFFFFFFFF) * l) ≡ (w - 1) * l
field_mask zero w l z = absurd (omega (arith, z.top))
field_mask (suc a) zero l z = absurd (omega (arith, z.field))
field_mask (suc a) (suc b) zero z = absurd (omega (arith, z.low))
field_mask (suc a) (suc b) (suc p) z =
    let word = mask_word a b p z.all in
    let narrow : u32 (suc b + 0xFFFFFFFF) ≡ b = omega arith in
    rw (narrow, minus_one b) (omega (arith, word))

top_part : (k w l x : ℕ) → Sizes k w l → x < 2 ^ 32 → x / l / w < k
top_part zero w l x z h = absurd (omega (arith, z.top))
top_part (suc a) zero l x z h = absurd (omega (arith, z.field))
top_part (suc a) (suc b) zero x z h = absurd (omega (arith, z.low))
top_part (suc a) (suc b) (suc p) x z h = above a b p x z.all h

pow_sum : (a b : ℕ) → 2 ^ a * 2 ^ b ≡ 2 ^ (a + b)
pow_sum a zero = let e : a + 0 ≡ a = omega arith in rw e (omega arith)
pow_sum a (suc b) =
    let e : a + suc b ≡ suc (a + b) = omega arith in
    rw (e, pow-suc 2 (a + b), pow-suc 2 b, ← pow_sum a b) (omega arith)

sizes : (k w l : ℕ) → k + w + l ≡ 32 → Sizes (2 ^ k) (2 ^ w) (2 ^ l)
sizes k w l e = record {
  top = one-le-pow k 2 (omega arith);
  field = one-le-pow w 2 (omega arith);
  low = one-le-pow l 2 (omega arith);
  all = rw (pow_sum k w, pow_sum (k + w) l, e);
}

regroup : (n m q r x : ℕ) → n * m * q + r ≡ x → x ≡ r + n * q * m
regroup n m q r x e = omega (arith, e)

mod_factor : (n m x : ℕ) → x % (n * m) % m ≡ x % m
mod_factor n m x =
    let q = x / (n * m) in
    let r = x % (n * m) in
    let e = regroup n m q r x (div-add-mod x (n * m)) in
    sym (ap (λ (t : ℕ). t % m) e ∙ add-mul-mod_self_right r (n * q) m)

-- What is shifted out at the top does not reach the field.
shifted_part : (k w l x : ℕ) → Sizes k w l → u32 (x * l) / l % w ≡ x % w
shifted_part zero w l x z = absurd (omega (arith, z.top))
shifted_part k zero l x z = absurd (omega (arith, z.field))
shifted_part k w zero x z = absurd (omega (arith, z.low))
shifted_part (suc a) (suc b) (suc p) x z =
    let n : suc (a * suc b + b) ≡ suc a * suc b = omega arith in
    rw (shifted_out (a * suc b + b) p x (rw n z.all), n) (mod_factor (suc a) (suc b) x)

-- `width` bits of `src` put in at `lsb`, as BFI does it.
pub inserted :
    (k width lsb old src : ℕ)
    → k + width + lsb ≡ 32
    → old < 2 ^ 32
    → let mask = u32 (u32 (2 ^ width + 0xFFFFFFFF) * 2 ^ lsb) in
      bit_or (bit_and old (not32 mask)) (bit_and (u32 (src * 2 ^ lsb)) mask)
      ≡ (old / 2 ^ lsb / 2 ^ width * 2 ^ width + src % 2 ^ width) * 2 ^ lsb + old % 2 ^ lsb
inserted k width lsb old src e h =
    let z = sizes k width lsb e in
    let high = top_part (2 ^ k) (2 ^ width) (2 ^ lsb) old z h in
    let q = old / 2 ^ lsb / 2 ^ width in
    let v = src % 2 ^ width in
    let kept : bit_and old (not32 ((2 ^ width - 1) * 2 ^ lsb))
        ≡ q * 2 ^ width * 2 ^ lsb + old % 2 ^ lsb =
      rw (
        hole (2 ^ k) (2 ^ width) (2 ^ lsb) z,
        bit_and_high lsb old ((2 ^ k - 1) * 2 ^ width),
        bit_and_test width (old / 2 ^ lsb) (2 ^ k - 1),
        bit_and_mask k q,
        mod-eq_of_lt high,
      ) in
    let put : bit_and (u32 (src * 2 ^ lsb)) ((2 ^ width - 1) * 2 ^ lsb) ≡ v * 2 ^ lsb = rw (
      bit_and_test lsb (u32 (src * 2 ^ lsb)) (2 ^ width - 1),
      bit_and_mask width (u32 (src * 2 ^ lsb) / 2 ^ lsb),
      shifted_part (2 ^ k) (2 ^ width) (2 ^ lsb) src z,
    ) in
    let low : old % 2 ^ lsb < 2 ^ lsb = mod-lt old z.low in
    let fits : v < 2 ^ width = mod-lt src z.field in
    rw
      (
        field_mask (2 ^ k) (2 ^ width) (2 ^ lsb) z,
        kept,
        put,
        bit_or_high lsb (q * 2 ^ width * 2 ^ lsb + old % 2 ^ lsb) v,
        quotient_of lsb (q * 2 ^ width) (old % 2 ^ lsb) low,
        bit_or_fields width q v fits,
      )
      (ap (λ (t : ℕ). (q * 2 ^ width + v) * 2 ^ lsb + t)
        (add-mul-mod_low lsb (q * 2 ^ width) (old % 2 ^ lsb) low))
  where
    add-mul-mod_low : (l a r : ℕ) → r < 2 ^ l → (a * 2 ^ l + r) % 2 ^ l ≡ r
    add-mul-mod_low l a r h = grind arith

-- ===== src/CString/Strtol/Decimal.antt =====
-- A printed number is read back.
use dss_vdc_venta.Prelude.{
  ℕ, ◌+◌, ◌-◌, ◌*◌, ◌<◌, ◌^◌, ◌≡◌, refl, ◌∙◌, [], ◌∷◌, All, pos, arith, length, true, ap,
}
use dss_vdc_venta.CString.{Bytes, digits}
use dss_vdc_venta.CString.Decimal.{
  IsDigit, digits-IsDigit, value_from, value_from-digits, length-digits_pos,
}
use dss_vdc_venta.CString.Strtol.{is_digit, read_digits, strtol_int, low_int, at_most}

read_digits-value_from :
    (acc : ℕ) (s : Bytes) → All IsDigit s → read_digits acc s ≡ value_from acc s
unfolding read_digits value_from
read_digits-value_from acc [] h = refl
read_digits-value_from acc (c ∷ s) h =
    let digit : is_digit c ≡ true = ground (arith, h.0) in
    rw (digit, read_digits) (read_digits-value_from (acc * 10 + (c - 48)) s h.1)

low_int_small : (n : ℕ) → n < 2 ^ 31 → low_int (at_most (2 ^ 63 - 1) n) ≡ pos n
low_int_small n h = ground arith

strtol_int-digit_row :
    (s : Bytes)
    → All IsDigit s
    → 0 < length s
    → value_from 0 s < 2 ^ 31
    → strtol_int s ≡ pos (value_from 0 s)
unfolding strtol_int
strtol_int-digit_row [] h long small = absurd (omega (arith, long))
strtol_int-digit_row (c ∷ s) h long small =
    ground
      (arith, h.0, read_digits-value_from 0 (c ∷ s) h, low_int_small (value_from 0 (c ∷ s)) small)

-- A number below 2^31, as it is printed, is read as that number.
pub strtol_int-digits : (n : ℕ) → n < 2 ^ 31 → strtol_int (digits n) ≡ pos n
strtol_int-digits n h =
    let same = value_from-digits n in
    strtol_int-digit_row (digits n) (digits-IsDigit n) (length-digits_pos n) (rw same h)
    ∙ ap pos same

-- ===== src/Tests/Report.antt =====
-- Messages.
use dss_vdc_venta.Prelude.{some, none, ◌≡◌, ◌≤◌, ◌++◌, pos, refl, arith, ◌∷◌, []}
use dss_vdc_venta.CString.{Bytes, codes}
use dss_vdc_venta.Report.{vdc_report, vdc_report_extra_level, piece}
use dss_vdc_venta.Report.Escaping.{
  raw_bytes, vdc_report_overflows_or_prints, vdc_report_fits, vdc_report_overflow,
}

abbrev two_lines : Bytes
two_lines = codes "a" ++ 10 ∷ codes "b" ++ 10 ∷ []

vdc_report_overflows_or_prints_example :
    vdc_report 64 (codes "[t] ") (pos 7) (pos 3) two_lines
    ≡ some (some (codes "[t] venta: a\\x0ab" ++ 10 ∷ []))
unfolding piece
vdc_report_overflows_or_prints_example =
    vdc_report_overflows_or_prints 64 (codes "[t] ") (pos 7) (pos 3) two_lines (omega arith)

vdc_report_fits_at_input :
    (out : Bytes) × (vdc_report 64 (codes "[t] ") (pos 7) (pos 3) two_lines
      ≡ some (some (codes "[t] " ++ out)))
    × (raw_bytes out ≤ 2)
vdc_report_fits_at_input =
    vdc_report_fits 64 (codes "[t] ") (pos 7) (pos 3) two_lines refl (omega arith)

vdc_report_overflow_at_input :
    vdc_report 16 (codes "[t] ") (pos 7) (pos 3) (codes "12345678") ≡ none
vdc_report_overflow_at_input =
    vdc_report_overflow 16 (codes "[t] ") (pos 7) (pos 3) (codes "12345678") refl (omega arith)
      (omega arith) (omega arith)

above_level : vdc_report_extra_level 64 (codes "[t] ") (pos 4) (pos 3) two_lines ≡ some none
unfolding vdc_report_extra_level
above_level = refl

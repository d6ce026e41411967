-- ===== src/Report/Escaping.antt =====
-- What a message looks like, and when it fits.
use dss_vdc_venta.Prelude.{
  ℕ, ◌+◌, ◌*◌, ◌<◌, ◌≤◌, true, false, Option, none, some, [], ◌∷◌, ◌++◌, ◌≡◌, refl, arith, leb, ltb,
  length, length-append, if◌then◌else◌, Bool-cases, inl, inr, append_assoc, append-nil, ◌∙◌, suc, ℤ,
  take, ◌-◌, leb_ℤ, take_all, ap, length-take,
}
use dss_vdc_venta.Report.{is_print, escape, piece, print_from, vdc_report}
use dss_vdc_venta.CString.{Bytes, codes}

-- The bytes that the loop appends, one piece behind the other.
abbrev pub escaped : Bytes → Bytes
escaped [] = []
escaped (c ∷ s) = piece c s ++ escaped s

-- How many bytes are not printable.
abbrev pub raw_bytes : Bytes → ℕ
raw_bytes [] = 0
raw_bytes (c ∷ s) = if is_print c then raw_bytes s else suc (raw_bytes s)

raw_bytes-append : (s t : Bytes) → raw_bytes (s ++ t) ≡ raw_bytes s + raw_bytes t
raw_bytes-append [] t = omega arith
raw_bytes-append (c ∷ s) t = ground (arith, raw_bytes-append s t)

raw_bytes-escape : (c : ℕ) → raw_bytes (escape c) ≡ 0
unfolding escape
raw_bytes-escape c = ground arith

raw_bytes-piece : (c : ℕ) (rest : Bytes) → raw_bytes (piece c rest) ≤ 1
unfolding piece
raw_bytes-piece c rest = ground (arith, raw_bytes-escape c)

raw_bytes-piece_inside : (c d e : ℕ) (rest : Bytes) → raw_bytes (piece c (d ∷ e ∷ rest)) ≡ 0
unfolding piece
raw_bytes-piece_inside c d e rest = ground (arith, raw_bytes-escape c)

raw_bytes-escaped : (s : Bytes) → raw_bytes (escaped s) ≤ 2
raw_bytes-escaped [] = omega arith
raw_bytes-escaped (c ∷ []) = omega (arith, raw_bytes-append (piece c []) [], raw_bytes-piece c [])
raw_bytes-escaped (c ∷ d ∷ []) = omega (
  arith,
  raw_bytes-append (piece c (d ∷ [])) (escaped (d ∷ [])),
  raw_bytes-append (piece d []) [],
  raw_bytes-piece c (d ∷ []),
  raw_bytes-piece d [],
)
raw_bytes-escaped (c ∷ d ∷ e ∷ s) = omega (
  arith,
  raw_bytes-append (piece c (d ∷ e ∷ s)) (escaped (d ∷ e ∷ s)),
  raw_bytes-piece_inside c d e s,
  raw_bytes-escaped (d ∷ e ∷ s),
)

length-piece : (c : ℕ) (rest : Bytes) → length (piece c rest) ≤ 5
unfolding piece escape
length-piece c rest = ground arith

length-escaped : (s : Bytes) → length (escaped s) ≤ 5 * length s
length-escaped [] = omega arith
length-escaped (c ∷ s) =
    omega (arith, length-append (piece c s) (escaped s), length-piece c s, length-escaped s)

piece-IsLong : (c : ℕ) (rest : Bytes) → 1 ≤ length (piece c rest)
unfolding piece escape
piece-IsLong c rest = ground arith

length_below_escaped : (s : Bytes) → length s ≤ length (escaped s)
length_below_escaped [] = omega arith
length_below_escaped (c ∷ s) =
    omega (arith, length-append (piece c s) (escaped s), piece-IsLong c s, length_below_escaped s)

abbrev when_fitting : ℕ → Bytes → Option Bytes
when_fitting bufsiz out = if leb (length out + 1) bufsiz then some out else none

print_from-fits :
    (bufsiz : ℕ) (buf2 : Bytes) (c : ℕ) (s : Bytes)
    → leb (length (buf2 ++ piece c s) + 1) bufsiz ≡ true
    → print_from bufsiz buf2 (c ∷ s) ≡ print_from bufsiz (buf2 ++ piece c s) s
unfolding print_from
print_from-fits bufsiz buf2 c s fits = rw (fits, print_from) refl

print_from-long :
    (bufsiz : ℕ) (buf2 : Bytes) (c : ℕ) (s : Bytes)
    → leb (length (buf2 ++ piece c s) + 1) bufsiz ≡ false
    → print_from bufsiz buf2 (c ∷ s) ≡ none
unfolding print_from
print_from-long bufsiz buf2 c s long = rw (long, print_from) refl

too_long :
    (bufsiz : ℕ) (buf2 p rest : Bytes)
    → leb (length (buf2 ++ p) + 1) bufsiz ≡ false
    → leb (length (buf2 ++ (p ++ rest)) + 1) bufsiz ≡ false
too_long bufsiz buf2 p rest long =
    ground (arith, length-append buf2 p, length-append p rest, length-append buf2 (p ++ rest))

print_from-escaped :
    (bufsiz : ℕ) (buf2 s : Bytes)
    → length buf2 + 1 ≤ bufsiz
    → print_from bufsiz buf2 s ≡ when_fitting bufsiz (buf2 ++ escaped s)
print_from-escaped bufsiz buf2 [] h = unfold print_from in ground (arith, append-nil buf2)
print_from-escaped bufsiz buf2 (c ∷ s) h =
    elim (Bool-cases (leb (length (buf2 ++ piece c s) + 1) bufsiz)) [
      | inl fits ↦
          print_from-fits bufsiz buf2 c s fits
          ∙ print_from-escaped bufsiz (buf2 ++ piece c s) s (ground arith)
          ∙ ap (when_fitting bufsiz) (append_assoc buf2 (piece c s) (escaped s))
      | inr long ↦
          print_from-long bufsiz buf2 c s long
          ∙ simp (too_long bufsiz buf2 (piece c s) (escaped s) long)
    ]

module _ (bufsiz : ℕ) (stamp : Bytes) (debug_level errlevel : ℤ) (formatted : Bytes) where
  -- The text of the message, cut to its buffer, as it is put out.
  abbrev pub message_text : Bytes
  message_text = escaped (take (bufsiz - 1) (codes "venta: " ++ formatted))

  -- A message above the level is not put out. Any other is put out behind the stamp, byte for byte
  -- or escaped, if all of it is shorter than the buffer, and overflows the buffer if it is not.
  pub vdc_report_overflows_or_prints :
      length stamp < bufsiz
      → vdc_report bufsiz stamp debug_level errlevel formatted ≡ (
          if leb_ℤ errlevel debug_level
          then if ltb (length (stamp ++ message_text)) bufsiz
            then some (some (stamp ++ message_text))
            else none
          else some none)
  unfolding vdc_report
  vdc_report_overflows_or_prints h = ground (
    arith,
    take_all (bufsiz - 1) stamp (omega arith),
    print_from-escaped bufsiz stamp (take (bufsiz - 1) (codes "venta: " ++ formatted))
        (omega arith),
  )

  -- A message at or below the level, with room for five bytes for each byte of its text, is put out,
  -- with at most two bytes behind the stamp that are not printable.
  pub vdc_report_fits :
      leb_ℤ errlevel debug_level ≡ true
      → length stamp + 5 * (7 + length formatted) < bufsiz
      → (out : Bytes) × (vdc_report bufsiz stamp debug_level errlevel formatted
          ≡ some (some (stamp ++ out)))
        × (raw_bytes out ≤ 2)
  vdc_report_fits level room =
      let whole : length (codes "venta: " ++ formatted) ≡ 7 + length formatted = omega arith in
      let uncut = take_all (bufsiz - 1) (codes "venta: " ++ formatted) (omega arith) in
      let bound = length-escaped (codes "venta: " ++ formatted) in
      let fits : ltb (length (stamp ++ message_text)) bufsiz ≡ true = rw uncut (
        ground
          (arith, bound, whole, length-append stamp (escaped (codes "venta: " ++ formatted)))) in
      (
        message_text,
        vdc_report_overflows_or_prints (omega arith) ∙ simp (level, fits),
        raw_bytes-escaped (take (bufsiz - 1) (codes "venta: " ++ formatted)),
      )

  -- A message at or below the level that fills the buffer of its text overflows the buffer of what is
  -- put out, as that begins with the stamp.
  pub vdc_report_overflow :
      leb_ℤ errlevel debug_level ≡ true
      → 1 ≤ length stamp
      → length stamp < bufsiz
      → bufsiz ≤ 8 + length formatted
      → vdc_report bufsiz stamp debug_level errlevel formatted ≡ none
  vdc_report_overflow level some_stamp short full =
      let whole : length (codes "venta: " ++ formatted) ≡ 7 + length formatted = omega arith in
      let filled = length-take (bufsiz - 1) (codes "venta: " ++ formatted) (omega arith) in
      let grown = length_below_escaped (take (bufsiz - 1) (codes "venta: " ++ formatted)) in
      let long : ltb (length (stamp ++ message_text)) bufsiz ≡ false =
        ground (arith, grown, filled, length-append stamp message_text) in
      vdc_report_overflows_or_prints short ∙ simp (level, long)

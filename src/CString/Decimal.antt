-- ===== src/CString/Decimal.antt =====
-- Printed numbers: they read back, they hold digits only, and how long they are.
use dss_vdc_venta.Prelude.{
  ℕ, zero, suc, ◌+◌, ◌-◌, ◌*◌, ◌/◌, ◌%◌, ◌≤◌, ◌<◌, ◌≡◌, refl, sym, ap, ◌∙◌, List, [], ◌∷◌, ◌++◌,
  inl, inr, arith, ltb, Bool-cases, length, length-append, All,
}
use dss_vdc_venta.CString.{Bytes, digits_from, digits}

-- The number that a row of digits stands for, after `acc`.
unfoldable pub value_from : ℕ → Bytes → ℕ
value_from acc [] = acc
value_from acc (c ∷ s) = value_from (acc * 10 + (c - 48)) s

value_from-append :
    (acc : ℕ) (s t : Bytes) → value_from acc (s ++ t) ≡ value_from (value_from acc s) t
unfolding value_from
value_from-append acc [] t = refl
value_from-append acc (c ∷ s) t = value_from-append (acc * 10 + (c - 48)) s t

value_from-digits_from : (f n : ℕ) → n < f → value_from 0 (digits_from f n) ≡ n
unfolding value_from digits_from
value_from-digits_from zero n h = elim h [ ]
value_from-digits_from (suc f) n h = ground (
  arith,
  value_from-append 0 (digits_from f (n / 10)) ((n % 10 + 48) ∷ []),
  value_from-digits_from f (n / 10),
)

pub value_from-digits : (n : ℕ) → value_from 0 (digits n) ≡ n
unfolding digits
value_from-digits n = value_from-digits_from (suc n) n (omega arith)

-- Distinct numbers are printed differently.
pub digits-injective : (m n : ℕ) → digits m ≡ digits n → m ≡ n
digits-injective m n e = sym (value_from-digits m) ∙ ap (value_from 0) e ∙ value_from-digits n

abbrev pub IsDigit : ℕ → Type 0
IsDigit c = (48 ≤ c) × (c ≤ 57)

pub All-append {ℓ κ} :
    {A : Type ℓ} (P : A → Type κ) (xs ys : List A) → All P xs → All P ys → All P (xs ++ ys)
All-append P [] ys p q = q
All-append P (x ∷ xs) ys p q = (p.0, All-append P xs ys p.1 q)

digits_from-IsDigit : (f n : ℕ) → All IsDigit (digits_from f n)
unfolding digits_from
digits_from-IsDigit zero n = tt
digits_from-IsDigit (suc f) n =
    let more =
      All-append IsDigit (digits_from f (n / 10)) ((n % 10 + 48) ∷ [])
        (digits_from-IsDigit f (n / 10)) (omega arith) in
    elim (Bool-cases (ltb n 10)) [
      | inl small ↦ rw (small, digits_from) (ground arith)
      | inr large ↦ rw (large, digits_from) more
    ]

pub digits-IsDigit : (n : ℕ) → All IsDigit (digits n)
unfolding digits
digits-IsDigit n = digits_from-IsDigit (suc n) n

pub length-digits_pos : (n : ℕ) → 0 < length (digits n)
unfolding digits digits_from
length-digits_pos n = ground (arith, length-append (digits_from n (n / 10)) ((n % 10 + 48) ∷ []))

length-digits_from_one : (f n : ℕ) → n < 10 → length (digits_from (suc f) n) ≡ 1
unfolding digits_from
length-digits_from_one f n h = ground arith

length-digits_from_more :
    (f n : ℕ) → 10 ≤ n → length (digits_from (suc f) n) ≡ length (digits_from f (n / 10)) + 1
unfolding digits_from
length-digits_from_more f n h =
    ground (arith, length-append (digits_from f (n / 10)) ((n % 10 + 48) ∷ []))

length-digits_from_pos : (f n : ℕ) → 0 < length (digits_from (suc f) n)
unfolding digits_from
length-digits_from_pos f n =
    ground (arith, length-append (digits_from f (n / 10)) ((n % 10 + 48) ∷ []))

pub length-digits_one : (n : ℕ) → n < 10 → length (digits n) ≡ 1
unfolding digits
length-digits_one n = length-digits_from_one n n

pub length-digits_two : (n : ℕ) → 10 ≤ n → n < 100 → length (digits n) ≡ 2
unfolding digits
length-digits_two zero l h = absurd (omega arith)
length-digits_two (suc m) l h = omega (
  arith,
  length-digits_from_more (suc m) (suc m) l,
  length-digits_from_one m (suc m / 10) (omega arith),
)

pub length-digits_three : (n : ℕ) → 100 ≤ n → 3 ≤ length (digits n)
unfolding digits
length-digits_three zero l = absurd (omega arith)
length-digits_three (suc zero) l = absurd (omega arith)
length-digits_three (suc (suc m)) l =
    let n : ℕ = suc (suc m) in
    omega (
      arith,
      length-digits_from_more n n (omega arith),
      length-digits_from_more (suc m) (n / 10) (omega arith),
      length-digits_from_pos m (n / 10 / 10),
    )

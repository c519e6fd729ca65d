-- ===== src/Text/Decimal/Signed.antt =====
-- What `format_int` prints: `parse_int` reads it back in 64 bits, and different numbers have
-- different texts.
use tsdns.Prelude.{
  ℕ, zero, suc, ◌+◌, ◌-◌, ◌*◌, ◌/◌, ◌%◌, ◌^◌, ◌≤◌, ◌<◌, ℤ, pos, negsuc, false, ◌≡◌, ◌≢◌, sym, ap,
  ◌∙◌, some, [], ◌∷◌, Bytes, All, ltb, Bool-cases, inl, inr, arith,
}
use tsdns.Text.Bytes.{contains}
use tsdns.Text.Space.{trim_space}
use tsdns.Text.Space.Graphic.{IsGraphic, trim_space_graphic}
use tsdns.Text.Decimal.{parse_uint, signed, parse_int, digits, itoa, format_int}
use tsdns.Text.Decimal.RoundTrip.{IsDigit, itoa_digits, contains_digits, parse_uint64-itoa}

-- The values of a signed number of 64 bits.
abbrev pub IsInt64 : ℤ → Type 0
IsInt64 (pos n) = n < 2 ^ 63
IsInt64 (negsuc n) = n < 2 ^ 63

-- The number that digits stand for.
number : Bytes → ℕ → ℕ
number [] n = n
number (c ∷ s) n = number s (n * 10 + (c - b'0'))

number_last : (n : ℕ) (out : Bytes) → number ((b'0' + n % 10) ∷ out) (n / 10) ≡ number out n
unfolding number
number_last n out = ap (number out) (omega arith)

number-digits : (f n : ℕ) (out : Bytes) → n ≤ f → number (digits f n out) 0 ≡ number out n
unfolding digits number
number-digits zero n out h = ap (number out) (omega arith)
number-digits (suc f) n out h = elim (Bool-cases (ltb n 10)) [
  | inl small ↦ rw small (ap (number out) (ground arith))
  | inr large ↦ rw large (number-digits f (n / 10) _ (ground arith) ∙ number_last n out)
]

pub itoa-injective : (m n : ℕ) → itoa m ≡ itoa n → m ≡ n
unfolding itoa number
itoa-injective m n e =
    sym (number-digits m m [] (omega arith))
    ∙ ap (λ s. number s 0) e
    ∙ number-digits n n [] (omega arith)

-- A text of digits does not start with a sign.
sign_ne : (s t : Bytes) → All IsDigit s → s ≢ b'-' ∷ t
sign_ne [] t h e = cc
sign_ne (c ∷ s) t h e = ground arith

pub format_int-injective : (i j : ℤ) → format_int i ≡ format_int j → i ≡ j
unfolding format_int
format_int-injective (pos m) (pos n) e = ap pos (itoa-injective m n e)
format_int-injective (negsuc m) (negsuc n) e =
    let same : suc m ≡ suc n = itoa-injective (suc m) (suc n) (cc e) in ap negsuc (omega arith)
format_int-injective (pos m) (negsuc n) e = absurd (sign_ne (itoa m) _ (itoa_digits m) e)
format_int-injective (negsuc m) (pos n) e = absurd (sign_ne (itoa n) _ (itoa_digits n) (sym e))

-- No text of a number holds a colon.
pub contains-format_int : (i : ℤ) → contains (format_int i) b':' ≡ false
unfolding format_int contains
contains-format_int (pos n) = contains_digits (itoa n) b':' (omega arith) (itoa_digits n)
contains-format_int (negsuc n) =
    contains_digits (itoa (suc n)) b':' (omega arith) (itoa_digits (suc n))

-- A text of digits is read without a sign.
parse_int_digits :
    (s : Bytes) (n : ℕ)
    → All IsDigit s
    → parse_uint 64 s ≡ some n
    → n < 2 ^ 63
    → parse_int s ≡ some (pos n)
unfolding parse_int signed
parse_int_digits [] n h e l = absurd (unfold parse_uint in cc e)
parse_int_digits (c ∷ s) n h e l = ground arith

-- A number of 64 bits is read back from its decimal print.
pub parse_int-format_int : (i : ℤ) → IsInt64 i → parse_int (format_int i) ≡ some i
unfolding format_int
parse_int-format_int (pos n) h =
    parse_int_digits (itoa n) n (itoa_digits n) (parse_uint64-itoa n (omega arith)) h
parse_int-format_int (negsuc n) h =
    let read = parse_uint64-itoa (suc n) (omega arith) in unfold parse_int signed in ground arith

digits-IsGraphic : (s : Bytes) → All IsDigit s → All IsGraphic s
digits-IsGraphic [] h = tt
digits-IsGraphic (c ∷ s) h = (omega arith, digits-IsGraphic s h.1)

-- A printed number has no white space around it.
pub trim_space-format_int : (i : ℤ) → trim_space (format_int i) ≡ format_int i
unfolding format_int
trim_space-format_int (pos n) =
    trim_space_graphic (itoa n) (digits-IsGraphic (itoa n) (itoa_digits n))
trim_space-format_int (negsuc n) =
    trim_space_graphic (b'-' ∷ itoa (suc n))
      (omega arith, digits-IsGraphic (itoa (suc n)) (itoa_digits (suc n)))

-- ===== src/Text/Decimal/RoundTrip.antt =====
-- What `itoa` prints, `parse_uint` reads back, in 16 bits and in 64.
use tsdns.Prelude.{
  ℕ, zero, suc, ◌+◌, ◌-◌, ◌*◌, ◌/◌, ◌%◌, ◌^◌, ◌≤◌, ◌<◌, false, ◌≡◌, ◌≢◌, refl, ◌∙◌, some, [], ◌∷◌,
  Bytes, All, ltb, Bool-cases, inl, inr, arith,
}
use tsdns.Text.Bytes.{contains}
use tsdns.Text.Decimal.{is_digit, scan, parse_uint, digits, itoa}

abbrev pub IsDigit : ℕ → Type 0
IsDigit c = (b'0' ≤ c) × (c ≤ b'9')

-- Reading the last digit of `n` after the digits before it gives `n`.
scan_last :
    (limit n : ℕ) (out : Bytes)
    → limit < 2 ^ 64
    → n ≤ limit
    → scan limit ((b'0' + n % 10) ∷ out) (n / 10) ≡ scan limit out n
unfolding scan is_digit
scan_last limit n out l h = ground arith

scan-digits :
    (limit f n : ℕ) (out : Bytes)
    → limit < 2 ^ 64
    → n ≤ limit
    → n ≤ f
    → scan limit (digits f n out) 0 ≡ scan limit out n
unfolding digits
scan-digits limit zero n out l h e = ground (arith, scan_last limit n out)
scan-digits limit (suc f) n out l h e = elim (Bool-cases (ltb n 10)) [
  | inl small ↦ rw small (ground (arith, scan_last limit n out))
  | inr large ↦
      rw large
        (scan-digits limit f (n / 10) _ l (omega arith) (ground arith) ∙ scan_last limit n out l h)
]

digits-ne-nil : (f n : ℕ) (out : Bytes) → digits f n out ≢ []
unfolding digits
digits-ne-nil zero n out e = cc
digits-ne-nil (suc f) n out e = ground (arith, digits-ne-nil f (n / 10) ((b'0' + n % 10) ∷ out))

pub itoa-ne-nil : (n : ℕ) → itoa n ≢ []
unfolding itoa
itoa-ne-nil n = digits-ne-nil n n []

parse_uint-scan : (bits : ℕ) (s : Bytes) → s ≢ [] → parse_uint bits s ≡ scan (2 ^ bits - 1) s 0
unfolding parse_uint
parse_uint-scan bits [] h = absurd (h refl)
parse_uint-scan bits (c ∷ s) h = refl

-- A port is read back from its decimal print.
pub parse_uint-itoa : (n : ℕ) → n < 65536 → parse_uint 16 (itoa n) ≡ some n
unfolding itoa
parse_uint-itoa n h =
    parse_uint-scan 16 _ (digits-ne-nil n n [])
    ∙ scan-digits 65535 n n [] (omega arith) (omega arith) (omega arith)
    ∙ unfold scan in refl

-- The same for a number of 64 bits.
pub parse_uint64-itoa : (n : ℕ) → n < 2 ^ 64 → parse_uint 64 (itoa n) ≡ some n
unfolding itoa
parse_uint64-itoa n h =
    parse_uint-scan 64 _ (digits-ne-nil n n [])
    ∙ scan-digits (2 ^ 64 - 1) n n [] (omega arith) (omega arith) (omega arith)
    ∙ unfold scan in refl

-- A number that was read is in range.
scan-le : (limit : ℕ) (s : Bytes) (n r : ℕ) → n ≤ limit → scan limit s n ≡ some r → r ≤ limit
unfolding scan
scan-le limit [] n r h e = ground arith
scan-le limit (c ∷ s) n r h e = ground (arith, scan-le limit s ((n * 10 + (c - b'0')) % 2 ^ 64) r)

pub parse_uint-lt : (s : Bytes) (r : ℕ) → parse_uint 16 s ≡ some r → r < 65536
unfolding parse_uint
parse_uint-lt [] r e = cc
parse_uint-lt (c ∷ s) r e = omega (arith, scan-le 65535 (c ∷ s) 0 r (omega arith) e)

-- The digits end in one digit, and all are digits.
digits-All : (f n : ℕ) (out : Bytes) → All IsDigit out → All IsDigit (digits f n out)
unfolding digits
digits-All zero n out h = (omega arith, h)
digits-All (suc f) n out h = elim (Bool-cases (ltb n 10)) [
  | inl small ↦ rw small (omega arith, h)
  | inr large ↦ rw large (digits-All f (n / 10) _ (omega arith, h))
]

pub itoa_digits : (n : ℕ) → All IsDigit (itoa n)
unfolding itoa
itoa_digits n = digits-All n n [] tt

-- Digits hold no byte above 9.
pub contains_digits : (s : Bytes) (b : ℕ) → b'9' < b → All IsDigit s → contains s b ≡ false
unfolding contains
contains_digits [] b l h = refl
contains_digits (c ∷ s) b l h = ground (arith, contains_digits s b l h.1)

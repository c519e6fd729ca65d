-- ===== src/Text/Decimal.antt =====
-- `strconv.ParseUint`, `strconv.ParseInt` and `strconv.Itoa` for base 10, on bytes.
pub mod RoundTrip
pub mod Signed
use tsdns.Prelude.{
  ℕ, zero, suc, ◌+◌, ◌-◌, ◌*◌, ◌/◌, ◌%◌, ◌^◌, Bool, true, false, ◌&&◌, ◌||◌, Option, none, some, [],
  ◌∷◌, Bytes, ◌==◌, leb, ltb, if◌then◌else◌, ℤ, pos, negsuc, ◌>>=◌,
}

unfoldable pub is_digit : ℕ → Bool
is_digit c = leb b'0' c && leb c b'9'

-- `maxUint64/10 + 1`, from which on a product with ten overflows.
abbrev pub cutoff : ℕ
cutoff = (2 ^ 64 - 1) / 10 + 1

-- The loop of `ParseUint`, in 64-bit arithmetic; `none` is any of its errors.
pub scan : ℕ → Bytes → ℕ → Option ℕ
scan limit [] n = some n
scan limit (c ∷ s) n =
    let tens = n * 10 in
    let sum = (tens + (c - b'0')) % 2 ^ 64 in
    let rest = scan limit s sum in
    if is_digit c
    then (if leb cutoff n then none else if ltb sum tens || ltb limit sum then none else rest)
    else none

-- `strconv.ParseUint(s, 10, bits)`.
unfoldable pub parse_uint : ℕ → Bytes → Option ℕ
unfolding scan is_digit
parse_uint bits [] = none
parse_uint bits (c ∷ s) = scan (2 ^ bits - 1) (c ∷ s) 0

-- `strconv.ParseInt(s, 10, 64)` behind its sign: at most 2^63 - 1, or 2^63 below zero.
pub signed : Bool → ℕ → Option ℤ
signed false n = if leb (2 ^ 63) n then none else some (pos n)
signed true zero = some (pos 0)
signed true (suc n) = if ltb (2 ^ 63) (suc n) then none else some (negsuc n)

-- `strconv.ParseInt(s, 10, 64)`.
unfoldable pub parse_int : Bytes → Option ℤ
unfolding parse_uint signed
parse_int [] = none
parse_int (c ∷ s) =
    if c == b'+'
    then (do n ← parse_uint 64 s; signed false n)
    else if c == b'-'
    then (do n ← parse_uint 64 s; signed true n)
    else (do n ← parse_uint 64 (c ∷ s); signed false n)

-- Whether `ParseUint` fails since the number is too large; it does not read on behind that.
overflows : Bytes → ℕ → Bool
overflows [] n = false
overflows (c ∷ s) n =
    let tens = n * 10 in
    let sum = (tens + (c - b'0')) % 2 ^ 64 in
    let rest = overflows s sum in
    if is_digit c
    then (if leb cutoff n then true else if ltb sum tens then true else rest)
    else false

-- The value that `ParseInt` returns with an error: the nearest bound if the number is out of range,
-- and otherwise 0. A number that `ParseUint` reads is out of the range of `ParseInt` then.
bound : Bool → ℤ
bound false = pos (2 ^ 63 - 1)
bound true = negsuc (2 ^ 63 - 1)

saturated : Bool → Bytes → ℤ
unfolding overflows bound parse_uint
saturated negative s = elim (parse_uint 64 s) [
  | some n ↦ bound negative
  | none ↦ if overflows s 0 then bound negative else pos 0
]

value_of_error : Bytes → ℤ
unfolding saturated
value_of_error [] = pos 0
value_of_error (c ∷ s) =
    if c == b'+'
    then saturated false s
    else if c == b'-'
    then saturated true s
    else saturated false (c ∷ s)

-- The first result of `strconv.ParseInt(s, 10, 64)`.
unfoldable pub parse_int_value : Bytes → ℤ
unfolding parse_int value_of_error
parse_int_value s = elim (parse_int s) [ some i ↦ i | none ↦ value_of_error s ]

-- The digits of `n` in front of `out`. Each round divides `n` by ten, so `n` rounds are enough.
pub digits : ℕ → ℕ → Bytes → Bytes
digits zero n out = (b'0' + n % 10) ∷ out
digits (suc f) n out =
    let rest = digits f (n / 10) ((b'0' + n % 10) ∷ out) in
    if ltb n 10 then (b'0' + n % 10) ∷ out else rest

-- `strconv.Itoa` of a number that is not negative.
unfoldable pub itoa : ℕ → Bytes
unfolding digits
itoa n = digits n n []

-- `strconv.FormatInt(i, 10)`.
unfoldable pub format_int : ℤ → Bytes
unfolding itoa
format_int (pos n) = itoa n
format_int (negsuc n) = b'-' ∷ itoa (suc n)

-- ===== src/Net/V4.antt =====
-- The text of an IPv4 address, and `parseIPv4`.
use tsdns.Prelude.{
  ℕ, ◌+◌, ◌-◌, ◌*◌, ◌&&◌, ◌||◌, Option, none, some, List, [], ◌∷◌, ◌++◌, Bytes, ◌==◌, ltb,
  if◌then◌else◌, length,
}
use tsdns.Text.Decimal.{itoa, is_digit}
use tsdns.Net.Addr.{Addr, v4}

-- `Addr.string4`.
unfoldable pub show_v4 : ℕ → ℕ → ℕ → ℕ → Bytes
show_v4 a b c d = itoa a ++ b'.' ∷ (itoa b ++ b'.' ∷ (itoa c ++ b'.' ∷ itoa d))

-- The loop of `parseIPv4Fields`: the fields that are complete, the value of the one that is being
-- read and its number of digits. A field is at most 255, and its first digit is 0 only alone.
unfoldable pub fields : List ℕ → ℕ → ℕ → Bytes → Option (List ℕ)
unfolding is_digit
fields done value len [] =
    if len == 0 then none else if length done == 3 then some (done ++ value ∷ []) else none
fields done value len (c ∷ s) =
    let next = value * 10 + (c - b'0') in
    let digit = fields done next (len + 1) s in
    let dot = fields (done ++ value ∷ []) 0 0 s in
    if is_digit c
    then (if len == 1 && value == 0 then none else if ltb 255 next then none else digit)
    else if c == b'.'
    then (if len == 0 || length done == 3 then none else dot)
    else none

-- The four fields as an address.
unfoldable pub four : Option (List ℕ) → Option Addr
four (some (a ∷ b ∷ c ∷ d ∷ [])) = some (v4 a b c d)
four _ = none

unfoldable pub parse_v4 : Bytes → Option Addr
unfolding fields four
parse_v4 s = four (fields [] 0 0 s)

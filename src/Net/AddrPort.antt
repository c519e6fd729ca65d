-- ===== src/Net/AddrPort.antt =====
-- `netip.ParseAddr`, `netip.ParseAddrPort` and the texts of their results.
pub mod Laws
use tsdns.Prelude.{
  ℕ, zero, suc, ◌+◌, ◌-◌, Bool, true, false, ◌&&◌, ◌||◌, not, Option, none, some, [], ◌∷◌, ◌++◌,
  Bytes, ◌==◌, if◌then◌else◌, length, take, drop, ◌>>=◌, get_elem?,
}
use tsdns.Text.Bytes.{codes, last_index}
use tsdns.Text.Decimal.{itoa, parse_uint}
use tsdns.Net.Addr.{Addr, AddrPort, invalid, v4, v6, is4, is6}
use tsdns.Net.V4.{show_v4, parse_v4}
use tsdns.Net.V6.{show_v6, parse_v6}

-- `Addr.String`.
unfoldable pub show_addr : Addr → Bytes
show_addr invalid = codes "invalid IP"
show_addr (v4 a b c d) = show_v4 a b c d
show_addr (v6 gs zone) = show_v6 gs zone

-- `AddrPort.String`.
unfoldable pub show_addr_port : AddrPort → Bytes
unfolding show_addr
show_addr_port t = elim t.addr [
  | invalid ↦ codes "invalid AddrPort"
  | v4 a b c d ↦ show_v4 a b c d ++ b':' ∷ itoa t.port
  | v6 gs zone ↦ b'[' ∷ (show_v6 gs zone ++ b']' ∷ b':' ∷ itoa t.port)
]

-- The first `.`, `:` or `%` of the text decides how all of it, `s`, is read.
parse_as : Bytes → Bytes → Option Addr
parse_as s [] = none
parse_as s (c ∷ rest) =
    if c == b'.'
    then parse_v4 s
    else if c == b':'
    then parse_v6 s
    else if c == b'%'
    then none
    else parse_as s rest

unfoldable pub parse_addr : Bytes → Option Addr
unfolding parse_as
parse_addr s = parse_as s s

-- The address without its brackets, which must be there for IPv6 and for nothing else.
in_brackets : Bytes → Option Addr
in_brackets s = do a ← parse_addr (take (length s - 2) (drop 1 s)); if is4 a then none else some a

bare : Bytes → Option Addr
bare s = do a ← parse_addr s; if is6 a then none else some a

-- The text behind an opening bracket ends in a closing one.
ends_in_bracket : Bytes → Bool
ends_in_bracket s = elim (last_index s b']') [ none ↦ false | some i ↦ i + 1 == length s ]

-- `splitAddrPort` and the checks behind it, on the text before the last colon.
unfoldable pub host_addr : Bytes → Option Addr
unfolding in_brackets bare ends_in_bracket
host_addr [] = none
host_addr (c ∷ s) =
    if c == b'[' then (if ends_in_bracket s then in_brackets (c ∷ s) else none) else bare (c ∷ s)

unfoldable pub parse_addr_port : Bytes → Option AddrPort
parse_addr_port s = do
  i ← last_index s b':'
  a ← host_addr (take i s)
  p ← parse_uint 16 (drop (i + 1) s)
  some (record { addr = a; port = p })

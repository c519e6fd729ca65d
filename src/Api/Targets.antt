-- ===== src/Api/Targets.antt =====
-- The targets of an upsert request, in internal/api/handlers.go.
pub mod Printed
use tsdns.Prelude.{
  ℕ, ◌-◌, ◌%◌, ℤ, pos, negsuc, Bool, true, false, ◌&&◌, Option, none, some, List, [], ◌∷◌, Bytes,
  ◌==◌, leb, if◌then◌else◌, ◌>>=◌, reverse,
}
use tsdns.Text.Bytes.{codes, contains}
use tsdns.Net.Addr.{AddrPort}
use tsdns.Net.AddrPort.{parse_addr, parse_addr_port}

-- An ASCII letter as upper case.
abbrev to_upper : ℕ → ℕ
to_upper c = if leb b'a' c && leb c b'z' then c - 32 else c

-- U+017F, which folds to S.
abbrev long_s : ℕ → Bytes → Option Bytes
long_s w [] = none
long_s w (c ∷ []) = none
long_s w (c ∷ d ∷ s) = if w == b'S' && c == 197 && d == 191 then some s else none

-- The text behind a letter that folds to the upper case letter `w`.
unfoldable pub drop_letter : ℕ → Bytes → Option Bytes
drop_letter w [] = none
drop_letter w (c ∷ s) = if to_upper c == w then some s else long_s w (c ∷ s)

-- `strings.EqualFold` with a word of upper case letters.
unfoldable pub equal_fold : Bytes → Bytes → Bool
unfolding drop_letter
equal_fold [] [] = true
equal_fold [] (c ∷ s) = false
equal_fold (w ∷ ws) s = elim (drop_letter w s) [ none ↦ false | some rest ↦ equal_fold ws rest ]

-- `strings.TrimLeft` and `strings.Trim` with a set of ASCII characters.
unfoldable pub trim_set_left : Bytes → Bytes → Bytes
trim_set_left set [] = []
trim_set_left set (c ∷ s) = let rest = trim_set_left set s in if contains set c then rest else c ∷ s

unfoldable pub trim_set : Bytes → Bytes → Bytes
unfolding trim_set_left
trim_set set s = reverse (trim_set_left set (reverse (trim_set_left set s)))

-- `uint16(req.Port)`.
unfoldable pub to_uint16 : ℤ → ℕ
to_uint16 (pos n) = n % 65536
to_uint16 (negsuc n) = 65535 - n % 65536

-- The fallback to an address, with the port of the request.
unfoldable pub parse_address : ℤ → Bytes → Option AddrPort
unfolding to_uint16
parse_address port t = do
  a ← parse_addr (trim_set (codes "[] ") t)
  some (record { addr = a; port = to_uint16 port })

unfoldable pub parse_target : ℤ → Bytes → Option AddrPort
unfolding parse_address
parse_target port t = elim (parse_addr_port t) [ some tp ↦ some tp | none ↦ parse_address port t ]

-- The targets, or the first text that is none.
pub data Parsed : Type 0 where
  parsed : List AddrPort → Parsed
  invalid : Bytes → Parsed

unfoldable pub put_target : Option AddrPort → Bytes → Parsed → Parsed
put_target none t rest = invalid t
put_target (some tp) t (parsed tps) = parsed (tp ∷ tps)
put_target (some tp) t (invalid u) = invalid u

-- The loop over `req.Targets`; the word NORESPONSE is skipped.
unfoldable pub parse_targets : ℤ → List Bytes → Parsed
unfolding parse_target put_target
parse_targets port [] = parsed []
parse_targets port (t ∷ ts) =
    let rest = parse_targets port ts in
    if equal_fold (codes "NORESPONSE") t then rest else put_target (parse_target port t) t rest

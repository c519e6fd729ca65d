-- ===== src/Net/Addr.antt =====
-- `netip.Addr` and `netip.AddrPort`.
use tsdns.Prelude.{ℕ, ◌<◌, ◌≡◌, Bool, true, false, List, Bytes}

-- An IPv4 address has four bytes, and an IPv6 address eight groups of 16 bits and a zone, empty
-- for none. `invalid` is the zero value of the type.
pub data Addr : Type 0 where
  invalid : Addr
  v4 : ℕ → ℕ → ℕ → ℕ → Addr
  v6 : List ℕ → Bytes → Addr

-- `Addr.Is6`.
unfoldable pub is6 : Addr → Bool
is6 (v6 groups zone) = true
is6 _ = false

-- `Addr.Is4`.
unfoldable pub is4 : Addr → Bool
is4 (v4 a b c d) = true
is4 _ = false

pub record AddrPort : Type 0 where
  pub addr : Addr
  pub port : ℕ

-- The bytes of an IPv4 address are bytes, and its port is in range.
abbrev pub IsV4 : AddrPort → ℕ → ℕ → ℕ → ℕ → Type 0
IsV4 t a b c d =
    (t.addr ≡ v4 a b c d) × (a < 256) × (b < 256) × (c < 256) × (d < 256) × (t.port < 65536)

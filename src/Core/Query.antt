-- ===== src/Core/Query.antt =====
-- `parseQuery` of core/handler.go: a query line into a host and a port.
-- A port is an int32 there; `ParseUint` with 16 bits keeps it below 65536, so it is exact in ℕ.
pub mod Accepts
pub mod Sound
use tsdns.Prelude.{
  ℕ, zero, suc, ◌+◌, ◌-◌, Bool, ◌&&◌, Option, none, some, [], Bytes, ◌==◌, ltb, if◌then◌else◌,
  length, take, drop, get_elem?, ◌>>=◌, ◌∷◌, get_or,
}
use tsdns.Text.Bytes.{has_prefix, index, last_index, equal}
use tsdns.Text.Space.{trim_space}
use tsdns.Text.Decimal.{parse_uint}

-- The test `s[i] == b`.
byte_at : Bytes → ℕ → ℕ → Bool
byte_at s i b = elim (get_elem? s i) [ none ↦ Bool.false | some c ↦ c == b ]

-- The port that `ParseUint(p, 10, 16)` reads, with the host in front of it.
with_port : Bytes → Bytes → Option (Bytes × ℕ)
with_port h p = do n ← parse_uint 16 p; some (h, n)

-- The guard on the position of `]`, and the cut there.
cut_bracketed : Bytes → ℕ → Option (Bytes × ℕ)
cut_bracketed raw end =
    if ltb 1 end && ltb (end + 1) (length raw) && byte_at raw (end + 1) b':'
    then with_port (take (end - 1) (drop 1 raw)) (drop (end + 2) raw)
    else none

-- The bracketed form, `[::1]:9987`.
unfoldable pub parse_bracketed : Bytes → Option (Bytes × ℕ)
unfolding byte_at with_port cut_bracketed
parse_bracketed raw =
    if has_prefix raw (b'[' ∷ []) then (do end ← index raw b']'; cut_bracketed raw end) else none

-- The guard on the position of the last colon, and the cut there.
cut_host_port : Bytes → ℕ → Option (Bytes × ℕ)
cut_host_port raw idx =
    if ltb 0 idx && ltb (idx + 1) (length raw)
    then with_port (take idx raw) (drop (idx + 1) raw)
    else none

-- The typical form, `host:port`.
unfoldable pub parse_host_port : Bytes → Option (Bytes × ℕ)
unfolding with_port cut_host_port
parse_host_port raw = do idx ← last_index raw b':'; cut_host_port raw idx

-- The forms in the order in which the code tries them, on a text that is trimmed.
unfoldable pub parse_trimmed : Bytes → Bytes × ℕ
parse_trimmed [] = ([], 0)
parse_trimmed (c ∷ s) =
    get_or (parse_bracketed (c ∷ s)) (get_or (parse_host_port (c ∷ s)) (c ∷ s, 0))

unfoldable pub parse_query : Bytes → Bytes × ℕ
parse_query raw = parse_trimmed (trim_space raw)

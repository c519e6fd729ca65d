-- ===== src/Core/Response.antt =====
-- `buildResponse` of core/handler.go: the reply to a query, from a record and the query's port.
pub mod Laws
use tsdns.Prelude.{
  ℕ, zero, suc, ◌+◌, Bool, true, false, List, [], ◌∷◌, ◌++◌, Bytes, ◌==◌, ltb, if◌then◌else◌,
}
use tsdns.Text.Decimal.{itoa}
use tsdns.Net.Addr.{AddrPort, is6}
use tsdns.Net.AddrPort.{show_addr}
use tsdns.Core.Record.{Record}

-- What one round of the loop writes for the address.
unfoldable pub write_addr : AddrPort → Bytes
write_addr tp = if is6 tp.addr then b'[' ∷ (show_addr tp.addr ++ b']' ∷ []) else show_addr tp.addr

-- The local variables `usePort` and `port` behind the test for port 0.
unfoldable pub use_port : ℕ → ℕ → Bool × ℕ
use_port port query_port =
    if port == 0
    then (if ltb 0 query_port then (true, query_port) else (false, port))
    else (true, port)

unfoldable pub write_port : Bool × ℕ → Bytes
write_port (true, port) = b':' ∷ itoa port
write_port (false, port) = []

-- The loop over the targets; `i` is the loop's index, and `sb` what was written before.
unfoldable pub write_targets : ℕ → ℕ → List AddrPort → Bytes → Bytes
write_targets query_port i [] sb = sb
write_targets query_port i (tp ∷ rest) sb =
    let spaced = if ltb 0 i then sb ++ b' ' ∷ [] else sb in
    write_targets query_port (i + 1) rest
      ((spaced ++ write_addr tp) ++ write_port (use_port tp.port query_port))

-- `len(targets) == 0` stands for NORESPONSE.
unfoldable pub respond : ℕ → List AddrPort → Bytes
respond query_port [] = []
respond query_port (t ∷ ts) = write_targets query_port 0 (t ∷ ts) []

unfoldable pub build_response : Record → ℕ → Bytes
unfolding respond
build_response rec query_port = respond query_port rec.targets
